-- ===== src/Gateway/Objects.antt =====
-- api/pkg/s3: the handlers of objects and buckets, against the S3 service, the backend service and the
-- store of a backend. Uploads in parts are in Multipart.
pub mod Laws
pub mod Stores
pub mod Placed
pub mod Arrives
pub mod Router
pub mod Asking
pub mod Disk
mod Tests
use multi_cloud.Common.{
  ℕ, zero, suc, ◌+◌, ◌-◌, ◌^◌, ltb, ◌==◌, Bool, true, false, not, ◌&&◌, ◌||◌, Text, codes, text_eq,
  is_empty, List, [], ◌∷◌, take, drop, Option, none, some, if◌then◌else◌,
}
use multi_cloud.Common.Int.{ℤ, pos, negsuc}
use multi_cloud.Common.Actions.{Act, return, fail, panic, ◌>>=◌, tried}
use multi_cloud.Backend.Types.{BackendDetail}
use multi_cloud.S3.Types.{Bucket, Object}
use multi_cloud.Common.Strconv.{unsigned, negated}
use multi_cloud.Gateway.Routes.{Answer, error_of, entity, authorized, reply}

-- The S3 service, the backends of a name, and the store of a backend: the interface
-- `DataStoreAdapter` for whole objects. What `put` gives is the object as the store has changed it. The
-- clock is in seconds.
pub record Cloud (W : Type 0) : Type 0 where
  pub list_buckets : Text → Act W (List Bucket)
  pub get_bucket : Text → Act W Bucket
  pub create_bucket : Bucket → Act W (Unit {0})
  pub delete_bucket : Text → Act W (Unit {0})
  pub list_objects : Text → Act W (List Object)
  pub create_object : Object → Act W (Unit {0})
  pub get_object : Text → Text → Act W Object
  pub delete_object : Text → Text → Act W (Unit {0})
  pub backends_named : Text → Act W (List BackendDetail)
  pub put : BackendDetail → Text → Object → Act W Object
  pub get : BackendDetail → Object → ℤ → ℤ → Act W Text
  pub delete : BackendDetail → Text → Text → Act W (Unit {0})
  pub now : W → ℕ

-- `datastore.Init`: the store of the backend, or nil for a type without one.
unfoldable pub store_of : BackendDetail → Option BackendDetail
store_of b =
    if text_eq b.type (codes "azure-blob")
      || text_eq b.type (codes "hw-obs")
      || text_eq b.type (codes "aws-s3")
      || text_eq b.type (codes "ceph-s3")
      || text_eq b.type (codes "fusionstorage-object")
    then some b
    else none

-- `backendRep.Backends[0]`: out of range if there is no backend of the name.
unfoldable pub first_store :
    {W : Type 0} → Option (List BackendDetail) → Act W (Option BackendDetail)
unfolding store_of
first_store none = return none
first_store (some []) = panic
first_store (some (b ∷ bs)) = return (store_of b)

-- The value that `Atoi` and `ParseInt` give along with an error: 0 for a text that is no number, and the
-- nearest int64 for a number that is none.
unfoldable pub clamped : Option ℕ → ℕ → ℕ
clamped none most = 0
clamped (some n) most = if ltb most n then most else n

unfoldable pub int_value : Text → ℤ
unfolding unsigned clamped negated
int_value [] = pos 0
int_value (c ∷ s) =
    if c == b'-'
    then negated (clamped (unsigned s) (2 ^ 63))
    else pos (clamped (if c == b'+' then unsigned s else unsigned (c ∷ s)) (2 ^ 63 - 1))

-- The `content-length`, which the HTTP server has refused if it is negative.
unfoldable pub size_of : ℤ → ℕ
size_of (pos n) = n
size_of (negsuc n) = 0

-- `strings.Index(s, "-")`.
unfoldable pub dash_index : Text → Option ℕ
dash_index [] = none
dash_index (c ∷ s) =
    let rest = dash_index s in
    if c == b'-' then some 0 else elim rest [ none ↦ none | some i ↦ some (i + 1) ]

-- The bounds of a range that is given: `[6:index]` is out of range for a dash before it, or none.
unfoldable pub range_at : {W : Type 0} → Text → Option ℕ → Act W (ℤ × ℤ)
unfolding int_value
range_at s none = panic
range_at s (some i) =
    if ltb i 6
    then panic
    else return (int_value (take (i - 6) (drop 6 s)), int_value (drop (i + 1) s))

unfoldable pub range_of : {W : Type 0} → Text → Act W (ℤ × ℤ)
unfolding range_at dash_index
range_of s = if is_empty s then return (pos 0, pos 0) else range_at s (dash_index s)

-- The object of a request to upload one, before the store has seen it.
abbrev pub uploaded : Text → Text → Text → ℕ → Object
uploaded bucket key backend size = record {
  object_key = key;
  bucket_name = bucket;
  backend = backend;
  is_delete_marker = [];
  size = size;
  last_modified = [];
  init_flag = [];
  partions = [];
}

-- The object that a store is asked for.
abbrev pub wanted : Text → Text → ℕ → Object
wanted bucket key size = uploaded bucket key [] size

-- The bucket of a request to create one; the owner is always `test`.
unfoldable pub new_bucket : Text → Text → ℕ → Bucket
new_bucket name backend created = record {
  name = name;
  owner = codes "test";
  owner_display_name = codes "test";
  creation_date = created;
  deleted = false;
  backend = backend;
}

module _ {W : Type 0} (cloud : Cloud W) where
  unfoldable pub get_backend_by_name : Text → Act W (Option BackendDetail)
  get_backend_by_name name = tried (cloud.backends_named name) >>= first_store

  unfoldable pub store_of_bucket : Option Bucket → Act W (Option BackendDetail)
  store_of_bucket none = return none
  store_of_bucket (some bucket) = get_backend_by_name bucket.backend

  unfoldable pub get_backend_client : Text → Act W (Option BackendDetail)
  get_backend_client bucket_name = tried (cloud.get_bucket bucket_name) >>= store_of_bucket

  -- `CreateObject` after the store has taken the object.
  unfoldable pub after_put : Option Object → Act W (Answer (Unit {0}))
  after_put none = return (error_of 500)
  after_put (some object) = reply (cloud.create_object object)

  unfoldable pub put_to : Text → Object → Option BackendDetail → Act W (Answer (Unit {0}))
  put_to body object none = return (error_of 500)
  put_to body object (some store) = tried (cloud.put store body object) >>= after_put

  -- `bucket.Backend` of a nil bucket panics.
  unfoldable pub put_in : Text → Text → Text → ℕ → Option Bucket → Act W (Answer (Unit {0}))
  put_in bucket_name key body size none = panic
  put_in bucket_name key body size (some bucket) =
      get_backend_client bucket_name >>= put_to body (uploaded bucket_name key bucket.backend size)

  -- `ObjectPut` behind the policy, with the header that names a backend.
  unfoldable pub put_object : Text → Text → Text → Text → Text → Act W (Answer (Unit {0}))
  put_object bucket_name key content_length backend_name body =
      let size = size_of (int_value content_length) in
      if is_empty backend_name
      then tried (cloud.get_bucket bucket_name) >>= put_in bucket_name key body size
      else get_backend_by_name backend_name
        >>= put_to body (uploaded bucket_name key backend_name size)

  unfoldable pub object_put :
      (Text → Act W Bool) → Text → Text → Text → Text → Text → Act W (Answer (Unit {0}))
  object_put allowed bucket_name key content_length backend_name body =
      authorized allowed (codes "object:put")
        (put_object bucket_name key content_length backend_name body)

  unfoldable pub get_from : Object → ℤ × ℤ → Option BackendDetail → Act W (Answer Text)
  get_from object range none = return (error_of 500)
  get_from object range (some store) = reply (cloud.get store object range.0 range.1)

  unfoldable pub get_found : Text → Text → ℤ × ℤ → Option Object → Act W (Answer Text)
  get_found bucket_name key range none = return (error_of 500)
  get_found bucket_name key range (some object) =
      (if is_empty object.backend
        then get_backend_client bucket_name
        else get_backend_by_name object.backend)
      >>= get_from (wanted bucket_name key object.size) range

  -- `ObjectGet`, which does not ask the policy.
  unfoldable pub object_get : Text → Text → Text → Act W (Answer Text)
  object_get bucket_name key range_header = do
    range ← range_of range_header
    object ← tried (cloud.get_object bucket_name key)
    get_found bucket_name key range object

  unfoldable pub after_delete : Text → Text → Option (Unit {0}) → Act W (Answer (Option (Unit {0})))
  after_delete bucket_name key none = return (error_of 500)
  after_delete bucket_name key (some u) =
      reply (cloud.delete_object bucket_name key >>= λ res. return (some res))

  -- `client.DELETE` of a nil store panics.
  unfoldable pub delete_from :
      Text → Text → Option BackendDetail → Act W (Answer (Option (Unit {0})))
  delete_from bucket_name key none = panic
  delete_from bucket_name key (some store) =
      tried (cloud.delete store bucket_name key) >>= after_delete bucket_name key

  -- An object that is not there leaves the response empty, the `none`.
  unfoldable pub delete_found : Text → Text → Option Object → Act W (Answer (Option (Unit {0})))
  delete_found bucket_name key none = return (entity none)
  delete_found bucket_name key (some object) =
      get_backend_by_name object.backend >>= delete_from bucket_name key

  unfoldable pub object_delete :
      (Text → Act W Bool) → Text → Text → Act W (Answer (Option (Unit {0})))
  object_delete allowed bucket_name key =
      authorized allowed (codes "object:delete")
        (tried (cloud.get_object bucket_name key) >>= delete_found bucket_name key)

  unfoldable pub create_bucket_at : Text → Text → Act W (Answer (Unit {0}))
  create_bucket_at name backend w =
      reply (cloud.create_bucket (new_bucket name backend (cloud.now w))) w

  unfoldable pub put_bucket_on : Text → Text → Option BackendDetail → Act W (Answer (Unit {0}))
  put_bucket_on name backend none = return (error_of 500)
  put_bucket_on name backend (some store) = create_bucket_at name backend

  -- The configuration that is read from the body: its error, or the location, which must not be empty.
  unfoldable pub put_bucket_conf : Text → Option Text → Act W (Answer (Unit {0}))
  put_bucket_conf name none = return (error_of 500)
  put_bucket_conf name (some location) =
      if is_empty location
      then return (error_of 404)
      else get_backend_by_name location >>= put_bucket_on name location

  -- A body that cannot be read is none at all, and the bucket has no backend then.
  unfoldable pub put_bucket : (Text → Option Text) → Text → Option Text → Act W (Answer (Unit {0}))
  put_bucket unmarshal name none = create_bucket_at name []
  put_bucket unmarshal name (some body) = put_bucket_conf name (unmarshal body)

  unfoldable pub bucket_put :
      (Text → Act W Bool) → (Text → Option Text) → Text → Option Text → Act W (Answer (Unit {0}))
  bucket_put allowed unmarshal name body =
      authorized allowed (codes "bucket:put") (put_bucket unmarshal name body)

  unfoldable pub bucket_delete : (Text → Act W Bool) → Text → Act W (Answer (Unit {0}))
  bucket_delete allowed name =
      authorized allowed (codes "bucket:delete") (reply (cloud.delete_bucket name))

  unfoldable pub bucket_get : (Text → Act W Bool) → Text → Act W (Answer (List Object))
  bucket_get allowed name =
      authorized allowed (codes "bucket:get") (reply (cloud.list_objects name))

  unfoldable pub api_list_buckets : (Text → Act W Bool) → Act W (Answer (List Bucket))
  api_list_buckets allowed =
      authorized allowed (codes "bucket:list") (reply (cloud.list_buckets (codes "test")))
