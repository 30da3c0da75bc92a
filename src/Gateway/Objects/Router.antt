-- ===== src/Gateway/Objects/Router.antt =====
-- api/pkg/s3/router.go, routbucketput.go, routeobjectput.go and routeobjectdelete.go: the handler of a
-- request, by its route, its query and its headers. What is answered is kept as its status; a handler
-- that writes nothing leaves 200.
use multi_cloud.Common.{
  ℕ, Bool, true, false, not, ◌&&◌, Text, codes, is_empty, List, [], Option, none, some,
  if◌then◌else◌,
}
use multi_cloud.Common.Actions.{Act, return, ◌>>=◌}
use multi_cloud.Policy.Check.{TextMap, lookup}
use multi_cloud.Gateway.Routes.{Answer}
use multi_cloud.Gateway.Routes.Router.{answer_status}
use multi_cloud.Gateway.Objects.{
  Cloud, object_put, object_get, object_delete, bucket_put, bucket_get, bucket_delete,
  api_list_buckets,
}
use multi_cloud.Gateway.Multipart.{
  Upload, Uploads, multi_part_upload_init, upload_part, complete_multipart_upload,
  abort_multipart_upload,
}

-- A request as go-restful gives it: `params` is the query of the URL, `body` what a store reads of the
-- body, and `read_all` what `ReadAll` makes of it, `none` for its error.
pub record ObjectRequest : Type 0 where
  pub bucket_name : Text
  pub object_key : Text
  pub params : TextMap (List Text)
  pub query_parameter : Text → Text
  pub header_parameter : Text → Text
  pub body : Text
  pub read_all : Option Text

unfoldable pub is_query : ObjectRequest → Text → Bool
unfolding lookup
is_query r name = elim (lookup name r.params) [ none ↦ false | some values ↦ true ]

unfoldable pub has_header : ObjectRequest → Text → Bool
has_header r name = not (is_empty (r.header_parameter name))

-- `ReadBody`, whose nil is empty.
unfoldable pub read_body : ObjectRequest → Text
read_body r = elim r.read_all [ none ↦ [] | some body ↦ body ]

-- The upload that a request is about.
unfoldable pub upload_of : ObjectRequest → Upload
upload_of r = record {
  bucket = r.bucket_name;
  key = r.object_key;
  upload_id = r.query_parameter (codes "uploadId");
}

-- A method and a path.
pub data ObjectRoute : Type 0 where
  route_list_buckets : ObjectRoute
  route_bucket_put : ObjectRoute
  route_bucket_get : ObjectRoute
  route_bucket_delete : ObjectRoute
  route_object_put : ObjectRoute
  route_object_delete : ObjectRoute
  route_object_get : ObjectRoute

unfoldable pub with_status : {W A : Type 0} → Act W (Answer A) → Act W ℕ
unfolding answer_status
with_status call w = answer_status (call w)

-- `policy.Authorize` of a handler that goes on to one of several.
unfoldable pub permitted : {W : Type 0} → (Text → Act W Bool) → Text → Act W ℕ → Act W ℕ
unfolding ◌>>=◌
permitted allowed action call = allowed action >>= λ ok. if ok then call else return 403

module _ {W : Type 0} (allowed : Text → Act W Bool) (cloud : Cloud W) (uploads : Uploads W)
    (unmarshal : Text → Option Text) (r : ObjectRequest) where
  -- A copy of an object is left empty, as the requests for its access control and its tags are.
  unfoldable pub put_or_copy : Act W ℕ
  unfolding with_status has_header
  put_or_copy =
      if has_header r (codes "x-amz-copy-source")
      then return 200
      else with_status (
          object_put cloud allowed r.bucket_name r.object_key
            (r.header_parameter (codes "content-length"))
            (r.header_parameter (codes "x-amz-storage-class")) r.body)

  unfoldable pub put_part_or_whole : Act W ℕ
  unfolding with_status is_query upload_of read_body put_or_copy
  put_part_or_whole =
      if is_query r (codes "uploads")
      then with_status (
          multi_part_upload_init cloud uploads r.bucket_name r.object_key
            (r.header_parameter (codes "x-amz-storage-class")))
      else if is_query r (codes "partNumber") && is_query r (codes "uploadId")
      then with_status (
          upload_part cloud uploads (upload_of r) (r.query_parameter (codes "partNumber"))
            (r.header_parameter (codes "content-length")) r.body)
      else if is_query r (codes "uploadId")
      then with_status (complete_multipart_upload cloud uploads (upload_of r) (read_body r))
      else put_or_copy

  unfoldable pub handle_object_put : Act W ℕ
  unfolding permitted is_query put_part_or_whole
  handle_object_put = permitted allowed (codes "routobject:put") (
      if is_query r (codes "acl")
      then return 200
      else if is_query r (codes "tagging")
      then return 200
      else put_part_or_whole)

  unfoldable pub handle_bucket_put : Act W ℕ
  unfolding permitted is_query with_status
  handle_bucket_put = permitted allowed (codes "routbucket:put") (
      if is_query r (codes "acl")
      then return 200
      else if is_query r (codes "versioning")
      then return 200
      else if is_query r (codes "website")
      then return 200
      else if is_query r (codes "cors")
      then return 200
      else if is_query r (codes "replication")
      then return 200
      else if is_query r (codes "lifecycle")
      then return 200
      else with_status (bucket_put cloud allowed unmarshal r.bucket_name r.read_all))

  -- Only the deletion of a whole object asks the policy.
  unfoldable pub handle_object_delete : Act W ℕ
  unfolding is_query with_status upload_of
  handle_object_delete =
      if is_query r (codes "uploadId")
      then with_status (abort_multipart_upload cloud uploads (upload_of r))
      else with_status (object_delete cloud allowed r.bucket_name r.object_key)

  -- The status that a request on a route is answered with.
  unfoldable pub serve_object : ObjectRoute → Act W ℕ
  unfolding with_status handle_bucket_put handle_object_put handle_object_delete
  serve_object route_list_buckets = with_status (api_list_buckets cloud allowed)
  serve_object route_bucket_put = handle_bucket_put
  serve_object route_bucket_get = with_status (bucket_get cloud allowed r.bucket_name)
  serve_object route_bucket_delete = with_status (bucket_delete cloud allowed r.bucket_name)
  serve_object route_object_put = handle_object_put
  serve_object route_object_delete = handle_object_delete
  serve_object route_object_get =
      with_status (object_get cloud r.bucket_name r.object_key (r.header_parameter (codes "Range")))
