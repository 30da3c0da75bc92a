-- ===== src/Backend/Service.antt =====
-- backend/pkg/service/service.go: the handlers of the service.
use multi_cloud.Common.{
  ℕ, ◌+◌, ◌-◌, ltb, Text, codes, text_eq, List, [], ◌∷◌, map, length, take, drop, Option, none,
  some, if◌then◌else◌,
}
use multi_cloud.Common.Actions.{Result, done, failed, panicked, Act, return, fail, ◌>>=◌}
use multi_cloud.Common.Int.{ℤ, pos, negsuc, page_error, to_int, wrap32}
use multi_cloud.Policy.Check.{TextMap, lookup}
use multi_cloud.Backend.Types.{Backend, BackendDetail, TypeDetail}
use multi_cloud.Backend.Driver.{
  Collection, repo_create_backend, repo_delete_backend, repo_update_backend, repo_get_backend,
  repo_list_backend,
}

-- The backend of a request to create one, which has no id yet.
abbrev pub of_request : BackendDetail → Backend
of_request d = record {
  id = [];
  tenant_id = d.tenant_id;
  user_id = d.user_id;
  name = d.name;
  type = d.type;
  region = d.region;
  endpoint = d.endpoint;
  bucket_name = d.bucket_name;
  access = d.access;
  security = d.security;
}

-- The answer that is made of a stored backend.
abbrev pub detail_of : Backend → BackendDetail
detail_of b = record {
  id = b.id;
  tenant_id = b.tenant_id;
  user_id = b.user_id;
  name = b.name;
  type = b.type;
  region = b.region;
  endpoint = b.endpoint;
  bucket_name = b.bucket_name;
  access = b.access;
  security = b.security;
}

unfoldable pub all_types : List TypeDetail
all_types =
    (record { name = codes "aws-s3"; description = codes "AWS Simple Cloud Storage Service(S3)" })
    ∷ (record { name = codes "hw-obs"; description = codes "Huawei Object Storage Service(OBS)" })
    ∷ (record { name = codes "azure-blob"; description = codes "Azure Blob Storage" })
    ∷ (record { name = codes "ceph-s3"; description = codes "Ceph Object Storage" })
    ∷ (record {
      name = codes "fusionstorage-object";
      description = codes "Huawei Fusionstorage Object Storage";
    })
    ∷ []

unfoldable pub types_named : Text → List TypeDetail → List TypeDetail
types_named name [] = []
types_named name (t ∷ ts) =
    let rest = types_named name ts in if text_eq t.name name then t ∷ rest else rest

unfoldable pub filtered_types : Option Text → List TypeDetail
unfolding types_named all_types
filtered_types none = all_types
filtered_types (some name) = types_named name all_types

-- `end`, for a limit that is not negative.
unfoldable pub page_end : ℕ → ℕ → ℕ → ℕ
page_end size start limit = if ltb size (start + limit) then size else start + limit

-- The page of the types, and the offset of the next one: `types[start:end]` is out of range for a
-- negative start, and for an end before the start.
unfoldable pub type_page : List TypeDetail → ℤ → ℤ → Result (List TypeDetail × ℤ)
unfolding page_end wrap32
type_page types limit (negsuc o) = panicked
type_page types (pos l) (pos o) =
    if ltb (length types) o
    then failed (codes "offset exceeds the max type length")
    else (let page = take (page_end (length types) o l - o) (drop o types) in
        done (page, wrap32 (o + length page)))
type_page types (negsuc l) (pos o) =
    if ltb (length types) o then failed (codes "offset exceeds the max type length") else panicked

unfoldable pub list_type : TextMap Text → ℤ → ℤ → Result (List TypeDetail × ℤ)
unfolding type_page filtered_types
list_type filter limit offset =
    type_page (filtered_types (lookup (codes "name") filter)) limit offset

module _ {W : Type 0} (db : Collection W) where
  unfoldable pub create_backend : BackendDetail → Act W BackendDetail
  unfolding repo_create_backend ◌>>=◌
  create_backend d = repo_create_backend db (of_request d) >>= λ res. return (detail_of res)

  unfoldable pub get_backend : Text → Act W BackendDetail
  unfolding repo_get_backend ◌>>=◌
  get_backend id = repo_get_backend db id >>= λ res. return (detail_of res)

  unfoldable pub list_backend : TextMap Text → ℤ → ℤ → Act W (List BackendDetail × ℤ)
  unfolding page_error to_int wrap32 repo_list_backend ◌>>=◌
  list_backend filter limit offset =
      if page_error limit offset then fail (codes "Invalid pagination parameter") else (do
        res ← repo_list_backend db (to_int limit) (to_int offset) filter
        return (map detail_of res, wrap32 (to_int offset + length res)))

  unfoldable pub update_backend : Text → Text → Text → Act W BackendDetail
  unfolding repo_get_backend repo_update_backend ◌>>=◌
  update_backend id access security = do
    backend ← repo_get_backend db id
    res ← repo_update_backend db (record backend { access = access; security = security })
    return (detail_of res)

  unfoldable pub delete_backend : Text → Act W (Unit {0})
  unfolding repo_delete_backend
  delete_backend id = repo_delete_backend db id
