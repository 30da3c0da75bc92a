-- ===== src/Gateway/Multipart/Routed.antt =====
-- api/pkg/s3/routeobjectput.go, for the tests: a request to begin an upload, under a policy that permits
-- everything and one that permits nothing.
use multi_cloud.Common.{
  Bool, true, false, ◌≡◌, refl, Text, codes, [], ◌∷◌, some, none, text_eq, if◌then◌else◌,
}
use multi_cloud.Common.Actions.{done, Act, ◌>>=◌, tried}
use multi_cloud.Policy.Check.{lookup}
use multi_cloud.Gateway.Objects.{get_backend_by_name, first_store}
use multi_cloud.Gateway.Objects.Disk.{Disk, disk}
use multi_cloud.Gateway.Objects.Router.{ObjectRequest, route_object_put, serve_object}
use multi_cloud.Gateway.Objects.Asking.{AskedFirst, serve_object-AskedFirst}
use multi_cloud.Gateway.Multipart.{
  multi_part_upload_init, init_to, after_init, begin_over, after_create,
}
use multi_cloud.Gateway.Multipart.Tests.{parts, empty, before}

abbrev always : Bool → Text → Act Disk Bool
always b action w = (w, done b)

-- PUT /near/k?uploads
abbrev begin_request : ObjectRequest
begin_request = record {
  bucket_name = codes "near";
  object_key = codes "k";
  params = (codes "uploads", [] ∷ []) ∷ [];
  query_parameter = λ name. [];
  header_parameter = λ name. if text_eq name (codes "x-amz-storage-class") then codes "aws" else [];
  body = [];
  read_all = some [];
}

begins_put :
    serve_object (always true) disk parts (λ b. none) begin_request route_object_put empty
    ≡ (before, done 200)
unfolding serve_object multi_part_upload_init ◌>>=◌ tried get_backend_by_name first_store init_to
    after_init begin_over after_create lookup
begins_put = refl

refused_put :
    serve_object (always false) disk parts (λ b. none) begin_request route_object_put empty
    ≡ (empty, done 403)
unfolding serve_object
refused_put = refl

asked_to_begin : AskedFirst (always false) (codes "routobject:put") empty empty 403
asked_to_begin =
    serve_object-AskedFirst disk parts (λ b. none) begin_request (always false) route_object_put
      empty empty 403 refl refused_put
