-- ===== src/Gateway/Objects/Tests.antt =====
-- api/pkg/s3: an upload and a download with one bucket, one backend and its store.
use multi_cloud.Common.{◌≡◌, refl, Bool, true, Text, codes, [], none}
use multi_cloud.Common.Actions.{done, Act, tried, ◌>>=◌}
use multi_cloud.Gateway.Routes.{entity, authorized, reply}
use multi_cloud.Gateway.Objects.{
  uploaded, object_put, object_get, put_object, put_in, get_backend_client, store_of_bucket,
  get_backend_by_name, first_store, put_to, after_put, size_of, int_value, range_of, get_found,
  get_from,
}
use multi_cloud.Gateway.Objects.Placed.{WasPut}
use multi_cloud.Gateway.Objects.Arrives.{Gave, object_put-object_get}
use multi_cloud.Backend.Types.{BackendDetail}
use multi_cloud.Gateway.Objects.Disk.{with_kept, Disk, disk, disk_laws}

abbrev everyone : Text → Act Disk Bool
everyone action w = (w, done true)

abbrev empty_disk : Disk
empty_disk = ((λ b k. none), (λ b k. none))

abbrev sent : Disk
sent = (
  with_kept (codes "near") (codes "k") (uploaded (codes "near") (codes "k") (codes "aws") 2)
      (λ b k. none),
  with_kept (codes "near") (codes "k") (codes "hi") (λ b k. none),
)

uploads :
    object_put disk everyone (codes "near") (codes "k") (codes "2") [] (codes "hi") empty_disk
    ≡ (sent, done (entity tt))
unfolding object_put authorized put_object tried put_in get_backend_client store_of_bucket
    get_backend_by_name first_store put_to after_put reply size_of int_value
uploads = refl

downloads : object_get disk (codes "near") (codes "k") [] sent ≡ (sent, done (entity (codes "hi")))
unfolding object_get ◌>>=◌ range_of tried get_found get_backend_by_name first_store get_from reply
downloads = refl

hi_arrives :
    (s : BackendDetail) × WasPut (codes "near") (codes "k") (codes "hi") disk s
    × Gave (codes "near") (codes "k") (codes "hi") disk disk_laws s (codes "hi") sent
hi_arrives =
    object_put-object_get disk disk_laws everyone (codes "near") (codes "k") (codes "2") []
      (codes "hi") (codes "hi") empty_disk sent sent uploads downloads
