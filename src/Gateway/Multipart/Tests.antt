-- ===== src/Gateway/Multipart/Tests.antt =====
-- api/pkg/s3: an upload of one part, from its beginning to its completion.
use multi_cloud.Common.{◌≡◌, refl, ap, sym, true, false, codes, [], ◌∷◌, some, none}
use multi_cloud.Common.Actions.{done, fail, tried, ◌>>=◌}
use multi_cloud.S3.Types.{Object}
use multi_cloud.S3.Service.{is_listed}
use multi_cloud.Gateway.Routes.{entity}
use multi_cloud.Gateway.Objects.{uploaded, int_value, size_of, get_backend_by_name, first_store}
use multi_cloud.Gateway.Objects.Disk.{with_kept, Disk, disk, disk_laws}
use multi_cloud.Gateway.Multipart.{
  Upload, Uploads, with_part, completed, upload_part, complete_multipart_upload, part_of, part_to,
  after_part, store_part, read_back, after_create, complete_of, complete_to, after_complete,
  multi_part_upload_init, init_to, after_init, begin_over,
}
use multi_cloud.Gateway.Multipart.Laws.{UploadLaws}
use multi_cloud.Gateway.Multipart.Whole.{
  PartRequest, sizes, none_left, one_more, complete_multipart_upload-Sends,
}

abbrev pub parts : Uploads Disk
parts = record {
  init_multipart_upload = λ s o w.
      (w, done (record { bucket = codes "far"; key = codes "near/k"; upload_id = codes "u1" }));
  upload_part = λ s u n body w. (w, done (codes "etag"));
  complete_multipart_upload = λ s u body w. (w, done (codes "whole"));
  abort_multipart_upload = λ s u. fail [];
  time = λ w. codes "now";
}

abbrev parts_laws : UploadLaws disk_laws parts
parts_laws = record {
  part_law = λ s u n body etag w w' e. ap (λ p. p.0.0) (sym e);
  complete_law = λ s u body resp w w' e. ap (λ p. p.0.0) (sym e);
}

abbrev first_part : PartRequest
first_part = record { part_number = codes "1"; content_length = codes "5"; body = codes "hello" }

abbrev upload : Upload
upload = record { bucket = codes "near"; key = codes "k"; upload_id = codes "u1" }

-- A store may answer with names of its own.
abbrev answered : Upload
answered = record { bucket = codes "far"; key = codes "near/k"; upload_id = codes "u1" }

abbrev first_begun : Object
first_begun = record (uploaded (codes "near") (codes "k") (codes "aws") 0) {
  last_modified = codes "now";
  init_flag = codes "0";
}

abbrev one_part : Object
one_part = with_part (codes "k") (codes "1") 5 (codes "now") 0 first_begun

abbrev pub empty : Disk
empty = ((λ b k. none), (λ b k. none))

abbrev pub before : Disk
before = (with_kept (codes "near") (codes "k") first_begun empty.0, empty.1)

begins :
    multi_part_upload_init disk parts (codes "near") (codes "k") (codes "aws") empty
    ≡ (before, done (entity answered))
unfolding multi_part_upload_init ◌>>=◌ tried get_backend_by_name first_store init_to after_init
    begin_over after_create
begins = refl

abbrev after : Disk
after = (with_kept (codes "near") (codes "k") one_part before.0, (λ b k. none))

takes_part :
    upload_part disk parts upload (codes "1") (codes "5") (codes "hello") before
    ≡ (after, done (entity (codes "etag")))
unfolding upload_part ◌>>=◌ tried part_of get_backend_by_name first_store part_to after_part
    store_part read_back after_create size_of int_value
takes_part = refl

abbrev ended : Disk
ended =
    (with_kept (codes "near") (codes "k") (completed (codes "now") one_part) after.0, (λ b k. none))

completes :
    complete_multipart_upload disk parts upload (codes "xml") after
    ≡ (ended, done (entity (codes "whole")))
unfolding complete_multipart_upload ◌>>=◌ tried complete_of get_backend_by_name first_store
    complete_to after_complete after_create
completes = refl

listed_at_last :
    ((p : Object) × (after.0 (codes "near") (codes "k") ≡ some p) × (is_listed p ≡ false))
    × ((q : Object) × (ended.0 (codes "near") (codes "k") ≡ some q)
        × (is_listed q ≡ true)
        × (q.size ≡ sizes (first_part ∷ [])))
listed_at_last =
    complete_multipart_upload-Sends disk disk_laws parts parts_laws (codes "near") (codes "k")
      (codes "aws") (codes "xml") (codes "whole") answered (first_part ∷ []) empty before after
      ended begins (one_more takes_part none_left) completes
