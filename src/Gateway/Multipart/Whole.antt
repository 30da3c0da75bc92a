-- ===== src/Gateway/Multipart/Whole.antt =====
-- api/pkg/s3: an upload in parts as a whole, from its beginning over its parts to its completion.
use mathlib.Core.Path.{subst}
use multi_cloud.Common.{
  ℕ, ◌+◌, true, false, Text, codes, List, [], ◌∷◌, some, ◌≡◌, ◌∙◌, refl, ap, arith,
}
use multi_cloud.Common.Actions.{done}
use multi_cloud.S3.Types.{Object}
use multi_cloud.S3.Service.{is_listed}
use multi_cloud.Gateway.Routes.{entity}
use multi_cloud.Gateway.Objects.{Cloud, int_value, size_of}
use multi_cloud.Gateway.Objects.Laws.{CloudLaws}
use multi_cloud.Gateway.Multipart.{
  Upload, Uploads, with_part, multi_part_upload_init, upload_part, complete_multipart_upload,
}
use multi_cloud.Gateway.Multipart.Laws.{UploadLaws, At}
use multi_cloud.Gateway.Multipart.Begun.{IsFresh, multi_part_upload_init-Begins}
use multi_cloud.Gateway.Multipart.Sized.{upload_part-Leaves}
use multi_cloud.Gateway.Multipart.Finished.{complete_multipart_upload-is_listed}

-- A request to upload a part.
pub record PartRequest : Type 0 where
  pub part_number : Text
  pub content_length : Text
  pub body : Text

-- The sizes of the parts together.
abbrev pub sizes : List PartRequest → ℕ
sizes [] = 0
sizes (p ∷ ps) = size_of (int_value p.content_length) + sizes ps

-- The parts are sent one after the other, and each is answered without an error.
pub data Sends {W : Type 0} (cloud : Cloud W) (uploads : Uploads W) (upload : Upload)
    : List PartRequest → W → W → Type 0 where
  none_left : {w : W} → Sends cloud uploads upload [] w w
  one_more :
      {p : PartRequest} {ps : List PartRequest} {etag : Text} {w w1 w' : W}
      → upload_part cloud uploads upload p.part_number p.content_length p.body w
        ≡ (w1, done (entity etag))
      → Sends cloud uploads upload ps w1 w'
      → Sends cloud uploads upload (p ∷ ps) w w'

-- The metadata of an upload that goes on.
record IsPending (bucket key : Text) (size : ℕ) (o : Object) : Type 0 where
  in_bucket : o.bucket_name ≡ bucket
  at_key : o.object_key ≡ key
  of_size : o.size ≡ size
  unfinished : o.init_flag ≡ codes "0"
  unmarked : o.is_delete_marker ≡ []

with_part-IsPending :
    {bucket key : Text} {n : ℕ} {o : Object} (k number time : Text) (size now : ℕ)
    → IsPending bucket key n o
    → IsPending bucket key (n + size) (with_part k number size time now o)
with_part-IsPending k number time size now h = record {
  in_bucket = h.in_bucket;
  at_key = h.at_key;
  of_size = ap (λ n. n + size) h.of_size;
  unfinished = h.unfinished;
  unmarked = h.unmarked;
}

IsFresh-IsPending :
    {bucket key : Text} {o : Object} → IsFresh bucket key o → IsPending bucket key 0 o
IsFresh-IsPending h = record {
  in_bucket = h.in_bucket;
  at_key = h.at_key;
  of_size = h.no_size;
  unfinished = h.unfinished;
  unmarked = h.unmarked;
}

IsPending-is_listed :
    {bucket key : Text} {n : ℕ} (o : Object) → IsPending bucket key n o → is_listed o ≡ false
unfolding is_listed
IsPending-is_listed o h = rw h.unfinished refl

module _ {W : Type 0} (cloud : Cloud W) (laws : CloudLaws cloud) (uploads : Uploads W)
    (more : UploadLaws laws uploads) where
  module _ (upload : Upload) where
    Sends-IsPending :
        (n : ℕ) (o : Object) (ps : List PartRequest) {w w' : W}
        → IsPending upload.bucket upload.key n o
        → At cloud laws upload.bucket upload.key o w
        → Sends cloud uploads upload ps w w'
        → (p : Object) × At cloud laws upload.bucket upload.key p w'
          × IsPending upload.bucket upload.key (n + sizes ps) p
    Sends-IsPending n o [] pending at none_left =
        (o, at, subst (λ m. IsPending upload.bucket upload.key m o) (omega arith) pending)
    Sends-IsPending n o (r ∷ ps) pending at (one_more {etag = etag} {w = w} {w1 = w1} h rest) =
        let size = size_of (int_value r.content_length) in
        let (time, now, at_p) =
          (upload_part-Leaves cloud laws uploads more upload o pending.in_bucket pending.at_key
              r.part_number r.content_length r.body).ensure
            w w1 (entity etag) h at etag refl in
        let (q, at_q, still) =
          Sends-IsPending (n + size) (with_part upload.key r.part_number size time now o) ps
            (with_part-IsPending upload.key r.part_number time size now pending) at_p rest in
        (q, at_q, subst (λ m. IsPending upload.bucket upload.key m q) (omega arith) still)

  -- If the services keep their promises and the stores leave the metadata alone, and an upload is begun,
  -- all its parts are taken one after the other, and it is completed, each without an error and by
  -- requests for the bucket and the key with the id of the upload that was answered, then a listing does
  -- not have the object before the completion, and has it after, with the sizes of the parts together as
  -- its size. The bucket and the key in the answer of the beginning make no difference.
  pub complete_multipart_upload-Sends :
      (bucket key backend body resp : Text) (answered : Upload) (ps : List PartRequest)
      (w w1 w2 w3 : W)
      → multi_part_upload_init cloud uploads bucket key backend w ≡ (w1, done (entity answered))
      → Sends cloud uploads (record answered { bucket = bucket; key = key }) ps w1 w2
      → complete_multipart_upload cloud uploads
          (record answered { bucket = bucket; key = key })
          body
          w2
        ≡ (w3, done (entity resp))
      → ((p : Object) × ((laws.view w2).meta bucket key ≡ some p) × (is_listed p ≡ false))
        × ((q : Object) × ((laws.view w3).meta bucket key ≡ some q)
            × (is_listed q ≡ true)
            × (q.size ≡ sizes ps))
  complete_multipart_upload-Sends bucket key backend body resp answered ps w w1 w2 w3 begins sends
        ends =
      let upload : Upload = record answered { bucket = bucket; key = key } in
      let (o, at_o, fresh) =
        (multi_part_upload_init-Begins cloud laws uploads more bucket key backend).ensure w w1
          (entity answered) begins tt answered refl in
      let (p, at_p, pending) = Sends-IsPending upload 0 o ps (IsFresh-IsPending fresh) at_o sends in
      let (q, at_q, same_size, listed) =
        complete_multipart_upload-is_listed cloud laws uploads more upload p body resp w2 w3
          pending.in_bucket pending.at_key at_p ends in
      (
        (p, at_p, IsPending-is_listed p pending),
        (q, at_q, listed ∙ rw pending.unmarked refl, same_size ∙ omega (arith, pending.of_size)),
      )
