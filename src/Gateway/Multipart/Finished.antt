-- ===== src/Gateway/Multipart/Finished.antt =====
-- api/pkg/s3/completemultipartupload.go: the metadata after an upload has been completed.
use multi_cloud.Common.{not, Text, codes, text_eq, Option, none, some, ◌≡◌, ◌∙◌, refl, ap, arith}
use multi_cloud.Common.Actions.{done, tried}
use multi_cloud.Common.Promises.{bind-Ensures, panic-Ensures, done-injective}
use multi_cloud.Backend.Types.{BackendDetail}
use multi_cloud.S3.Types.{Object}
use multi_cloud.S3.Service.{is_listed}
use multi_cloud.Gateway.Routes.{entity}
use multi_cloud.Gateway.Objects.{Cloud, get_backend_by_name}
use multi_cloud.Gateway.Objects.Laws.{CloudLaws, tried-Ensures, no_entity-Ensures}
use multi_cloud.Gateway.Multipart.Laws.{
  UploadLaws, At, get_object-At, by_name-At, create_object-At, Leaves, after_create-Leaves,
}
use multi_cloud.Gateway.Multipart.{
  Upload, Uploads, completed, after_complete, complete_to, complete_of, complete_multipart_upload,
}

module _ {W : Type 0} (cloud : Cloud W) (laws : CloudLaws cloud) (uploads : Uploads W)
    (more : UploadLaws laws uploads) (upload : Upload) where
  -- The metadata of the upload.
  abbrev Holds : Object → W → Type 0
  Holds = At cloud laws upload.bucket upload.key

  module _ (o : Object) (in_bucket : o.bucket_name ≡ upload.bucket)
      (at_key : o.object_key ≡ upload.key) where
    -- The metadata are those of a completed upload.
    abbrev Completed : W → Type 0
    Completed w = (time : Text) × Holds (completed time o) w

    after_complete-Leaves :
        (r : Option Text)
        → Leaves cloud laws upload.bucket upload.key
            (λ w. (resp : Text) → r ≡ some resp → Holds o w)
            (after_complete cloud uploads o r)
            Completed
    unfolding after_complete
    after_complete-Leaves none = record {
      ensure = λ w w' answer h p a e. absurd (ground (arith, done-injective h ∙ e));
    }
    after_complete-Leaves (some resp) = record {
      ensure = λ w w' answer h at a e.
          let p = completed (uploads.time w) o in
          (
            uploads.time w,
            (bind-Ensures (tried (cloud.create_object p)) _
                  (create_object-At cloud laws upload.bucket upload.key {P = Holds o} p in_bucket
                    at_key)
                  (λ r. after_create-Leaves cloud laws upload.bucket upload.key p resp r)).ensure
                w w' answer h (at resp refl) a e,
          );
    }

    complete_to-Leaves :
        (body : Text) (c : Option BackendDetail)
        → Leaves cloud laws upload.bucket upload.key
            (λ w. (s : BackendDetail) → c ≡ some s → Holds o w)
            (complete_to cloud uploads upload body o c)
            Completed
    unfolding complete_to
    complete_to-Leaves body none = no_entity-Ensures 500
    complete_to-Leaves body (some store) =
        bind-Ensures (tried (uploads.complete_multipart_upload store upload body)) _
          (tried-Ensures (uploads.complete_multipart_upload store upload body) (record {
            ensure = λ w w' resp h at.
                ap (λ m. m upload.bucket upload.key)
                  (more.complete_law store upload body resp w w' h)
                ∙ at store refl;
          }))
          (λ r. after_complete-Leaves r)

    complete_found :
        (body : Text) (r : Option Object)
        → Leaves cloud laws upload.bucket upload.key
            (λ w. (p : Object) → r ≡ some p → Holds o w × (o ≡ p))
            (complete_of cloud uploads upload body r)
            Completed
    unfolding complete_of
    complete_found body none = panic-Ensures
    complete_found body (some p) = record {
      ensure = λ w w' answer h at.
          let (at_o, same) = at p refl in
          (bind-Ensures (get_backend_by_name cloud o.backend) _
              (by_name-At cloud laws upload.bucket upload.key o o.backend)
              (λ c. complete_to-Leaves body c)).ensure
            w w' answer (ap (λ q. complete_of cloud uploads upload body (some q) w) same ∙ h) at_o;
    }

  -- If the services and the stores keep their promises, then after an upload has been completed without
  -- an error the metadata have the size that they had before, and a listing has the object unless it is
  -- marked as deleted.
  pub complete_multipart_upload-is_listed :
      (o : Object) (body resp : Text) (w w' : W)
      → o.bucket_name ≡ upload.bucket
      → o.object_key ≡ upload.key
      → (laws.view w).meta upload.bucket upload.key ≡ some o
      → complete_multipart_upload cloud uploads upload body w ≡ (w', done (entity resp))
      → (p : Object) × ((laws.view w').meta upload.bucket upload.key ≡ some p)
        × (p.size ≡ o.size)
        × (is_listed p ≡ not (text_eq o.is_delete_marker (codes "1")))
  unfolding complete_multipart_upload is_listed
  complete_multipart_upload-is_listed o body resp w w' in_bucket at_key at h =
      let (time, at_p) =
        (bind-Ensures (tried (cloud.get_object upload.bucket upload.key)) _
            (get_object-At cloud laws upload.bucket upload.key o)
            (λ r. complete_found o in_bucket at_key body r)).ensure
          w w' (entity resp) h at resp refl in
      (completed time o, at_p, refl, refl)
