-- ===== src/Gateway/Multipart/Begun.antt =====
-- api/pkg/s3/multipartuploadinit.go: the metadata of an upload that has been begun.
use multi_cloud.Common.{Text, codes, is_empty, [], Option, none, some, ◌≡◌, ◌∙◌, refl, arith}
use multi_cloud.Common.Actions.{Act, tried}
use multi_cloud.Common.Promises.{
  Ensures, any-Ensures, if-Ensures, bind-Ensures, panic-Ensures, done-injective,
}
use multi_cloud.Backend.Types.{BackendDetail}
use multi_cloud.S3.Types.{Bucket, Object}
use multi_cloud.Gateway.Routes.{Answer, entity}
use multi_cloud.Gateway.Objects.{Cloud, uploaded, get_backend_by_name, get_backend_client}
use multi_cloud.Gateway.Objects.Laws.{CloudLaws, no_entity-Ensures}
use multi_cloud.Gateway.Multipart.{
  Upload, Uploads, begun, begin_over, after_init, init_to, init_in, multi_part_upload_init,
}
use multi_cloud.Gateway.Multipart.Laws.{UploadLaws, At, create_object-At, after_create-Leaves}

-- An upload without a part, that is not complete and not marked as deleted.
pub record IsFresh (bucket key : Text) (o : Object) : Type 0 where
  pub in_bucket : o.bucket_name ≡ bucket
  pub at_key : o.object_key ≡ key
  pub no_size : o.size ≡ 0
  pub no_parts : o.partions ≡ []
  pub unfinished : o.init_flag ≡ codes "0"
  pub unmarked : o.is_delete_marker ≡ []

begun-IsFresh :
    (bucket key backend time : Text) (o : Option Object)
    → IsFresh bucket key (begun bucket key backend time o)
begun-IsFresh bucket key backend time none = record {
  in_bucket = refl;
  at_key = refl;
  no_size = refl;
  no_parts = refl;
  unfinished = refl;
  unmarked = refl;
}
begun-IsFresh bucket key backend time (some o) = record {
  in_bucket = refl;
  at_key = refl;
  no_size = refl;
  no_parts = refl;
  unfinished = refl;
  unmarked = refl;
}

module _ {W : Type 0} (cloud : Cloud W) (laws : CloudLaws cloud) (uploads : Uploads W)
    (more : UploadLaws laws uploads) (bucket key : Text) where
  -- The metadata of the object are fresh.
  abbrev pub Began : W → Type 0
  Began w = (p : Object) × At cloud laws bucket key p w × IsFresh bucket key p

  abbrev Begins : Act W (Answer Upload) → Type 0
  Begins act = Ensures (λ w. Unit {0}) act (λ answer w. (u : Upload) → answer ≡ entity u → Began w)

  begin_over-Begins :
      (backend time : Text) (upload : Upload) (o : Option Object)
      → Begins (begin_over cloud uploads bucket key backend upload time o)
  unfolding begin_over
  begin_over-Begins backend time upload o =
      let p = begun bucket key backend time o in
      let fresh = begun-IsFresh bucket key backend time o in
      bind-Ensures (tried (cloud.create_object p)) _
        (create_object-At cloud laws bucket key p fresh.in_bucket fresh.at_key)
        (λ r. record {
          ensure = λ w w' answer h at u e. (
            p,
            (after_create-Leaves cloud laws bucket key p upload r).ensure w w' answer h at u e,
            fresh,
          );
        })

  after_init-Begins :
      (backend : Text) (r : Option Upload) → Begins (after_init cloud uploads bucket key backend r)
  unfolding after_init
  after_init-Begins backend none = record {
    ensure = λ w w' answer h p u e. absurd (ground (arith, done-injective h ∙ e));
  }
  after_init-Begins backend (some upload) = record {
    ensure = λ w w' answer h p u e.
        (bind-Ensures {P = λ v. Unit {0}} (tried (cloud.get_object bucket key)) _ any-Ensures
            (λ o. begin_over-Begins backend (uploads.time w) upload o)).ensure
          w w' answer h tt u e;
  }

  init_to-Begins :
      (backend : Text) (c : Option BackendDetail)
      → Begins (init_to cloud uploads bucket key backend c)
  unfolding init_to
  init_to-Begins backend none = no_entity-Ensures 500
  init_to-Begins backend (some store) =
      bind-Ensures (tried (uploads.init_multipart_upload store (uploaded bucket key backend 0))) _
        any-Ensures (λ r. after_init-Begins backend r)

  init_in-Begins : (b : Option Bucket) → Begins (init_in cloud uploads bucket key b)
  unfolding init_in
  init_in-Begins none = panic-Ensures
  init_in-Begins (some b) =
      bind-Ensures (get_backend_client cloud bucket) _ any-Ensures (λ c. init_to-Begins b.backend c)

  pub multi_part_upload_init-Begins :
      (backend_name : Text) → Begins (multi_part_upload_init cloud uploads bucket key backend_name)
  unfolding multi_part_upload_init
  multi_part_upload_init-Begins backend_name =
      if-Ensures (is_empty backend_name)
        (λ _. bind-Ensures (tried (cloud.get_bucket bucket)) _ any-Ensures (λ b. init_in-Begins b))
        (λ _.
          bind-Ensures (get_backend_by_name cloud backend_name) _ any-Ensures
            (λ c. init_to-Begins backend_name c))
