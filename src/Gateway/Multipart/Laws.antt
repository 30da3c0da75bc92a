-- ===== src/Gateway/Multipart/Laws.antt =====
-- api/pkg/s3: what the stores promise of uploads in parts, and what a call that is answered leaves as the
-- metadata of an object.
use multi_cloud.Common.{Text, Option, none, some, some_cancel, ◌≡◌, ◌∙◌, refl, sym, ap}
use multi_cloud.Common.Actions.{done, Act, tried}
use multi_cloud.Common.Promises.{Ensures, return-Ensures}
use multi_cloud.Backend.Types.{BackendDetail}
use multi_cloud.S3.Types.{Object}
use multi_cloud.Gateway.Routes.{Answer, entity}
use multi_cloud.Gateway.Objects.{Cloud, get_backend_by_name, int_value}
use multi_cloud.Gateway.Objects.Laws.{CloudLaws, tried-Ensures, no_entity-Ensures}
use multi_cloud.Gateway.Objects.Stores.{get_backend_by_name-Found}
use multi_cloud.Gateway.Multipart.{Upload, Uploads, after_create}

-- What the stores promise on top: the parts of an upload and its completion leave the metadata alone.
pub record UploadLaws {W : Type 0} {cloud : Cloud W} (laws : CloudLaws cloud) (uploads : Uploads W)
    : Type 0 where
  pub part_law :
      (store : BackendDetail) (upload : Upload) (n : Text) (body etag : Text) (w w' : W)
      → uploads.upload_part store upload (int_value n) body w ≡ (w', done etag)
      → (laws.view w').meta ≡ (laws.view w).meta
  pub complete_law :
      (store : BackendDetail) (upload : Upload) (body resp : Text) (w w' : W)
      → uploads.complete_multipart_upload store upload body w ≡ (w', done resp)
      → (laws.view w').meta ≡ (laws.view w).meta

module _ {W : Type 0} (cloud : Cloud W) (laws : CloudLaws cloud) (bucket key : Text) where
  -- The metadata of the object.
  abbrev pub At : Object → W → Type 0
  At o w = (laws.view w).meta bucket key ≡ some o

  pub get_object-At :
      (o : Object)
      → Ensures
          (At o)
          (tried (cloud.get_object bucket key))
          (λ r w. (p : Object) → r ≡ some p → At o w × (o ≡ p))
  get_object-At o = tried-Ensures (cloud.get_object bucket key) (record {
    ensure = λ w w' p h at.
        let (at_p, same) = laws.object_law bucket key p w w' h in
        (ap (λ u. u.meta bucket key) same ∙ at, some_cancel (sym at ∙ at_p));
  })

  pub by_name-At :
      (o : Object) (name : Text)
      → Ensures
          (At o)
          (get_backend_by_name cloud name)
          (λ c w. (s : BackendDetail) → c ≡ some s → At o w)
  by_name-At o name = record {
    ensure = λ w w' c h at s e.
        let (same, chosen) =
          (get_backend_by_name-Found cloud laws (laws.view w) name).ensure w w' c h refl s e in
        ap (λ u. u.meta bucket key) same ∙ at;
  }

  pub create_object-At :
      {P : W → Type 0} (p : Object)
      → p.bucket_name ≡ bucket
      → p.object_key ≡ key
      → Ensures P (tried (cloud.create_object p)) (λ r w. (u : Unit {0}) → r ≡ some u → At p w)
  create_object-At {P} p its_bucket its_key = tried-Ensures (cloud.create_object p) (record {
    ensure = λ w w' u h _.
        (λ i. (laws.view w').meta (sym its_bucket i) (sym its_key i))
        ∙ (laws.create_law p w w' h).0;
  })

  -- If the call is answered with an entity, the metadata are these.
  abbrev pub Leaves : {A : Type 0} → (W → Type 0) → Act W (Answer A) → (W → Type 0) → Type 0
  Leaves {A} P act Q = Ensures P act (λ answer w. (a : A) → answer ≡ entity a → Q w)

  pub after_create-Leaves :
      {A : Type 0} (p : Object) (a : A) (r : Option (Unit {0}))
      → Leaves (λ w. (u : Unit {0}) → r ≡ some u → At p w) (after_create a r) (At p)
  unfolding after_create
  after_create-Leaves p a none = no_entity-Ensures 500
  after_create-Leaves p a (some u) = return-Ensures (λ w at b e. at u refl)
