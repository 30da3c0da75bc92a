-- ===== src/Gateway/Objects/Stores.antt =====
-- api/pkg/s3/service.go: the store that a request is sent to.
use multi_cloud.Common.{Text, List, [], ◌∷◌, Option, none, some, ◌≡◌, ◌∙◌, refl, sym, ap, arith}
use multi_cloud.Common.Actions.{tried}
use multi_cloud.Common.Promises.{Ensures, bind-Ensures, return-Ensures, panic-Ensures}
use multi_cloud.Backend.Types.{BackendDetail}
use multi_cloud.S3.Types.{Bucket}
use multi_cloud.Gateway.Objects.{
  Cloud, first_store, get_backend_by_name, store_of_bucket, get_backend_client,
}
use multi_cloud.Gateway.Objects.Laws.{Holdings, CloudLaws, first_of, Chosen, tried-Ensures}

module _ {W : Type 0} (cloud : Cloud W) (laws : CloudLaws cloud) where
  -- A store that a call has found, for the backend of the name.
  abbrev pub Found : Holdings → Text → Option BackendDetail → W → Type 0
  Found v name client w =
      (store : BackendDetail) → client ≡ some store → (laws.view w ≡ v) × Chosen v name store

  named-Ensures :
      (v : Holdings) (name : Text)
      → Ensures
          (λ w. laws.view w ≡ v)
          (cloud.backends_named name)
          (λ bs w. (laws.view w ≡ v) × (v.named name ≡ bs))
  named-Ensures v name = record {
    ensure = λ w w' bs h same.
        let (is_named, kept) = laws.named_law name bs w w' h in
        (kept ∙ same, ap (λ u. u.named name) (sym same) ∙ is_named);
  }

  first_store-Found :
      (v : Holdings) (name : Text) (o : Option (List BackendDetail))
      → Ensures
          (λ w. (bs : List BackendDetail) → o ≡ some bs → (laws.view w ≡ v) × (v.named name ≡ bs))
          (first_store o)
          (Found v name)
  unfolding first_store
  first_store-Found v name none = return-Ensures (λ w p store h. ground (arith, h))
  first_store-Found v name (some []) = panic-Ensures
  first_store-Found v name (some (b ∷ bs)) =
      return-Ensures
        (λ w p store h. let (same, is_named) = p (b ∷ bs) refl in (same, ap first_of is_named ∙ h))

  pub get_backend_by_name-Found :
      (v : Holdings) (name : Text)
      → Ensures (λ w. laws.view w ≡ v) (get_backend_by_name cloud name) (Found v name)
  unfolding get_backend_by_name
  get_backend_by_name-Found v name =
      bind-Ensures (tried (cloud.backends_named name)) _
        (tried-Ensures (cloud.backends_named name) (named-Ensures v name))
        (λ o. first_store-Found v name o)

  abbrev pub Bucketed : Holdings → Text → Option Bucket → W → Type 0
  Bucketed v name o w = (b : Bucket) → o ≡ some b → (laws.view w ≡ v) × (v.buckets name ≡ some b)

  pub tried_bucket :
      (v : Holdings) (name : Text)
      → Ensures (λ w. laws.view w ≡ v) (tried (cloud.get_bucket name)) (Bucketed v name)
  tried_bucket v name = tried-Ensures (cloud.get_bucket name) (record {
    ensure = λ w w' b h same.
        let (at, kept) = laws.bucket_law name b w w' h in
        (kept ∙ same, ap (λ u. u.buckets name) (sym same) ∙ at);
  })

  -- A store that a call has found, for the backend that the bucket names.
  abbrev pub FoundIn : Holdings → Text → Option BackendDetail → W → Type 0
  FoundIn v bucket client w =
      (store : BackendDetail)
      → client ≡ some store
      → (laws.view w ≡ v) × (b : Bucket) × (v.buckets bucket ≡ some b) × Chosen v b.backend store

  store_of_bucket-FoundIn :
      (v : Holdings) (bucket : Text) (o : Option Bucket)
      → Ensures (Bucketed v bucket o) (store_of_bucket cloud o) (FoundIn v bucket)
  unfolding store_of_bucket
  store_of_bucket-FoundIn v bucket none = return-Ensures (λ w p store h. ground (arith, h))
  store_of_bucket-FoundIn v bucket (some b) = record {
    ensure = λ w w' client h p store e.
        let (same, at) = p b refl in
        let (kept, chosen) =
          (get_backend_by_name-Found v b.backend).ensure w w' client h same store e in
        (kept, b, at, chosen);
  }

  pub get_backend_client-FoundIn :
      (v : Holdings) (bucket : Text)
      → Ensures (λ w. laws.view w ≡ v) (get_backend_client cloud bucket) (FoundIn v bucket)
  unfolding get_backend_client
  get_backend_client-FoundIn v bucket =
      bind-Ensures (tried (cloud.get_bucket bucket)) _ (tried_bucket v bucket)
        (λ o. store_of_bucket-FoundIn v bucket o)
