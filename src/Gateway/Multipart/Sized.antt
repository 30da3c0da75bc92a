-- ===== src/Gateway/Multipart/Sized.antt =====
-- api/pkg/s3/uploadpart.go: the size that the metadata of an upload have.
use multi_cloud.Common.{
  ℕ, ◌+◌, Text, List, [], ◌∷◌, snoc, Option, none, some, ◌≡◌, ◌∙◌, refl, sym, ap, arith,
}
use multi_cloud.Common.Actions.{done, tried}
use multi_cloud.Common.Promises.{bind-Ensures, panic-Ensures, done-injective}
use multi_cloud.Backend.Types.{BackendDetail}
use multi_cloud.S3.Types.{Object, Partion}
use multi_cloud.Gateway.Routes.{entity}
use multi_cloud.Gateway.Objects.{Cloud, get_backend_by_name, int_value, size_of}
use multi_cloud.Gateway.Objects.Laws.{CloudLaws, tried-Ensures, no_entity-Ensures}
use multi_cloud.Gateway.Multipart.Laws.{
  UploadLaws, At, get_object-At, by_name-At, create_object-At, Leaves, after_create-Leaves,
}
use multi_cloud.Gateway.Multipart.{
  Upload, Uploads, with_part, read_back, store_part, after_part, part_to, part_of, upload_part,
}

abbrev pub total : List Partion → ℕ
total [] = 0
total (p ∷ ps) = p.size + total ps

-- The size is that of the parts together.
abbrev pub IsSum : Object → Type 0
IsSum o = o.size ≡ total o.partions

total-snoc : (ps : List Partion) (p : Partion) → total (snoc ps p) ≡ total ps + p.size
total-snoc [] p = omega arith
total-snoc (q ∷ ps) p = omega (arith, total-snoc ps p)

module _ {W : Type 0} (cloud : Cloud W) (laws : CloudLaws cloud) (uploads : Uploads W)
    (more : UploadLaws laws uploads) (upload : Upload) where
  -- The metadata of the upload.
  abbrev Holds : Object → W → Type 0
  Holds = At cloud laws upload.bucket upload.key

  read_back-Leaves :
      (p : Object) (etag : Text) (stored : Option (Unit {0})) (r : Option Object)
      → Leaves cloud laws upload.bucket upload.key
          (λ w. (q : Object) → r ≡ some q → (u : Unit {0}) → stored ≡ some u → Holds p w)
          (read_back cloud uploads etag stored r)
          (Holds p)
  unfolding read_back
  read_back-Leaves p etag stored none = panic-Ensures
  read_back-Leaves p etag stored (some q) = record {
    ensure = λ w w' answer h at.
        (after_create-Leaves cloud laws upload.bucket upload.key p etag stored).ensure w w' answer h
          (at q refl);
  }

  store_part-Leaves :
      (p : Object) (etag : Text) (stored : Option (Unit {0}))
      → Leaves cloud laws upload.bucket upload.key
          (λ w. (u : Unit {0}) → stored ≡ some u → Holds p w)
          (store_part cloud uploads upload etag stored)
          (Holds p)
  unfolding store_part
  store_part-Leaves p etag stored =
      bind-Ensures (tried (cloud.get_object upload.bucket upload.key)) _
        (tried-Ensures (cloud.get_object upload.bucket upload.key) (record {
          ensure = λ w w' q h at u e.
              let (at_q, same) = laws.object_law upload.bucket upload.key q w w' h in
              ap (λ v. v.meta upload.bucket upload.key) same ∙ at u e;
        }))
        (λ r. read_back-Leaves p etag stored r)

  module _ (o : Object) (in_bucket : o.bucket_name ≡ upload.bucket)
      (at_key : o.object_key ≡ upload.key) where
    -- The metadata have one more part.
    abbrev pub Grown : Text → ℕ → W → Type 0
    Grown part_number size w =
        (time : Text) × (now : ℕ) × Holds (with_part upload.key part_number size time now o) w

    after_part-Leaves :
        (part_number : Text) (size : ℕ) (time : Text) (r : Option Text)
        → Leaves cloud laws upload.bucket upload.key
            (λ w. (etag : Text) → r ≡ some etag → Holds o w)
            (after_part cloud uploads upload part_number size time o r)
            (Grown part_number size)
    unfolding after_part
    after_part-Leaves part_number size time none = record {
      ensure = λ w w' answer h p a e. absurd (ground (arith, done-injective h ∙ e));
    }
    after_part-Leaves part_number size time (some etag) = record {
      ensure = λ w w' answer h at a e.
          let p = with_part upload.key part_number size time (cloud.now w) o in
          (
            time,
            cloud.now w,
            (bind-Ensures (tried (cloud.create_object p)) _
                  (create_object-At cloud laws upload.bucket upload.key {P = Holds o} p in_bucket
                    at_key)
                  (λ r. store_part-Leaves p etag r)).ensure
                w w' answer h (at etag refl) a e,
          );
    }

    part_to-Leaves :
        (part_number : Text) (size : ℕ) (body time : Text) (c : Option BackendDetail)
        → Leaves cloud laws upload.bucket upload.key
            (λ w. (s : BackendDetail) → c ≡ some s → Holds o w)
            (part_to cloud uploads upload part_number size body time o c)
            (Grown part_number size)
    unfolding part_to
    part_to-Leaves part_number size body time none = no_entity-Ensures 500
    part_to-Leaves part_number size body time (some store) =
        bind-Ensures (tried (uploads.upload_part store upload (int_value part_number) body)) _
          (tried-Ensures (uploads.upload_part store upload (int_value part_number) body) (record {
            ensure = λ w w' etag h at.
                ap (λ m. m upload.bucket upload.key)
                  (more.part_law store upload part_number body etag w w' h)
                ∙ at store refl;
          }))
          (λ r. after_part-Leaves part_number size time r)

    part_of-Leaves :
        (part_number : Text) (size : ℕ) (body : Text)
        → Leaves cloud laws upload.bucket upload.key
            (Holds o)
            (part_of cloud uploads upload part_number size body (some o))
            (Grown part_number size)
    unfolding part_of
    part_of-Leaves part_number size body = record {
      ensure = λ w w' answer h at.
          (bind-Ensures (get_backend_by_name cloud o.backend) _
              (by_name-At cloud laws upload.bucket upload.key o o.backend)
              (λ c. part_to-Leaves part_number size body (uploads.time w) c)).ensure
            w w' answer h at;
    }

    part_found :
        (part_number : Text) (size : ℕ) (body : Text) (r : Option Object)
        → Leaves cloud laws upload.bucket upload.key
            (λ w. (p : Object) → r ≡ some p → Holds o w × (o ≡ p))
            (part_of cloud uploads upload part_number size body r)
            (Grown part_number size)
    unfolding part_of
    part_found part_number size body none = record { ensure = λ w w' answer h p. ground (arith, h) }
    part_found part_number size body (some p) = record {
      ensure = λ w w' answer h at.
          let (at_o, same) = at p refl in
          (part_of-Leaves part_number size body).ensure w w' answer
            (ap (λ q. part_of cloud uploads upload part_number size body (some q) w) same ∙ h) at_o;
    }

    pub upload_part-Leaves :
        (part_number content_length body : Text)
        → Leaves cloud laws upload.bucket upload.key
            (Holds o)
            (upload_part cloud uploads upload part_number content_length body)
            (Grown part_number (size_of (int_value content_length)))
    unfolding upload_part
    upload_part-Leaves part_number content_length body =
        bind-Ensures (tried (cloud.get_object upload.bucket upload.key)) _
          (get_object-At cloud laws upload.bucket upload.key o)
          (λ r. part_found part_number (size_of (int_value content_length)) body r)

  -- If the services and the stores keep their promises and the metadata of an upload have as their size
  -- that of the parts together, then after one more part has been taken without an error they have so
  -- too: the size has grown by that of the part, and the upload is as complete or incomplete as before.
  pub upload_part-IsSum :
      (o : Object) (part_number content_length body etag : Text) (w w' : W)
      → o.bucket_name ≡ upload.bucket
      → o.object_key ≡ upload.key
      → (laws.view w).meta upload.bucket upload.key ≡ some o
      → IsSum o
      → upload_part cloud uploads upload part_number content_length body w
        ≡ (w', done (entity etag))
      → (p : Object) × ((laws.view w').meta upload.bucket upload.key ≡ some p)
        × (p.size ≡ o.size + size_of (int_value content_length))
        × (p.init_flag ≡ o.init_flag)
        × IsSum p
  upload_part-IsSum o part_number content_length body etag w w' in_bucket at_key at is_sum h =
      let (time, now, at_p) =
        (upload_part-Leaves o in_bucket at_key part_number content_length body).ensure w w'
          (entity etag) h at etag refl in
      let size = size_of (int_value content_length) in
      (
        with_part upload.key part_number size time now o,
        at_p,
        refl,
        refl,
        ap (λ n. n + size) is_sum ∙ sym (total-snoc o.partions _),
      )
