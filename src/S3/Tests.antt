-- ===== src/S3/Tests.antt =====
-- s3: the theorems at metadata that is a map from buckets and keys to objects.
use mathlib.Core.Path.{subst}
use multi_cloud.Common.{
  ◌≡◌, ◌∙◌, refl, ap, sym, arith, false, Text, codes, text_eq, text_eq_sound, List, [], ◌∷◌, Option,
  none, some, some_cancel, if◌then◌else◌, All, Bool-cases, inl, inr, ◌⊎◌,
}
use multi_cloud.Common.Database.{Reply, found, missing, broken, written, not_found}
use multi_cloud.S3.Types.{Object, no_error, s3_error, internal_error}
use multi_cloud.S3.Driver.{Metadata, db_get_object, db_create_object, db_update_object}
use multi_cloud.S3.Service.{create_object, get_object, delete_object, list_objects}
use multi_cloud.S3.Kept.{
  with_object, ObjectLaws, Named, create_object-get_object, delete_object-list_objects,
}

abbrev Objects : Type 0
Objects = Text → Text → Option Object

abbrev reply_of : Option Object → Reply Object
reply_of none = missing
reply_of (some o) = found o

abbrev k1 : Text
k1 = codes "k1"

-- Only one key is listed.
abbrev listing : Option Object → List Object
listing none = []
listing (some o) = if text_eq o.object_key k1 then o ∷ [] else []

abbrev metadata : Metadata Objects
metadata = record {
  find_bucket = λ n w. (w, missing);
  find_buckets = λ id w. (w, found []);
  insert_bucket = λ b w. (w, written);
  update_bucket = λ n b w. (w, not_found);
  remove_bucket = λ n w. (w, not_found);
  find_object = λ b k w. (w, reply_of (w b k));
  find_objects = λ b w. (w, found (listing (w b k1)));
  insert_object = λ b o w. (with_object b o.object_key o w, written);
  update_object = λ b k o w. (with_object b k o w, written);
  remove_objects = λ b k w. (w, written);
}

module _ {A B : Type 0} {a a' : A} {b b' : B} where
  firsts : ◌≡◌ {A = A × B} (a, b) (a', b') → a ≡ a'
  firsts h = ap (λ p. p.0) h

  seconds : ◌≡◌ {A = A × B} (a, b) (a', b') → b ≡ b'
  seconds h = ap (λ p. p.1) h

abbrev found_in : List Object → Reply (List Object) → List Object
found_in os (found ps) = ps
found_in os missing = os
found_in os broken = os

found_reply : (r : Option Object) (o : Object) → reply_of r ≡ found o → r ≡ some o
found_reply none o e = ground (arith, e)
found_reply (some p) o e = ground (arith, e)

missing_reply : (r : Option Object) → reply_of r ≡ missing → r ≡ none
missing_reply none e = refl
missing_reply (some p) e = ground (arith, e)

listing_kept :
    (w : Objects) (b : Text) (r : Option Object)
    → w b k1 ≡ r
    → All (λ o. w b o.object_key ≡ some o) (listing r)
listing_kept w b none at = tt
listing_kept w b (some o) at = elim (Bool-cases (text_eq o.object_key k1)) [
  | inl same ↦ rw (same) (ap (w b) (text_eq_sound o.object_key k1 same) ∙ at, tt)
  | inr other ↦ rw (other) tt
]

abbrev metadata_laws : ObjectLaws metadata
metadata_laws = record {
  view = λ w. w;
  find_law = λ b k o w w' e. (found_reply (w b k) o (seconds e), sym (firsts e));
  missing_law = λ b k w w' e. (missing_reply (w b k) (seconds e), sym (firsts e));
  find_all_law = λ b os w w' e. (
    subst (All (λ o. w b o.object_key ≡ some o)) (ap (found_in []) (seconds e))
        (listing_kept w b (w b k1) refl),
    sym (firsts e),
  );
  insert_law = λ b o w w' e. sym (firsts e);
  update_law = λ b k o w w' e. sym (firsts e);
}

abbrev bucket : Text
bucket = codes "b1"

abbrev photo : Object
photo = record {
  object_key = k1;
  bucket_name = bucket;
  backend = codes "aws";
  is_delete_marker = [];
  size = 3;
  last_modified = [];
  init_flag = [];
  partions = [];
}

abbrev no_objects : Objects
no_objects b k = none

abbrev with_photo : Objects
with_photo = with_object bucket k1 photo no_objects

creating_returns : create_object metadata photo no_objects ≡ (with_photo, no_error tt)
unfolding create_object db_get_object db_create_object
creating_returns = refl

created_photo :
    (with_photo ≡ with_object bucket k1 photo no_objects)
    × (((get_object metadata bucket k1 with_photo).1 ≡ no_error photo)
        ⊎ ((get_object metadata bucket k1 with_photo).1 ≡ s3_error internal_error))
created_photo =
    create_object-get_object metadata metadata_laws photo no_objects with_photo creating_returns

photo_Named : Named with_photo
photo_Named b k o e = elim (Bool-cases (text_eq bucket b)) [
  | inl is_b ↦ elim (Bool-cases (text_eq k1 k)) [
    | inl is_k ↦
        let same : photo ≡ o = some_cancel (ground (arith, e, is_b, is_k)) in
        (
          sym (ap (λ p. p.bucket_name) same) ∙ text_eq_sound bucket b is_b,
          sym (ap (λ p. p.object_key) same) ∙ text_eq_sound k1 k is_k,
        )
    | inr not_k ↦ absurd (ground (arith, e, is_b, not_k))
  ]
  | inr not_b ↦ absurd (ground (arith, e, not_b))
]

abbrev deleted : Objects
deleted = (delete_object metadata bucket k1 with_photo).0

deleting_returns : delete_object metadata bucket k1 with_photo ≡ (deleted, no_error tt)
unfolding delete_object db_get_object db_update_object
deleting_returns = refl

deleted_photo :
    ((old : Object) × (with_photo bucket k1 ≡ some old)
      × (deleted ≡ with_object bucket k1 (record old { is_delete_marker = codes "1" }) with_photo)
      × (((get_object metadata bucket k1 deleted).1
            ≡ no_error (record old { is_delete_marker = codes "1" }))
          ⊎ ((get_object metadata bucket k1 deleted).1 ≡ s3_error internal_error)))
    × ((w2 : Objects) (os : List Object)
        → list_objects metadata bucket deleted ≡ (w2, no_error os)
        → All (λ o. text_eq o.object_key k1 ≡ false) os)
deleted_photo =
    delete_object-list_objects metadata metadata_laws bucket k1 with_photo deleted photo_Named
      deleting_returns
