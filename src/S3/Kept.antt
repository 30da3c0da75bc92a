-- ===== src/S3/Kept.antt =====
-- s3/pkg/service.go: what the metadata of the objects says after a call.
use mathlib.Core.Path.{subst}
use multi_cloud.Common.{
  ◌≡◌, ◌∙◌, refl, ap, sym, arith, Bool, true, false, ◌&&◌, Text, codes, text_eq, text_eq_sound,
  text_eq_refl, List, [], ◌∷◌, Option, none, some, some_cancel, if◌then◌else◌, All, Bool-cases, inl,
  inr, ◌⊎◌,
}
use multi_cloud.Common.Database.{
  Reply, found, missing, broken, Write, written, not_found, duplicate, write_error,
}
use multi_cloud.S3.Types.{Object, S3Error, Out, no_error, s3_error, internal_error, no_such_object}
use multi_cloud.S3.Driver.{
  Metadata, one, all, put, db_list_objects, db_get_object, insert_new_object, db_create_object,
  db_update_object,
}
use multi_cloud.S3.Service.{
  is_listed, listed_objects, or_earlier, err_ok, is_missing, answer_objects, list_objects, put_over,
  create_object, get_object, mark_object, delete_object,
}

-- The metadata as a map from buckets and keys to objects, with one object changed.
abbrev pub with_object :
    Text → Text → Object → (Text → Text → Option Object) → Text → Text → Option Object
with_object b k o view b' k' = if text_eq b b' && text_eq k k' then some o else view b' k'

-- What the collections of the objects promise: `view` is the object of a bucket and a key.
pub record ObjectLaws {W : Type 0} (db : Metadata W) : Type 0 where
  pub view : W → Text → Text → Option Object
  pub find_law :
      (b k : Text) (o : Object) (w w' : W)
      → db.find_object b k w ≡ (w', found o)
      → (view w b k ≡ some o) × (view w' ≡ view w)
  pub missing_law :
      (b k : Text) (w w' : W)
      → db.find_object b k w ≡ (w', missing)
      → (view w b k ≡ none) × (view w' ≡ view w)
  pub find_all_law :
      (b : Text) (os : List Object) (w w' : W)
      → db.find_objects b w ≡ (w', found os)
      → All (λ o. view w b o.object_key ≡ some o) os × (view w' ≡ view w)
  pub insert_law :
      (b : Text) (o : Object) (w w' : W)
      → db.insert_object b o w ≡ (w', written)
      → view w' ≡ with_object b o.object_key o (view w)
  pub update_law :
      (b k : Text) (o : Object) (w w' : W)
      → db.update_object b k o w ≡ (w', written)
      → view w' ≡ with_object b k o (view w)

abbrev list_in : List Object → Out (List Object) → List Object
list_in os (no_error ps) = ps
list_in os (s3_error e) = os

from_no_error :
    {W : Type 0} {w w' : W} {os ps : List Object}
    → ◌≡◌ {A = W × Out (List Object)} (w, no_error os) (w', no_error ps)
    → os ≡ ps
from_no_error {W} {w} {w'} {os} e = ap (λ p. list_in os p.1) e

-- Every object says under which bucket and key it is kept.
abbrev pub Named : (Text → Text → Option Object) → Type 0
Named view =
    (b k : Text) (o : Object) → view b k ≡ some o → (o.bucket_name ≡ b) × (o.object_key ≡ k)

module _ {W : Type 0} (db : Metadata W) (laws : ObjectLaws db) where
  put-written :
      (absent other : S3Error) (o : W × Write) (w : W)
      → put absent other o ≡ (w, no_error tt)
      → o ≡ (w, written)
  unfolding put
  put-written absent other (w0, written) w e = ap (λ p. (p.0, written)) e
  put-written absent other (w0, not_found) w e = ground (arith, e)
  put-written absent other (w0, duplicate m) w e = ground (arith, e)
  put-written absent other (w0, write_error m) w e = ground (arith, e)

  or_earlier-no_error :
      (earlier : S3Error) (o : W × Out (Unit {0})) (w : W)
      → or_earlier earlier o ≡ (w, no_error tt)
      → o ≡ (w, no_error tt)
  unfolding or_earlier
  or_earlier-no_error earlier (w0, no_error u) w e = e
  or_earlier-no_error earlier (w0, s3_error m) w e = ground (arith, e)

  update-view :
      (o : Object) (w w' : W)
      → db_update_object db o w ≡ (w', no_error tt)
      → laws.view w' ≡ with_object o.bucket_name o.object_key o (laws.view w)
  unfolding db_update_object
  update-view o w w' e =
      laws.update_law o.bucket_name o.object_key o w w'
        (put-written no_such_object internal_error _ w' e)

  insert_new-view :
      (o : Object) (w : W) (r : Reply Object) (w0 w' : W)
      → db.find_object o.bucket_name o.object_key w ≡ (w0, r)
      → insert_new_object db o (w0, r) ≡ (w', no_error tt)
      → laws.view w' ≡ with_object o.bucket_name o.object_key o (laws.view w)
  unfolding insert_new_object
  insert_new-view o w (found old) w0 w' f e = ground (arith, e)
  insert_new-view o w broken w0 w' f e = ground (arith, e)
  insert_new-view o w missing w0 w' f e =
      laws.insert_law o.bucket_name o w0 w' (put-written internal_error internal_error _ w' e)
      ∙ ap (with_object o.bucket_name o.object_key o) (laws.missing_law _ _ w w0 f).1

  put_over-view :
      (o : Object) (w : W) (r : Reply Object) (w0 w' : W)
      → db.find_object o.bucket_name o.object_key w ≡ (w0, r)
      → put_over db o (one no_such_object (w0, r)) ≡ (w', no_error tt)
      → laws.view w' ≡ with_object o.bucket_name o.object_key o (laws.view w)
  unfolding put_over one is_missing db_create_object
  put_over-view o w (found old) w0 w' f e =
      update-view o w0 w' (or_earlier-no_error err_ok _ w' e)
      ∙ ap (with_object o.bucket_name o.object_key o) (laws.find_law _ _ old w w0 f).1
  put_over-view o w broken w0 w' f e = ground (arith, e)
  put_over-view o w missing w0 w' f e =
      insert_new-view o w0 _ _ w' refl (or_earlier-no_error no_such_object _ w' e)
      ∙ ap (with_object o.bucket_name o.object_key o) (laws.missing_law _ _ w w0 f).1

  found-view :
      (b k : Text) (w : W) (r : Reply Object) (w0 : W)
      → db.find_object b k w ≡ (w0, r)
      → (o : Object) → laws.view w b k ≡ some o
      → ((one no_such_object (w0, r)).1 ≡ no_error o)
        ⊎ ((one no_such_object (w0, r)).1 ≡ s3_error internal_error)
  unfolding one
  found-view b k w (found old) w0 f o at =
      inl (ap no_error (some_cancel (sym (laws.find_law b k old w w0 f).0 ∙ at)))
  found-view b k w broken w0 f o at = inr refl
  found-view b k w missing w0 f o at = absurd (ground (arith, (laws.missing_law b k w w0 f).0, at))

  put_at :
      (o : Object) (view : Text → Text → Option Object)
      → with_object o.bucket_name o.object_key o view o.bucket_name o.object_key ≡ some o
  put_at o view = ground (arith, text_eq_refl o.bucket_name, text_eq_refl o.object_key)

  -- After an object has been created without an error, it is kept under its bucket and key in place of
  -- the one that was there, deleted or not, every other object is as before, and the service answers a
  -- request for it with that object, or with an internal error.
  pub create_object-get_object :
      (o : Object) (w w' : W)
      → create_object db o w ≡ (w', no_error tt)
      → (laws.view w' ≡ with_object o.bucket_name o.object_key o (laws.view w))
        × (((get_object db o.bucket_name o.object_key w').1 ≡ no_error o)
            ⊎ ((get_object db o.bucket_name o.object_key w').1 ≡ s3_error internal_error))
  unfolding create_object db_get_object get_object
  create_object-get_object o w w' e =
      let view = put_over-view o w _ _ w' refl e in
      (
        view,
        found-view o.bucket_name o.object_key w' _ _ refl o
            (ap (λ v. v o.bucket_name o.object_key) view ∙ put_at o (laws.view w)),
      )

  abbrev marked : Object → Object
  marked o = record o { is_delete_marker = codes "1" }

  mark-view :
      (b k : Text) (w : W) (r : Reply Object) (w0 w' : W)
      → Named (laws.view w)
      → db.find_object b k w ≡ (w0, r)
      → mark_object db (one no_such_object (w0, r)) ≡ (w', no_error tt)
      → (old : Object) × (laws.view w b k ≡ some old)
        × (laws.view w' ≡ with_object b k (marked old) (laws.view w))
  unfolding mark_object one
  mark-view b k w (found old) w0 w' named f e =
      let (at, same) = laws.find_law b k old w w0 f in
      let (in_b, at_k) = named b k old at in
      (
        old,
        at,
        update-view (marked old) w0 w' (or_earlier-no_error err_ok _ w' e)
            ∙ (λ i. with_object (in_b i) (at_k i) (marked old) (same i)),
      )
  mark-view b k w broken w0 w' named f e = ground (arith, e)
  mark-view b k w missing w0 w' named f e = ground (arith, e)

  marked-is_listed : (o : Object) → is_listed (marked o) ≡ false
  unfolding is_listed
  marked-is_listed o = ground arith

  All-if :
      (P : Object → Type 0) (c : Bool) (o : Object) (os : List Object)
      → (c ≡ true → P o)
      → All P os
      → All P (if c then o ∷ os else os)
  All-if P true o os h all_os = (h refl, all_os)
  All-if P false o os h all_os = all_os

  unlisted :
      (b k : Text) (old : Object) (view : Text → Text → Option Object) (os : List Object)
      → view b k ≡ some (marked old)
      → All (λ o. view b o.object_key ≡ some o) os
      → All (λ o. text_eq o.object_key k ≡ false) (listed_objects os)
  unfolding listed_objects
  unlisted b k old view [] at all_kept = tt
  unlisted b k old view (o ∷ os) at (kept, all_kept) =
      All-if (λ u. text_eq u.object_key k ≡ false) (is_listed o) o (listed_objects os)
        (λ listed. elim (Bool-cases (text_eq o.object_key k)) [
          | inl same ↦
              let is_old : o ≡ marked old =
                some_cancel (sym kept ∙ ap (view b) (text_eq_sound o.object_key k same) ∙ at) in
              absurd (ground (arith, listed, ap is_listed is_old, marked-is_listed old))
          | inr other ↦ other
        ])
        (unlisted b k old view os at all_kept)

  listed-unlisted :
      (b k : Text) (old : Object) (w : W) (r : Reply (List Object)) (w0 w' : W) (os : List Object)
      → laws.view w b k ≡ some (marked old)
      → db.find_objects b w ≡ (w0, r)
      → answer_objects db (all (w0, r)) ≡ (w', no_error os)
      → All (λ o. text_eq o.object_key k ≡ false) os
  unfolding answer_objects all
  listed-unlisted b k old w (found os0) w0 w' os at f e =
      subst (All (λ o. text_eq o.object_key k ≡ false)) (from_no_error e)
        (unlisted b k old (laws.view w) os0 at (laws.find_all_law b os0 w w0 f).0)
  listed-unlisted b k old w missing w0 w' os at f e = ground (arith, e)
  listed-unlisted b k old w broken w0 w' os at f e = ground (arith, e)

  marked_at :
      (b k : Text) (old : Object) (view : Text → Text → Option Object)
      → with_object b k (marked old) view b k ≡ some (marked old)
  marked_at b k old view = ground (arith, text_eq_refl b, text_eq_refl k)

  -- If every object says under which bucket and key it is kept, then a deletion without an error marks
  -- the object that was kept under the bucket and the key as deleted and changes no other; a listing of
  -- the bucket right after it has no object with that key, but a request for the object is still
  -- answered with its metadata, or with an internal error.
  pub delete_object-list_objects :
      (b k : Text) (w w' : W)
      → Named (laws.view w)
      → delete_object db b k w ≡ (w', no_error tt)
      → ((old : Object) × (laws.view w b k ≡ some old)
          × (laws.view w'
              ≡ with_object b k (record old { is_delete_marker = codes "1" }) (laws.view w))
          × (((get_object db b k w').1 ≡ no_error (record old { is_delete_marker = codes "1" }))
              ⊎ ((get_object db b k w').1 ≡ s3_error internal_error)))
        × ((w2 : W) (os : List Object)
            → list_objects db b w' ≡ (w2, no_error os)
            → All (λ o. text_eq o.object_key k ≡ false) os)
  unfolding delete_object db_get_object list_objects db_list_objects get_object
  delete_object-list_objects b k w w' named e =
      let (old, at, view) = mark-view b k w _ _ w' named refl e in
      let now_at : laws.view w' b k ≡ some (marked old) =
        ap (λ v. v b k) view ∙ marked_at b k old (laws.view w) in
      (
        (old, at, view, found-view b k w' _ _ refl (marked old) now_at),
        λ w2 os listed. listed-unlisted b k old w' _ _ w2 os now_at refl listed,
      )
