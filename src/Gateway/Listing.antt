-- ===== src/Gateway/Listing.antt =====
-- api/pkg/common/common.go: what the parameters of a request to list can be.
use mathlib.Core.Path.{subst}
use multi_cloud.Common.{
  All, ℕ, ◌-◌, ◌%◌, ◌^◌, ◌≤◌, ◌<◌, ltb, Text, codes, is_empty, List, [], ◌∷◌, Option, none, some,
  if◌then◌else◌, ◌≡◌, refl, ap, arith, some_cancel, Bool-cases, inl, inr, sym, ◌⊎◌,
}
use multi_cloud.Common.Int.{ℤ, pos, negsuc, signed32, int32, gt}
use multi_cloud.Common.Strconv.{atoi}
use multi_cloud.Gateway.Params.{
  limit_of, limit_param, offset_param, page_of, sort_of, get_pagination_param, get_sort_param,
  Query,
}

-- An int32 that is at most `n`.
abbrev pub AtMost : ℕ → ℤ → Type 0
AtMost n (pos m) = m ≤ n
AtMost n (negsuc m) = m < 2 ^ 31

signed32-AtMost : (m : ℕ) → m < 2 ^ 32 → AtMost (2 ^ 31 - 1) (signed32 m)
unfolding signed32
signed32-AtMost m h = elim (Bool-cases (ltb m (2 ^ 31))) [
  | inl low ↦ rw (low) ground (arith, low)
  | inr high ↦ rw (high) ground (arith, high, h)
]

int32-AtMost : (v : ℤ) → AtMost (2 ^ 31 - 1) (int32 v)
unfolding int32
int32-AtMost (pos n) = signed32-AtMost (n % 2 ^ 32) (omega arith)
int32-AtMost (negsuc n) = signed32-AtMost (2 ^ 32 - 1 - n % 2 ^ 32) (omega arith)

lower-AtMost :
    (u : ℤ) → AtMost (2 ^ 31 - 1) u → AtMost 1000 (if gt (pos 1000) u then u else pos 1000)
unfolding gt
lower-AtMost (pos n) h = elim (Bool-cases (ltb n 1000)) [
  | inl low ↦ rw (low) ground (arith, low)
  | inr high ↦ rw (high) omega arith
]
lower-AtMost (negsuc n) h = h

limit_of-AtMost : (o : Option ℤ) (limit : ℤ) → limit_of o ≡ some limit → AtMost 1000 limit
unfolding limit_of
limit_of-AtMost none limit h = ground (arith, h)
limit_of-AtMost (some v) limit h =
    subst (AtMost 1000) (some_cancel h) (lower-AtMost (int32 v) (int32-AtMost v))

limit_param-AtMost : (s : Text) (limit : ℤ) → limit_param s ≡ some limit → AtMost 1000 limit
unfolding limit_param
limit_param-AtMost s limit h = elim (Bool-cases (is_empty s)) [
  | inl absent ↦ subst (AtMost 1000) (some_cancel (rw (absent) at h)) (omega arith)
  | inr given ↦ limit_of-AtMost (atoi s) limit (rw (given) at h)
]

offset_of-AtMost :
    (o : Option ℤ) (offset : ℤ)
    → (elim o as (λ x. Option ℤ) [ none ↦ none | some v ↦ some (int32 v) ]) ≡ some offset
    → AtMost (2 ^ 31 - 1) offset
offset_of-AtMost none offset h = ground (arith, h)
offset_of-AtMost (some v) offset h = subst (AtMost (2 ^ 31 - 1)) (some_cancel h) (int32-AtMost v)

offset_param-AtMost :
    (s : Text) (offset : ℤ) → offset_param s ≡ some offset → AtMost (2 ^ 31 - 1) offset
unfolding offset_param
offset_param-AtMost s offset h = elim (Bool-cases (is_empty s)) [
  | inl absent ↦ subst (AtMost (2 ^ 31 - 1)) (some_cancel (rw (absent) at h)) (omega arith)
  | inr given ↦ offset_of-AtMost (atoi s) offset (rw (given) at h)
]

page_of-parts :
    (l o : Option ℤ) (limit offset : ℤ)
    → page_of l o ≡ some (limit, offset)
    → (l ≡ some limit) × (o ≡ some offset)
unfolding page_of
page_of-parts none o limit offset h = ground (arith, h)
page_of-parts (some l) none limit offset h = ground (arith, h)
page_of-parts (some l) (some o) limit offset h =
    let same = some_cancel h in (ap (λ p. some p.0) same, ap (λ p. some p.1) same)

-- A negative number of an int32 that the text has is what is got.
abbrev pub KeepsNegative : Option ℤ → ℤ → Type 0
KeepsNegative none got = Unit
KeepsNegative (some (pos n)) got = Unit
KeepsNegative (some (negsuc n)) got = (2 ^ 31 ≤ n) ⊎ (got ≡ negsuc n)

int32_negative : (n : ℕ) → n < 2 ^ 31 → int32 (negsuc n) ≡ negsuc n
unfolding int32 signed32
int32_negative n h = ground (arith, h)

limit_of-KeepsNegative :
    (o : Option ℤ) (limit : ℤ) → limit_of o ≡ some limit → KeepsNegative o limit
unfolding limit_of gt
limit_of-KeepsNegative none limit h = tt
limit_of-KeepsNegative (some (pos n)) limit h = tt
limit_of-KeepsNegative (some (negsuc n)) limit h = elim (Bool-cases (ltb n (2 ^ 31))) [
  | inl low ↦ inr (sym (some_cancel (rw (int32_negative n (ground (arith, low))) at h)))
  | inr high ↦ inl (ground (arith, high))
]

limit_param-KeepsNegative :
    (s : Text) (limit : ℤ) → limit_param s ≡ some limit → KeepsNegative (atoi s) limit
unfolding limit_param atoi
limit_param-KeepsNegative [] limit h = tt
limit_param-KeepsNegative (c ∷ s) limit h = limit_of-KeepsNegative (atoi (c ∷ s)) limit h

offset_of-KeepsNegative :
    (o : Option ℤ) (offset : ℤ)
    → (elim o as (λ x. Option ℤ) [ none ↦ none | some v ↦ some (int32 v) ]) ≡ some offset
    → KeepsNegative o offset
offset_of-KeepsNegative none offset h = tt
offset_of-KeepsNegative (some (pos n)) offset h = tt
offset_of-KeepsNegative (some (negsuc n)) offset h = elim (Bool-cases (ltb n (2 ^ 31))) [
  | inl low ↦ inr (sym (some_cancel (rw (int32_negative n (ground (arith, low))) at h)))
  | inr high ↦ inl (ground (arith, high))
]

offset_param-KeepsNegative :
    (s : Text) (offset : ℤ) → offset_param s ≡ some offset → KeepsNegative (atoi s) offset
unfolding offset_param atoi
offset_param-KeepsNegative [] offset h = tt
offset_param-KeepsNegative (c ∷ s) offset h = offset_of-KeepsNegative (atoi (c ∷ s)) offset h

-- Whatever text a request has for its limit and its offset, if they are taken, then both are numbers
-- of an int32 and the limit is at most 1000; but a negative number of an int32 that is asked for, as a
-- limit or as an offset, is taken as it is.
pub get_pagination_param-AtMost :
    (query : Query) (limit offset : ℤ)
    → get_pagination_param query ≡ some (limit, offset)
    → (AtMost 1000 limit × AtMost (2 ^ 31 - 1) offset)
      × KeepsNegative (atoi (query (codes "limit"))) limit
      × KeepsNegative (atoi (query (codes "offset"))) offset
unfolding get_pagination_param
get_pagination_param-AtMost query limit offset h =
    let (l, o) =
      page_of-parts (limit_param (query (codes "limit"))) (offset_param (query (codes "offset")))
        limit offset h in
    (
      (
        limit_param-AtMost (query (codes "limit")) limit l,
        offset_param-AtMost (query (codes "offset")) offset o,
      ),
      limit_param-KeepsNegative (query (codes "limit")) limit l,
      offset_param-KeepsNegative (query (codes "offset")) offset o,
    )

sort_of_unread :
    (s : Text)
    → (keys dirs : List Text) × (sort_of s ≡ some (keys, dirs)) × All (λ key. key ≡ []) keys
unfolding sort_of
sort_of_unread [] = ([] ∷ [], codes "asc" ∷ [], refl, (refl, tt))
sort_of_unread (c ∷ s) = ([], [], refl, tt)

-- However a request asks for its answer to be sorted, no key that it names is passed on, and no text
-- is refused: with a parameter the keys are none, and without one there is the empty key alone.
pub get_sort_param_unread :
    (query : Query)
    → (keys dirs : List Text) × (get_sort_param query ≡ some (keys, dirs))
      × All (λ key. key ≡ []) keys
unfolding get_sort_param
get_sort_param_unread query = sort_of_unread (query (codes "sort"))
