-- ===== src/Backend/Pages.antt =====
-- backend/pkg/service/service.go: the pages of the types, and the requests that stop the service.
use mathlib.Core.Path.{subst}
use multi_cloud.Common.{
  ℕ, ◌+◌, ◌-◌, ◌≤◌, ltb, Text, codes, List, [], ◌∷◌, ◌++◌, length, take, drop, Option, none, some,
  ◌≡◌, ◌∙◌, ◌↔◌, ◌⊎◌, inl, inr, refl, ap, sym, arith, Bool-cases,
}
use multi_cloud.Common.Pieces.{take-append, length-piece}
use multi_cloud.Common.Actions.{Result, done, failed, panicked}
use multi_cloud.Common.Int.{ℤ, pos, negsuc, wrap32}
use multi_cloud.Policy.Check.{TextMap, lookup}
use multi_cloud.Backend.Types.{TypeDetail}
use multi_cloud.Backend.Service.{
  all_types, types_named, filtered_types, page_end, type_page, list_type,
}

types_named-length : (name : Text) (ts : List TypeDetail) → length (types_named name ts) ≤ length ts
unfolding types_named
types_named-length name [] = omega arith
types_named-length name (t ∷ ts) = ground (arith, types_named-length name ts)

filtered_types-length : (o : Option Text) → length (filtered_types o) ≤ 5
unfolding filtered_types all_types
filtered_types-length none = omega arith
filtered_types-length (some name) = types_named-length name all_types

wrap32_small : (n : ℕ) → n ≤ 5 → wrap32 n ≡ pos n
unfolding wrap32
wrap32_small n h = ground (arith, h)

page_end-from : (size start limit : ℕ) → start ≤ size → start ≤ page_end size start limit
unfolding page_end
page_end-from size start limit h = ground arith

page_end-to : (size start limit : ℕ) → page_end size start limit ≤ size
unfolding page_end
page_end-to size start limit = ground arith

-- The end is past the start by the limit, or is the number of types, whichever is less.
page_end-limit :
    (size start limit : ℕ)
    → (page_end size start limit ≤ start + limit)
      × ((page_end size start limit ≡ start + limit) ⊎ (page_end size start limit ≡ size))
unfolding page_end
page_end-limit size start limit = elim (Bool-cases (ltb size (start + limit))) [
  | inl short ↦ rw (short) (ground (arith, short), inr refl)
  | inr long ↦ rw (long) (omega arith, inl refl)
]

-- The page of the offset `o` and the limit `l`, and where the next one starts.
abbrev pub IsPage {ℓ} : {A : Type ℓ} → List A → ℕ → ℕ → List A → ℤ → Type ℓ
IsPage all o l ts next =
    (n : ℕ) × (next ≡ pos n)
    × (take o all ++ ts ≡ take n all)
    × (o ≤ n)
    × (n ≤ length all)
    × (n ≤ o + l)
    × ((n ≡ o + l) ⊎ (n ≡ length all))
    × (n ≡ o + length ts)

abbrev answered : List TypeDetail × ℤ → Result (List TypeDetail × ℤ) → List TypeDetail × ℤ
answered p (done q) = q
answered p (failed e) = p
answered p panicked = p

take-IsPage :
    (all : List TypeDetail) (l o n : ℕ)
    → length all ≤ 5
    → o ≤ n
    → n ≤ length all
    → (n ≤ o + l) × ((n ≡ o + l) ⊎ (n ≡ length all))
    → IsPage all o l (take (n - o) (drop o all)) (wrap32 (o + length (take (n - o) (drop o all))))
take-IsPage all l o n few from to bound =
    let up : o + (n - o) ≡ n = omega (arith, from) in
    (
      n,
      ap (λ k. wrap32 (o + k)) (length-piece o (n - o) all (omega (arith, from, to)))
          ∙ ap wrap32 up
          ∙ wrap32_small n (omega (arith, to, few)),
      take-append o (n - o) all ∙ ap (λ k. take k all) up,
      from,
      to,
      bound.0,
      bound.1,
      sym (ap (λ k. o + k) (length-piece o (n - o) all (omega (arith, from, to))) ∙ up),
    )

type_page-IsPage :
    (all : List TypeDetail) (l o : ℕ) (ts : List TypeDetail) (next : ℤ)
    → length all ≤ 5
    → type_page all (pos l) (pos o) ≡ done (ts, next)
    → IsPage all o l ts next
unfolding type_page
type_page-IsPage all l o ts next few h = elim (Bool-cases (ltb (length all) o)) [
  | inl over ↦ absurd (ground (arith, over, h))
  | inr inside ↦
      let n = page_end (length all) o l in
      let same = ap (answered (ts, next)) (rw (inside) at h) in
      subst (λ p. IsPage all o l p.0 p.1) same
        (take-IsPage all l o n few (page_end-from (length all) o l (ground (arith, inside)))
          (page_end-to (length all) o l) (page_end-limit (length all) o l))
]

-- A list of types with a limit and an offset that are not negative, if it is answered, is a page: the
-- types that match the name of the filter, or all, up to the offset, followed by the page, are those
-- up to the offset of the next page, which is the offset and the length of the page. The page has as many
-- types as the limit, or fewer if it reaches the end of them, and never more.
pub list_type-IsPage :
    (filter : TextMap Text) (l o : ℕ) (ts : List TypeDetail) (next : ℤ)
    → list_type filter (pos l) (pos o) ≡ done (ts, next)
    → IsPage (filtered_types (lookup (codes "name") filter)) o l ts next
unfolding list_type
list_type-IsPage filter l o ts next h =
    type_page-IsPage (filtered_types (lookup (codes "name") filter)) l o ts next
      (filtered_types-length (lookup (codes "name") filter)) h

type_page-panicked :
    (all : List TypeDetail) (limit offset : ℤ)
    → (type_page all limit offset ≡ panicked) ↔ (
        ((o : ℕ) × (offset ≡ negsuc o))
        ⊎ ((l : ℕ) × (o : ℕ) × (limit ≡ negsuc l) × (offset ≡ pos o) × (o ≤ length all)))
unfolding type_page
type_page-panicked all limit (negsuc o) = ((λ h. inl (o, refl)), λ h. refl)
type_page-panicked all (pos l) (pos o) = (
  (λ h. elim (Bool-cases (ltb (length all) o)) [
    | inl over ↦ absurd (ground (arith, over, h))
    | inr inside ↦ absurd (ground (arith, inside, h))
  ]),
  λ c. elim c [
    | inl (n, e) ↦ absurd (ground (arith, e))
    | inr (n, m, e, rest, more) ↦ absurd (ground (arith, e))
  ],
)
type_page-panicked all (negsuc l) (pos o) = (
  (λ h. elim (Bool-cases (ltb (length all) o)) [
    | inl over ↦ absurd (ground (arith, over, h))
    | inr inside ↦ inr (l, o, refl, refl, ground (arith, inside))
  ]),
  λ c. elim c [
    | inl (n, e) ↦ absurd (ground (arith, e))
    | inr (n, m, e, f, inside) ↦ ground (arith, f, inside)
  ],
)

-- A list of types makes the service panic exactly if the offset is negative, or the limit is and the
-- offset is not past the types that match.
pub list_type-panicked :
    (filter : TextMap Text) (limit offset : ℤ)
    → (list_type filter limit offset ≡ panicked) ↔ (
        ((o : ℕ) × (offset ≡ negsuc o))
        ⊎ ((l : ℕ) × (o : ℕ) × (limit ≡ negsuc l)
            × (offset ≡ pos o)
            × (o ≤ length (filtered_types (lookup (codes "name") filter)))))
unfolding list_type
list_type-panicked filter limit offset =
    type_page-panicked (filtered_types (lookup (codes "name") filter)) limit offset
