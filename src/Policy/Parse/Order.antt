-- ===== src/Policy/Parse/Order.antt =====
-- api/pkg/policy/parser.go: `reduce` ranges over a Go map, whose order is not fixed, and keeps the
-- joined tokens from before a reduction.
use mathlib.Core.Path.{fun_ext}
use mathlib.Core.Bool.{false≢true}
use multi_cloud.Common.{
  ℕ, zero, suc, ◌≤◌, ◌≡◌, refl, sym, ap, ◌∙◌, Bool, true, false, List, [], ◌∷◌, Option, none, some,
  Text, Outcome, ok, panic, out_of_fuel, ◌>>=◌, arith, ◌==◌, if◌then◌else◌, Bool-cases,
  Option-cases, ◌⊎◌, inl, inr, is_empty, length,
}
use multi_cloud.Policy.Check.{true_check}
use multi_cloud.Policy.Token.{Token, TokenPair, parse_tokenize}
use multi_cloud.Policy.Parse.{
  Entry, wrap_check, wrap_and, wrap_or, check_and_check, or_and_check, and_and_check,
  check_or_check, and_or_check, or_or_check, not_check_entry, key, has_suffix, ParseState,
  apply_entry, reduce_loop, reduce, shift, shift_all, parse_rule, result, new_parse_state,
}

abbrev pub entry_number : Entry → ℕ
entry_number wrap_check = 0
entry_number wrap_and = 1
entry_number wrap_or = 2
entry_number check_and_check = 3
entry_number or_and_check = 4
entry_number and_and_check = 5
entry_number check_or_check = 6
entry_number and_or_check = 7
entry_number or_or_check = 8
entry_number not_check_entry = 9

abbrev pub entry_eq : Entry → Entry → Bool
entry_eq e d = entry_number e == entry_number d

abbrev pub occurs : Entry → List Entry → ℕ
occurs d [] = 0
occurs d (e ∷ es) = let rest = occurs d es in if entry_eq e d then suc rest else rest

-- A range over the map visits each of its keys once.
abbrev pub IsOrder : List Entry → Type 0
IsOrder order = (d : Entry) → occurs d order ≡ 1

-- The keys in the order of the source.
abbrev pub all_entries : List Entry
all_entries =
    wrap_check ∷ wrap_and ∷ wrap_or ∷ check_and_check ∷ or_and_check ∷ and_and_check
    ∷ check_or_check ∷ and_or_check ∷ or_or_check ∷ not_check_entry ∷ []

abbrev fits : Entry → List Token → Bool
fits e ts = has_suffix ts (key e)

entry_eq_sound : (e d : Entry) → entry_number e ≡ entry_number d → e ≡ d
entry_eq_sound e d h = ground arith

-- No two keys end the same stack.
fits_unique : (e d : Entry) (ts : List Token) → fits e ts ≡ true → fits d ts ≡ true → e ≡ d
fits_unique e d [] h k = ground arith
fits_unique e d (a ∷ []) h k = ground arith
fits_unique e d (a ∷ b ∷ []) h k = ground arith
fits_unique e d (a ∷ b ∷ c ∷ ts) h k = ground arith

unfoldable pub first_fit : List Entry → List Token → Option Entry
first_fit [] ts = none
first_fit (e ∷ es) ts = if has_suffix ts (key e) then some e else first_fit es ts

pub first_fit-fits :
    (es : List Entry) (ts : List Token) (e : Entry) → first_fit es ts ≡ some e → fits e ts ≡ true
unfolding first_fit
first_fit-fits [] ts e h = cc
first_fit-fits (d ∷ es) ts e h = elim (Bool-cases (fits d ts)) [
  | inl y ↦ ground (arith, y)
  | inr n ↦ first_fit-fits es ts e (rw n at h)
]

first_fit_of_fits :
    (es : List Entry) (ts : List Token) (e : Entry)
    → 1 ≤ occurs e es
    → fits e ts ≡ true
    → first_fit es ts ≡ some e
unfolding first_fit
first_fit_of_fits [] ts e o h = absurd (omega arith)
first_fit_of_fits (d ∷ es) ts e o h = elim (Bool-cases (fits d ts)) [
  | inl y ↦ rw y (ap some (fits_unique d e ts y h))
  | inr n ↦ rw n (first_fit_of_fits es ts e (later n (Bool-cases (entry_eq d e))) h)
]
  where
    later : fits d ts ≡ false → (entry_eq d e ≡ true) ⊎ (entry_eq d e ≡ false) → 1 ≤ occurs e es
    later n (inl y) =
        absurd
          (false≢true (sym n ∙ (ap (λ x. fits x ts) (entry_eq_sound d e (ground (arith, y))) ∙ h)))
    later n (inr m) = ground arith

-- Two orders find the same entry.
first_fit_order :
    (es ds : List Entry) (ts : List Token)
    → ((d : Entry) → 1 ≤ occurs d es)
    → ((d : Entry) → 1 ≤ occurs d ds)
    → first_fit es ts ≡ first_fit ds ts
first_fit_order es ds ts oe od = elim (Option-cases (first_fit es ts)) [
  | inr (e, p) ↦ p ∙ sym (first_fit_of_fits ds ts e (od e) (first_fit-fits es ts e p))
  | inl p ↦ elim (Option-cases (first_fit ds ts)) [
    | inl q ↦ p ∙ sym q
    | inr (e, q) ↦ first_fit_of_fits es ts e (oe e) (first_fit-fits ds ts e q) ∙ sym q
  ]
]

-- A loop over entries none of which fits changes nothing.
no_fit_loop :
    (again : ParseState → Outcome ParseState) (es : List Entry) (ts : List Token) (p : ParseState)
    → first_fit es ts ≡ none
    → reduce_loop again es ts p ≡ ok p
unfolding reduce_loop first_fit
no_fit_loop again [] ts p h = refl
no_fit_loop again (e ∷ es) ts p h = elim (Bool-cases (fits e ts)) [
  | inl y ↦ ground (arith, y)
  | inr n ↦ rw n (no_fit_loop again es ts p (rw n at h))
]

-- What one call of `reduce` does: the entry that fits, and the call again.
unfoldable pub reduce_by :
    (ParseState → Outcome ParseState) → Option Entry → ParseState → Outcome ParseState
reduce_by again none p = ok p
reduce_by again (some e) p = apply_entry e p >>= again

first_fit-occurs :
    (es : List Entry) (ts : List Token) (d : Entry) → first_fit es ts ≡ some d → 1 ≤ occurs d es
unfolding first_fit
first_fit-occurs [] ts d h = cc
first_fit-occurs (e ∷ es) ts d h = elim (Bool-cases (fits e ts)) [
  | inl y ↦ ground (arith, y)
  | inr n ↦ ground (arith, first_fit-occurs es ts d (rw n at h))
]

rest_no_fit :
    (es : List Entry) (ts : List Token) (e : Entry)
    → occurs e es ≡ 0
    → fits e ts ≡ true
    → first_fit es ts ≡ none
rest_no_fit es ts e o h = elim (Option-cases (first_fit es ts)) [
  | inl p ↦ p
  | inr (d, p) ↦ absurd (omega (arith, first_fit-occurs es ts d p, same d p))
]
  where
    same : (d : Entry) → first_fit es ts ≡ some d → occurs d es ≡ 0
    same d p = rw (← fits_unique e d ts h (first_fit-fits es ts d p)) o

pub bind-ok {ℓ} : {A : Type ℓ} (m : Outcome A) → (m >>= ok) ≡ m
bind-ok (ok a) = refl
bind-ok panic = refl
bind-ok out_of_fuel = refl

occurs_self : (e : Entry) (es : List Entry) → occurs e (e ∷ es) ≡ suc (occurs e es)
occurs_self e es = ground arith

occurs_tail : (d e : Entry) (es : List Entry) → occurs d es ≤ occurs d (e ∷ es)
occurs_tail d e es = ground arith

-- The stale string does no harm: behind the entry that fits there is no other.
pub loop-first_fit :
    (again : ParseState → Outcome ParseState) (es : List Entry) (ts : List Token) (p : ParseState)
    → ((d : Entry) → occurs d es ≤ 1)
    → reduce_loop again es ts p ≡ reduce_by again (first_fit es ts) p
unfolding reduce_loop first_fit reduce_by
loop-first_fit again [] ts p o = refl
loop-first_fit again (e ∷ es) ts p o = elim (Bool-cases (fits e ts)) [
  | inl y ↦ rw y (
      ap (λ k. apply_entry e p >>= k)
        (fun_ext (λ q.
          ap (λ k. again q >>= k) (fun_ext (λ s. no_fit_loop again es ts s (none_left y)))
          ∙ bind-ok (again q))))
  | inr n ↦ rw n (loop-first_fit again es ts p (λ d. omega (arith, o d, occurs_tail d e es)))
]
  where
    none_left : fits e ts ≡ true → first_fit es ts ≡ none
    none_left y = rest_no_fit es ts e (omega (arith, o e, occurs_self e es)) y

pub all_entries-IsOrder : IsOrder all_entries
all_entries-IsOrder d = ground arith

pub reduce-order :
    (f : ℕ) (order : List Entry)
    → IsOrder order
    → (p : ParseState) → reduce f order p ≡ reduce f all_entries p
unfolding reduce
reduce-order zero order h p = refl
reduce-order (suc f) order h p =
    loop-first_fit (reduce f order) order p.tokens p (λ d. omega (arith, h d))
    ∙ (ap (λ o. reduce_by (reduce f order) o p)
          (first_fit_order order all_entries p.tokens (λ d. omega (arith, h d))
            (λ d. omega (arith, all_entries-IsOrder d)))
        ∙ (ap (λ k. reduce_by k (first_fit all_entries p.tokens) p)
              (fun_ext (reduce-order f order h))
            ∙ sym (
                loop-first_fit (reduce f all_entries) all_entries p.tokens p
                  (λ d. omega (arith, all_entries-IsOrder d)))))

shift-order :
    (order : List Entry)
    → IsOrder order
    → (tp : TokenPair) (p : ParseState) → shift order tp p ≡ shift all_entries tp p
unfolding shift
shift-order order h (t, v) p = reduce-order (suc (suc (length p.tokens))) order h _

pub shift_all-order :
    (order : List Entry)
    → IsOrder order
    → (tps : List TokenPair) (p : ParseState) → shift_all order tps p ≡ shift_all all_entries tps p
unfolding shift_all
shift_all-order order h [] p = refl
shift_all-order order h (tp ∷ tps) p =
    ap (λ m. m >>= shift_all order tps) (shift-order order h tp p)
    ∙ ap (λ k. shift all_entries tp p >>= k) (fun_ext (shift_all-order order h tps))

-- Whatever order the range over the map takes, a rule is parsed to the same check, with the same
-- panics.
pub parse_rule-order :
    (order : List Entry) (rule : Text)
    → IsOrder order
    → parse_rule order rule ≡ parse_rule all_entries rule
unfolding parse_rule
parse_rule-order order rule h =
    ap (λ m. if is_empty rule then ok true_check else (m >>= result))
      (shift_all-order order h (parse_tokenize rule) new_parse_state)
