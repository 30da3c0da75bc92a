-- ===== src/Policy/Parse/Settle.antt =====
-- api/pkg/policy/parser.go: what `Shift` leaves on the stack, with no fuel in sight.
use multi_cloud.Common.{
  ℕ, zero, suc, ◌<◌, ◌≡◌, ap, ◌∙◌, List, ◌∷◌, none, some, ok, ◌>>=◌, arith, length,
}
use multi_cloud.Policy.Token.{Token, TokenValue, TokenPair}
use multi_cloud.Policy.Parse.{Entry, ParseState, apply_entry, reduce, shift, shift_all}
use multi_cloud.Policy.Parse.Order.{
  all_entries, all_entries-IsOrder, first_fit, reduce_by, loop-first_fit,
}

abbrev pub push : Token → TokenValue → ParseState → ParseState
push t v p = record { tokens = t ∷ p.tokens; values = v ∷ p.values }

-- With fuel for the stack, `reduce` takes `p` to `q`.
abbrev pub Settles : ParseState → ParseState → Type 0
Settles p q = (f : ℕ) → length p.tokens < f → reduce f all_entries p ≡ ok q

pub reduce_step :
    (f : ℕ) (p : ParseState)
    → reduce (suc f) all_entries p
      ≡ reduce_by (reduce f all_entries) (first_fit all_entries p.tokens) p
unfolding reduce
reduce_step f p =
    loop-first_fit (reduce f all_entries) all_entries p.tokens p
      (λ d. omega (arith, all_entries-IsOrder d))

pub Settles-done : (p : ParseState) → first_fit all_entries p.tokens ≡ none → Settles p p
unfolding reduce_by
Settles-done p h zero l = elim l [ ]
Settles-done p h (suc f) l = reduce_step f p ∙ ap (λ o. reduce_by (reduce f all_entries) o p) h

pub Settles-step :
    (e : Entry) (p q s : ParseState)
    → first_fit all_entries p.tokens ≡ some e
    → apply_entry e p ≡ ok q
    → length q.tokens < length p.tokens
    → Settles q s
    → Settles p s
unfolding reduce_by
Settles-step e p q s h a less rest zero l = elim l [ ]
Settles-step e p q s h a less rest (suc f) l =
    reduce_step f p
    ∙ (ap (λ o. reduce_by (reduce f all_entries) o p) h
        ∙ (ap (λ m. m >>= reduce f all_entries) a ∙ rest f (omega arith)))

pub shift_all-Settles :
    (t : Token) (v : TokenValue) (rest : List TokenPair) (p q : ParseState)
    → Settles (push t v p) q
    → shift_all all_entries ((t, v) ∷ rest) p ≡ shift_all all_entries rest q
unfolding shift_all shift
shift_all-Settles t v rest p q s =
    ap (λ m. m >>= shift_all all_entries rest) (s (suc (suc (length p.tokens))) (omega arith))
