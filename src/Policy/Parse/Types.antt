-- ===== src/Policy/Parse/Types.antt =====
-- api/pkg/policy/parser.go: the values on the stack have the types that the reductions assert.
use mathlib.Core.Path.{subst}
use multi_cloud.Common.{
  ℕ, zero, suc, ◌<◌, ◌≡◌, refl, sym, ap, ◌∙◌, true, List, [], ◌∷◌, ◌++◌, Text, Outcome, ok, ◌>>=◌,
  arith, length, Option-cases, inl, inr,
}
use multi_cloud.Policy.Check.{
  Check, not_check, and_check, or_check, Checks, nil, cons, append_check, pop_from,
}
use multi_cloud.Policy.Token.{
  Token, lparen, rparen, and_token, or_token, not_token, check_token, and_expr, or_expr, TokenValue,
  word, check, TokenPair,
}
use multi_cloud.Policy.Parse.{
  Entry, wrap_check, wrap_and, wrap_or, check_and_check, or_and_check, and_and_check,
  check_or_check, and_or_check, or_or_check, not_check_entry, key, token_eq, has_suffix, ParseState,
  apply_entry, reduce, shift, shift_all, join_and,
}
use multi_cloud.Policy.Parse.Order.{all_entries, first_fit, first_fit-fits, reduce_by}
use multi_cloud.Policy.Parse.Settle.{reduce_step, push}

-- The value that a token of the stack carries.
abbrev pub HasType : Token → TokenValue → Type 0
HasType check_token v = (c : Check) × (v ≡ check c)
HasType and_expr v = (cs : Checks) × (v ≡ check (and_check cs))
HasType or_expr v = (c : Check) × (cs : Checks) × (v ≡ check (or_check (cons c cs)))
HasType _ v = (s : Text) × (v ≡ word s)

abbrev pub IsTypedStack : List Token → List TokenValue → Type 0
IsTypedStack [] [] = Unit
IsTypedStack [] (v ∷ vs) = ⊥
IsTypedStack (t ∷ ts) [] = ⊥
IsTypedStack (t ∷ ts) (v ∷ vs) = HasType t v × IsTypedStack ts vs

abbrev pub IsTyped : ParseState → Type 0
IsTyped p = IsTypedStack p.tokens p.values

token_eq_sound : (a b : Token) → token_eq a b ≡ true → a ≡ b
token_eq_sound a b h = ground arith

has_suffix_split :
    (ts ks : List Token) → has_suffix ts ks ≡ true → (rest : List Token) × (ts ≡ ks ++ rest)
has_suffix_split ts [] h = (ts, refl)
has_suffix_split [] (k ∷ ks) h = absurd (ground arith)
has_suffix_split (t ∷ ts) (k ∷ ks) h =
    let (rest, e) = has_suffix_split ts ks (ground arith) in
    (rest, cc (token_eq_sound t k (ground arith), e))

-- A typed stack below two tokens, and below three.
typed_two :
    (t u : Token) (ts : List Token) (vs : List TokenValue)
    → IsTypedStack (t ∷ u ∷ ts) vs
    → (a b : TokenValue) × (rest : List TokenValue) × (vs ≡ a ∷ b ∷ rest)
      × HasType t a
      × HasType u b
      × IsTypedStack ts rest
typed_two t u ts [] h = absurd h
typed_two t u ts (a ∷ []) h = absurd h.1
typed_two t u ts (a ∷ b ∷ vs) h = (a, b, vs, refl, h.0, h.1.0, h.1.1)

typed_three :
    (t u w : Token) (ts : List Token) (vs : List TokenValue)
    → IsTypedStack (t ∷ u ∷ w ∷ ts) vs
    → (a b c : TokenValue) × (rest : List TokenValue) × (vs ≡ a ∷ b ∷ c ∷ rest)
      × HasType t a
      × HasType u b
      × HasType w c
      × IsTypedStack ts rest
typed_three t u w ts [] h = absurd h
typed_three t u w ts (a ∷ []) h = absurd h.1
typed_three t u w ts (a ∷ b ∷ []) h = absurd h.1.1
typed_three t u w ts (a ∷ b ∷ c ∷ vs) h = (a, b, c, vs, refl, h.0, h.1.0, h.1.1.0, h.1.1.1)

-- What a reduction of a typed stack leaves.
abbrev Reduced : Entry → List Token → List TokenValue → Type 0
Reduced e ts vs =
    (q : ParseState) × (apply_entry e (record { tokens = ts; values = vs }) ≡ ok q)
    × IsTyped q
    × (length q.tokens < length ts)
    × (0 < length q.tokens)

Reduced-three :
    (e : Entry) (t u w x : Token) (ts : List Token) (vs : List TokenValue)
    → IsTypedStack (t ∷ u ∷ w ∷ ts) vs
    → ((a b c : TokenValue) (rest : List TokenValue)
        → HasType t a
        → HasType u b
        → HasType w c
        → (v : TokenValue) × HasType x v
          × (apply_entry e (record { tokens = t ∷ u ∷ w ∷ ts; values = a ∷ b ∷ c ∷ rest })
              ≡ ok (record { tokens = x ∷ ts; values = v ∷ rest })))
    → Reduced e (t ∷ u ∷ w ∷ ts) vs
Reduced-three e t u w x ts vs h f =
    let (a, b, c, rest, eq, ha, hb, hc, hr) = typed_three t u w ts vs h in
    let (v, hv, run) = f a b c rest ha hb hc in
    rw eq (record { tokens = x ∷ ts; values = v ∷ rest }, run, (hv, hr), omega arith, omega arith)

abbrev plain_check : (c : Check) → HasType check_token (check c)
plain_check c = (c, refl)

append_cons :
    (cs : Checks) (x : Check) → (c : Check) × (ds : Checks) × (append_check cs x ≡ cons c ds)
unfolding append_check
append_cons nil x = (x, nil, refl)
append_cons (cons c cs) x = (c, append_check cs x, refl)

or_typed : (cs : Checks) (x : Check) → HasType or_expr (check (or_check (append_check cs x)))
or_typed cs x = let (c, ds, e) = append_cons cs x in (c, ds, ap (λ y. check (or_check y)) e)

reduce_typed_entry :
    (e : Entry) (ts : List Token) (vs : List TokenValue)
    → IsTypedStack (key e ++ ts) vs
    → Reduced e (key e ++ ts) vs
unfolding apply_entry
reduce_typed_entry wrap_check ts vs h =
    Reduced-three wrap_check rparen check_token lparen check_token ts vs h
      λ a b c rest ha hb hc. (check (hb.0), plain_check hb.0, ground (arith, hb.1))
reduce_typed_entry wrap_and ts vs h =
    Reduced-three wrap_and rparen and_expr lparen check_token ts vs h
      λ a b c rest ha hb hc. (check (and_check hb.0), plain_check _, ground (arith, hb.1))
reduce_typed_entry wrap_or ts vs h =
    Reduced-three wrap_or rparen or_expr lparen check_token ts vs h λ a b c rest ha hb hc.
      (check (or_check (cons hb.0 hb.1)), plain_check _, ground (arith, hb.2))
reduce_typed_entry check_and_check ts vs h =
    Reduced-three check_and_check check_token and_token check_token and_expr ts vs h
      λ a b c rest ha hb hc.
        (check (and_check (cons hc.0 (cons ha.0 nil))), (_, refl), ground (arith, ha.1, hc.1))
reduce_typed_entry or_and_check ts vs h =
    Reduced-three or_and_check check_token and_token or_expr or_expr ts vs h λ a b c rest ha hb hc.
      let popped = pop_from hc.0 hc.1 in
      (
        check (or_check (append_check popped.0 (join_and popped.1 ha.0))),
        or_typed popped.0 (join_and popped.1 ha.0),
        ground (arith, ha.1, hc.2),
      )
reduce_typed_entry and_and_check ts vs h =
    Reduced-three and_and_check check_token and_token and_expr and_expr ts vs h
      λ a b c rest ha hb hc.
        (check (and_check (append_check hc.0 ha.0)), (_, refl), ground (arith, ha.1, hc.1))
reduce_typed_entry check_or_check ts vs h =
    Reduced-three check_or_check check_token or_token check_token or_expr ts vs h
      λ a b c rest ha hb hc.
        (check (or_check (cons hc.0 (cons ha.0 nil))), (_, _, refl), ground (arith, ha.1, hc.1))
reduce_typed_entry and_or_check ts vs h =
    Reduced-three and_or_check check_token or_token and_expr or_expr ts vs h λ a b c rest ha hb hc.
      (
        check (or_check (cons (and_check hc.0) (cons ha.0 nil))),
        (_, _, refl),
        ground (arith, ha.1, hc.1),
      )
reduce_typed_entry or_or_check ts vs h =
    Reduced-three or_or_check check_token or_token or_expr or_expr ts vs h λ a b c rest ha hb hc. (
      check (or_check (append_check (cons hc.0 hc.1) ha.0)),
      (hc.0, append_check hc.1 ha.0, refl),
      ground (arith, ha.1, hc.2),
    )
reduce_typed_entry not_check_entry ts vs h =
    let (a, b, rest, eq, ha, hb, hr) = typed_two check_token not_token ts vs h in
    rw eq (
      record { tokens = check_token ∷ ts; values = check (not_check ha.0) ∷ rest },
      ground (arith, ha.1),
      (plain_check (not_check ha.0), hr),
      omega arith,
      omega arith,
    )

reduce_typed_fit :
    (e : Entry) (p : ParseState)
    → has_suffix p.tokens (key e) ≡ true
    → IsTyped p
    → Reduced e p.tokens p.values
reduce_typed_fit e p fit h =
    let (rest, eq) = has_suffix_split p.tokens (key e) fit in
    subst (λ ts. IsTypedStack ts p.values → Reduced e ts p.values) (sym eq)
      (reduce_typed_entry e rest p.values) h

-- The state that a call is bound to return.
abbrev pub Returns : Outcome ParseState → Type 0
Returns m = (q : ParseState) × (m ≡ ok q) × IsTyped q × (0 < length q.tokens)

reduce-Returns :
    (f : ℕ) (p : ParseState)
    → IsTyped p
    → 0 < length p.tokens
    → length p.tokens < f
    → Returns (reduce f all_entries p)
unfolding reduce_by
reduce-Returns zero p h pos l = elim l [ ]
reduce-Returns (suc f) p h pos l = elim (Option-cases (first_fit all_entries p.tokens)) [
  | inl none_fits ↦
      (p, reduce_step f p ∙ ap (λ o. reduce_by (reduce f all_entries) o p) none_fits, h, pos)
  | inr (e, fit) ↦
      let (q, run, typed, less, some_left) =
        reduce_typed_fit e p (first_fit-fits all_entries p.tokens e fit) h in
      let (s, again, s_typed, s_left) = reduce-Returns f q typed some_left (omega arith) in
      (
        s,
        reduce_step f p
            ∙ (ap (λ o. reduce_by (reduce f all_entries) o p) fit
                ∙ (ap (λ m. m >>= reduce f all_entries) run ∙ again)),
        s_typed,
        s_left,
      )
]

abbrev pub AllTyped : List TokenPair → Type 0
AllTyped [] = Unit
AllTyped ((t, v) ∷ tps) = HasType t v × AllTyped tps

shift-Returns :
    (t : Token) (v : TokenValue) (p : ParseState)
    → HasType t v
    → IsTyped p
    → Returns (shift all_entries (t, v) p)
unfolding shift
shift-Returns t v p ht h =
    reduce-Returns (suc (suc (length p.tokens))) (push t v p) (ht, h) (omega arith) (omega arith)

pub shift_all-Returns :
    (tps : List TokenPair) (p : ParseState)
    → AllTyped tps
    → IsTyped p
    → (q : ParseState) × (shift_all all_entries tps p ≡ ok q) × IsTyped q
unfolding shift_all
shift_all-Returns [] p ht h = (p, refl, h)
shift_all-Returns ((t, v) ∷ tps) p ht h =
    let (q, run, typed, left) = shift-Returns t v p ht.0 h in
    let (s, again, s_typed) = shift_all-Returns tps q ht.1 typed in
    (s, ap (λ m. m >>= shift_all all_entries tps) run ∙ again, s_typed)
