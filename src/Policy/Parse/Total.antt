-- ===== src/Policy/Parse/Total.antt =====
-- api/pkg/policy/parser.go: `parseRule` on any text.
use mathlib.Core.Path.{subst}
use multi_cloud.Common.{
  ◌≡◌, refl, sym, ap, ◌∙◌, ℕ, zero, suc, Bool, true, false, List, [], ◌∷◌, ◌++◌, none, some, Text,
  Outcome, ok, panic, ◌>>=◌, arith, ◌⊎◌, inl, inr, Bool-cases, Option-cases, replicate, is_empty,
  to_lower, if◌then◌else◌, trim_left, trim_right, length, ◌-◌, fields,
}
use multi_cloud.Policy.Check.{Check, true_check, false_check}
use multi_cloud.Policy.Token.{
  Token, check_token, and_expr, or_expr, TokenValue, word, check, TokenPair, keyword, word_token,
  tokenize_field, tokenize_fields, parse_tokenize, open_paren, close_paren,
}
use multi_cloud.Policy.Exec.{is_quoted}
use multi_cloud.Policy.Parse.{
  Entry, ParseState, shift_all, new_parse_state, result, parse_tokens, parse_rule,
}
use multi_cloud.Policy.Parse.Order.{IsOrder, all_entries, first_fit, shift_all-order}
use multi_cloud.Policy.Parse.Settle.{push, Settles-done, shift_all-Settles}
use multi_cloud.Policy.Parse.Types.{AllTyped, HasType, IsTypedStack, shift_all-Returns}

AllTyped-append : (xs ys : List TokenPair) → AllTyped xs → AllTyped ys → AllTyped (xs ++ ys)
AllTyped-append [] ys hx hy = hy
AllTyped-append (x ∷ xs) ys hx hy = (hx.0, AllTyped-append xs ys hx.1 hy)

replicate-AllTyped : (n : ℕ) (tp : TokenPair) → HasType tp.0 tp.1 → AllTyped (replicate n tp)
replicate-AllTyped zero tp h = tt
replicate-AllTyped (suc n) tp h = (h, replicate-AllTyped n tp h)

keyword-HasType : (s : Text) (t : Token) (v : Text) → keyword s ≡ some t → HasType t (word v)
unfolding keyword
keyword-HasType s check_token v h = absurd (ground arith)
keyword-HasType s and_expr v h = absurd (ground arith)
keyword-HasType s or_expr v h = absurd (ground arith)
keyword-HasType s _ v h = (v, refl)

word_token-AllTyped : (tok clean : Text) → AllTyped (word_token tok clean)
unfolding word_token
word_token-AllTyped tok clean = elim (Option-cases (keyword (to_lower clean))) [
  | inr (t, e) ↦ rw (e, word_token) (keyword-HasType (to_lower clean) t clean e, tt)
  | inl e ↦ elim (Bool-cases (is_empty clean)) [
    | inl y ↦ rw (e, y, word_token) tt
    | inr n ↦ elim (Bool-cases (is_quoted tok)) [
      | inl q ↦ rw (e, n, q, word_token) ((_, refl), tt)
      | inr m ↦ rw (e, n, m, word_token) ((_, refl), tt)
    ]
  ]
]

either-AllTyped :
    (b : Bool) (xs ys : List TokenPair)
    → AllTyped xs
    → AllTyped ys
    → AllTyped (if b then xs else ys)
either-AllTyped true xs ys hx hy = hx
either-AllTyped false xs ys hx hy = hy

tokenize_field-AllTyped : (tok : Text) → AllTyped (tokenize_field tok)
unfolding tokenize_field
tokenize_field-AllTyped tok =
    let tok' = trim_left b'(' tok in
    let clean = trim_right b')' tok' in
    let opening = replicate-AllTyped (length tok - length tok') open_paren (_, refl) in
    either-AllTyped (is_empty tok') _ _ opening (
      AllTyped-append _ _ opening (
        AllTyped-append _ _ (word_token-AllTyped tok' clean)
          (replicate-AllTyped (length tok' - length clean) close_paren (_, refl))))

tokenize_fields-AllTyped : (toks : List Text) → AllTyped (tokenize_fields toks)
unfolding tokenize_fields
tokenize_fields-AllTyped [] = tt
tokenize_fields-AllTyped (tok ∷ toks) =
    AllTyped-append _ _ (tokenize_field-AllTyped tok) (tokenize_fields-AllTyped toks)

parse_tokenize-AllTyped : (rule : Text) → AllTyped (parse_tokenize rule)
unfolding parse_tokenize
parse_tokenize-AllTyped rule = tokenize_fields-AllTyped (fields rule)

-- The stack of one token, which is no check.
abbrev pub OneWord : ParseState → Type 0
OneWord p = (t : Token) × (s : Text) × (p ≡ record { tokens = t ∷ []; values = word s ∷ [] })

abbrev Ends : Outcome Check → ParseState → Type 0
Ends m q = ((c : Check) × (m ≡ ok c)) ⊎ ((m ≡ panic) × OneWord q)

result-Ends :
    (ts : List Token) (vs : List TokenValue)
    → IsTypedStack ts vs
    → Ends (result (record { tokens = ts; values = vs })) (record { tokens = ts; values = vs })
unfolding result
result-Ends [] [] h = inl (false_check, refl)
result-Ends [] (v ∷ vs) h = absurd h
result-Ends (t ∷ ts) [] h = absurd h
result-Ends (t ∷ []) (check c ∷ []) h = inl (c, refl)
result-Ends (t ∷ []) (word s ∷ []) h = inr (refl, (t, s, refl))
result-Ends (t ∷ u ∷ ts) (v ∷ []) h = absurd h.1
result-Ends (t ∷ []) (v ∷ w ∷ vs) h = absurd h.1
result-Ends (t ∷ u ∷ ts) (v ∷ w ∷ vs) h = inl (false_check, refl)

parse_tokens-Ends :
    (order : List Entry) (tps : List TokenPair)
    → IsOrder order
    → AllTyped tps
    → (q : ParseState) × (shift_all order tps new_parse_state ≡ ok q)
      × Ends (parse_tokens order tps) q
unfolding parse_tokens
parse_tokens-Ends order tps h typed =
    let (q, run, q_typed) = shift_all-Returns tps new_parse_state typed tt in
    let shifted = shift_all-order order h tps new_parse_state ∙ run in
    (
      q,
      shifted,
      subst (λ m. Ends m q) (sym (ap (λ m. m >>= result) shifted))
          (result-Ends q.tokens q.values q_typed),
    )

-- A key has two tokens or more.
one_token_no_fit : (t : Token) → first_fit all_entries (t ∷ []) ≡ none
unfolding first_fit
one_token_no_fit t = ground arith

one_word :
    (order : List Entry) (t : Token) (s : Text)
    → IsOrder order
    → parse_tokens order ((t, word s) ∷ []) ≡ panic
unfolding parse_tokens
one_word order t s h =
    let p = push t (word s) new_parse_state in
    ap (λ m. m >>= result)
      (shift_all-order order h ((t, word s) ∷ []) new_parse_state
        ∙ shift_all-Settles t (word s) [] new_parse_state p (Settles-done p (one_token_no_fit t)))

-- The parser ends on every text, in every order of the map, and none of its reductions panics: the
-- shifts leave a stack, and then either the call returns a check, or the assertion that the result
-- is a check panics, because the stack is one token that is no check.
pub parse_rule-ends :
    (order : List Entry) (rule : Text)
    → IsOrder order
    → (q : ParseState) × (shift_all order (parse_tokenize rule) new_parse_state ≡ ok q)
      × (((c : Check) × (parse_rule order rule ≡ ok c))
          ⊎ ((parse_rule order rule ≡ panic) × OneWord q))
unfolding parse_rule
parse_rule-ends order [] h = (new_parse_state, refl, inl (true_check, refl))
parse_rule-ends order (c ∷ s) h =
    parse_tokens-Ends order (parse_tokenize (c ∷ s)) h (parse_tokenize-AllTyped (c ∷ s))

-- A rule that is one word of the language and nothing else panics.
pub parse_rule_one_word :
    (order : List Entry) (rule : Text) (t : Token) (s : Text)
    → IsOrder order
    → parse_tokenize rule ≡ (t, word s) ∷ []
    → parse_rule order rule ≡ panic
unfolding parse_rule
parse_rule_one_word order [] t s h e = cc e
parse_rule_one_word order (c ∷ rule) t s h e = ap (parse_tokens order) e ∙ one_word order t s h
