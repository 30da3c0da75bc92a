-- ===== src/Policy/Parse/Grammar.antt =====
-- The rules that the policy language means: `not` binds tighter than `and`, and `and` tighter than
-- `or`; their tokens, and their value from left to right with short circuits.
use multi_cloud.Common.{Bool, true, false, not, List, ◌∷◌, Outcome, ok, ◌>>=◌, if◌then◌else◌, codes}
use multi_cloud.Policy.Check.{Check}
use multi_cloud.Policy.Token.{
  and_token, or_token, not_token, check_token, word, check, TokenPair, open_paren, close_paren,
}

mutual
  pub data Disj : Type 0 where
    just : Conj → Disj
    or : Disj → Conj → Disj

  pub data Conj : Type 0 where
    only : Factor → Conj
    and : Conj → Factor → Conj

  pub data Factor : Type 0 where
    leaf : Check → Factor
    negate : Factor → Factor
    group : Disj → Factor

-- The tokens of a rule, with those that follow it.
unfoldable mutual
  pub print_disj : Disj → List TokenPair → List TokenPair
  print_disj (just c) rest = print_conj c rest
  print_disj (or d c) rest = print_disj d ((or_token, word (codes "or")) ∷ print_conj c rest)

  pub print_conj : Conj → List TokenPair → List TokenPair
  print_conj (only f) rest = print_factor f rest
  print_conj (and c f) rest = print_conj c ((and_token, word (codes "and")) ∷ print_factor f rest)

  pub print_factor : Factor → List TokenPair → List TokenPair
  print_factor (leaf c) rest = (check_token, check c) ∷ rest
  print_factor (negate f) rest = (not_token, word (codes "not")) ∷ print_factor f rest
  print_factor (group d) rest = open_paren ∷ print_disj d (close_paren ∷ rest)

-- The second operand runs only if the first does not decide.
abbrev pub short_and : Outcome Bool → Outcome Bool → Outcome Bool
short_and m n = m >>= λ b. if b then n else ok false

abbrev pub short_or : Outcome Bool → Outcome Bool → Outcome Bool
short_or m n = m >>= λ b. if b then ok true else n

abbrev pub negated : Outcome Bool → Outcome Bool
negated m = m >>= λ b. ok (not b)

-- The value of a rule, given that of every check in it.
unfoldable mutual
  pub disj_value : (Check → Outcome Bool) → Disj → Outcome Bool
  disj_value run (just c) = conj_value run c
  disj_value run (or d c) = short_or (disj_value run d) (conj_value run c)

  pub conj_value : (Check → Outcome Bool) → Conj → Outcome Bool
  conj_value run (only f) = factor_value run f
  conj_value run (and c f) = short_and (conj_value run c) (factor_value run f)

  pub factor_value : (Check → Outcome Bool) → Factor → Outcome Bool
  factor_value run (leaf c) = run c
  factor_value run (negate f) = negated (factor_value run f)
  factor_value run (group d) = disj_value run d
