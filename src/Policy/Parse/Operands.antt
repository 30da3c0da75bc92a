-- ===== src/Policy/Parse/Operands.antt =====
-- api/pkg/policy/parser.go: what stands on the stack for a factor, a conjunction and a disjunction.
use mathlib.Core.Path.{ap₂}
use multi_cloud.Common.{◌≡◌, refl, ap, ◌∙◌, Bool, List, ◌∷◌, Text, codes, Outcome}
use multi_cloud.Policy.Check.{
  Check, not_check, and_check, or_check, Checks, nil, cons, append_check, new_and_check,
}
use multi_cloud.Policy.Exec.{Request, exec_with, exec_any}
use multi_cloud.Policy.Token.{
  lparen, rparen, and_token, not_token, check_token, and_expr, or_expr, TokenValue, word, check,
  TokenPair, close_paren,
}
use multi_cloud.Policy.Parse.{ParseState, join_and, shift_all}
use multi_cloud.Policy.Parse.Order.{all_entries}
use multi_cloud.Policy.Parse.Settle.{push, Settles, shift_all-Settles}
use multi_cloud.Policy.Parse.Reductions.{
  Settles-not, Settles-and, Settles-extend_and, Settles-wrap_check, Settles-wrap_and,
  Settles-wrap_or, IsQuiet-Settles, IsStart, IsStart-Settles,
}
use multi_cloud.Policy.Parse.Grammar.{
  Disj, Conj, only, and, Factor, leaf, negate, group, print_disj, print_conj, print_factor,
  short_and, short_or, negated, disj_value, conj_value, factor_value,
}
use multi_cloud.Policy.Parse.Meaning.{exec_all-append, exec_any-append, exec-new_and, exec-join_and}

-- A value that depends on how the checks run.
abbrev pub Value : Type 0
Value = (Check → Outcome Bool) → Outcome Bool

-- The check has the value, whatever it is run with.
abbrev pub Means : Check → Value → Type 0
Means c m = (r : Request) (call : Text → Outcome Bool) → exec_with r call c ≡ m (exec_with r call)

abbrev pub MeansAny : Checks → Value → Type 0
MeansAny cs m =
    (r : Request) (call : Text → Outcome Bool) → exec_any r call cs ≡ m (exec_with r call)

abbrev pub factor_means : Factor → Value
factor_means f run = factor_value run f

abbrev pub conj_means : Conj → Value
conj_means c run = conj_value run c

abbrev pub disj_means : Disj → Value
disj_means d run = disj_value run d

-- What stands on the stack for a conjunction, and for a disjunction.
pub data ConjOperand (m : Value) : Type 0 where
  one : (c : Check) → Means c m → ConjOperand m
  all : (cs : Checks) → Means (and_check cs) m → ConjOperand m

pub data DisjOperand (m : Value) : Type 0 where
  conj : ConjOperand m → DisjOperand m
  any : (cs : Checks) → Means (or_check cs) m → DisjOperand m

abbrev pub on_conj : {m : Value} → ConjOperand m → ParseState → ParseState
on_conj (one c h) p = push check_token (check c) p
on_conj (all cs h) p = push and_expr (check (and_check cs)) p

abbrev pub on_disj : {m : Value} → DisjOperand m → ParseState → ParseState
on_disj (conj o) p = on_conj o p
on_disj (any cs h) p = push or_expr (check (or_check cs)) p

-- Shifting the tokens takes one stack to another, whatever tokens follow.
abbrev pub Shifts : (List TokenPair → List TokenPair) → ParseState → ParseState → Type 0
Shifts print p q =
    (rest : List TokenPair) → shift_all all_entries (print rest) p ≡ shift_all all_entries rest q

-- A factor is shifted to a check, with the reductions that this makes.
abbrev pub FactorShifts : Factor → ParseState → Type 0
FactorShifts f p =
    (c : Check) × Means c (factor_means f)
    × ((q : ParseState) → Settles (push check_token (check c) p) q → Shifts (print_factor f) p q)

abbrev pub ConjShifts : Conj → ParseState → Type 0
ConjShifts c p = (o : ConjOperand (conj_means c)) × Shifts (print_conj c) p (on_conj o p)

abbrev pub DisjShifts : Disj → ParseState → Type 0
DisjShifts d p = (o : DisjOperand (disj_means d)) × Shifts (print_disj d) p (on_disj o p)

-- Behind an `or`: the rules before the last one have the value of the operand before it.
pub record OrShifts (c : Conj) (m : Value) (from p : ParseState) : Type 0 where
  pub before : Checks
  pub last : Check
  pub before_means : MeansAny before m
  pub last_means : Means last (conj_means c)
  pub shifts :
      Shifts (print_conj c) from (push or_expr (check (or_check (append_check before last))) p)

-- The steps of the induction.
pub leaf_shifts : (c : Check) (p : ParseState) → FactorShifts (leaf c) p
unfolding print_factor factor_value
leaf_shifts c p =
    (c, (λ r call. refl), λ q s rest. shift_all-Settles check_token (check c) rest p q s)

abbrev pub not_word : TokenValue
not_word = word (codes "not")

pub negate_shifts :
    (f : Factor) (p : ParseState)
    → FactorShifts f (push not_token not_word p)
    → FactorShifts (negate f) p
unfolding print_factor factor_value exec_with
negate_shifts f p (c, means, shifts) = (
  not_check c,
  (λ r call. ap negated (means r call)),
  λ q s rest.
      shift_all-Settles not_token not_word (print_factor f rest) p _
        (IsQuiet-Settles not_token not_word p tt)
      ∙ shifts q (Settles-not c not_word p q s) rest,
)

unfoldable pub operand_check : {m : Value} → DisjOperand m → Check
operand_check (conj (one c h)) = c
operand_check (conj (all cs h)) = and_check cs
operand_check (any cs h) = or_check cs

pub operand-Means : {m : Value} (o : DisjOperand m) → Means (operand_check o) m
unfolding operand_check
operand-Means (conj (one c h)) = h
operand-Means (conj (all cs h)) = h
operand-Means (any cs h) = h

pub Settles-wrap :
    {m : Value} (o : DisjOperand m) (u v : TokenValue) (p q : ParseState)
    → Settles (push check_token (check (operand_check o)) p) q
    → Settles (push rparen u (on_disj o (push lparen v p))) q
unfolding operand_check
Settles-wrap (conj (one c h)) u v p q s = Settles-wrap_check c u v p q s
Settles-wrap (conj (all cs h)) u v p q s = Settles-wrap_and (and_check cs) u v p q s
Settles-wrap (any cs h) u v p q s = Settles-wrap_or (or_check cs) u v p q s

pub group_shifts :
    (d : Disj) (p : ParseState)
    → DisjShifts d (push lparen (word (codes "(")) p)
    → FactorShifts (group d) p
unfolding print_factor factor_value
group_shifts d p (o, shifts) = (
  operand_check o,
  operand-Means o,
  λ q s rest.
      shift_all-Settles lparen (word (codes "(")) (print_disj d (close_paren ∷ rest)) p _
        (IsQuiet-Settles lparen (word (codes "(")) p tt)
      ∙ (shifts (close_paren ∷ rest)
          ∙ shift_all-Settles rparen (word (codes ")")) rest _ q
              (Settles-wrap o (word (codes ")")) (word (codes "(")) p q s)),
)

pub only_shifts :
    (f : Factor) (p : ParseState) → IsStart p.tokens → FactorShifts f p → ConjShifts (only f) p
unfolding print_conj conj_value
only_shifts f p start (c, means, shifts) =
    (one c means, shifts _ (IsStart-Settles (check c) p start))

abbrev pub and_word : TokenValue
and_word = word (codes "and")

abbrev pub and_value : Value → Value → Value
and_value m k run = short_and (m run) (k run)

abbrev pub or_value : Value → Value → Value
or_value m k run = short_or (m run) (k run)

pub new_and-Means :
    (c d : Check) (m k : Value) → Means c m → Means d k → Means (new_and_check c d) (and_value m k)
new_and-Means c d m k h e r call = exec-new_and r call c d ∙ ap₂ short_and (h r call) (e r call)

pub append_and-Means :
    (cs : Checks) (d : Check) (m k : Value)
    → Means (and_check cs) m
    → Means d k
    → Means (and_check (append_check cs d)) (and_value m k)
unfolding exec_with
append_and-Means cs d m k h e r call =
    exec_all-append r call cs d ∙ ap₂ short_and (h r call) (e r call)

pub join_and-Means :
    (c d : Check) (m k : Value) → Means c m → Means d k → Means (join_and c d) (and_value m k)
join_and-Means c d m k h e r call = exec-join_and r call c d ∙ ap₂ short_and (h r call) (e r call)

pub append_or-Means :
    (cs : Checks) (d : Check) (m k : Value)
    → MeansAny cs m
    → Means d k
    → Means (or_check (append_check cs d)) (or_value m k)
unfolding exec_with
append_or-Means cs d m k h e r call =
    exec_any-append r call cs d ∙ ap₂ short_or (h r call) (e r call)

abbrev pub AndSettles : {m : Value} → ConjOperand m → Value → Check → ParseState → Type 0
AndSettles {m} o k f p =
    (o' : ConjOperand (and_value m k)) × Settles
      (push check_token (check f) (push and_token and_word (on_conj o p))) (on_conj o' p)

pub and_settles :
    {m : Value} (o : ConjOperand m) (k : Value) (f : Check) (p : ParseState)
    → Means f k
    → AndSettles o k f p
unfolding new_and_check append_check
and_settles {m} (one c h) k f p e = (
  all (cons c (cons f nil)) (new_and-Means c f m k h e),
  Settles-and f c and_word p _ (IsQuiet-Settles and_expr _ p tt),
)
and_settles {m} (all cs h) k f p e = (
  all (append_check cs f) (append_and-Means cs f m k h e),
  Settles-extend_and f cs and_word p _ (IsQuiet-Settles and_expr _ p tt),
)

pub and_shifts :
    (c : Conj) (f : Factor) (p : ParseState)
    → ConjShifts c p
    → ((q : ParseState) → FactorShifts f q)
    → ConjShifts (and c f) p
unfolding print_conj conj_value
and_shifts c f p (o, shifts) factor =
    let q = push and_token and_word (on_conj o p) in
    let (d, means, more) = factor q in
    let (o', settles) = and_settles o (factor_means f) d p means in
    (
      o',
      λ rest.
          shifts ((and_token, and_word) ∷ print_factor f rest)
          ∙ (shift_all-Settles and_token and_word (print_factor f rest) (on_conj o p) q
                (IsQuiet-Settles and_token and_word (on_conj o p) tt)
              ∙ more (on_conj o' p) settles rest),
    )
