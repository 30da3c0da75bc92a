-- ===== src/Policy/Parse/Correct.antt =====
-- api/pkg/policy/parser.go: the parser builds the check that the rule means.
use multi_cloud.Common.{Bool, ◌≡◌, refl, ap, ◌∙◌, List, [], ◌∷◌, Text, codes, Outcome, ok, ◌>>=◌}
use multi_cloud.Policy.Check.{
  Check, and_check, or_check, Checks, nil, cons, append_check, new_or_check,
}
use multi_cloud.Policy.Exec.{Request, exec_with, exec_any}
use multi_cloud.Policy.Token.{and_token, or_token, check_token, or_expr, TokenValue, word, check}
use multi_cloud.Policy.Parse.{
  Entry, ParseState, join_and, shift_all, new_parse_state, result, parse_tokens,
}
use multi_cloud.Policy.Parse.Order.{IsOrder, shift_all-order}
use multi_cloud.Policy.Parse.Settle.{push, Settles, shift_all-Settles}
use multi_cloud.Policy.Parse.Reductions.{
  Settles-or, Settles-and_or, Settles-extend_or, Settles-mix, IsQuiet-Settles, IsStart,
}
use multi_cloud.Policy.Parse.Grammar.{
  Disj, just, or, Conj, only, and, Factor, leaf, negate, group, print_disj, print_conj,
  print_factor, disj_value, conj_value,
}
use multi_cloud.Policy.Parse.Meaning.{short_or-ok}
use multi_cloud.Policy.Parse.Operands.{
  Value, Means, MeansAny, factor_means, conj_means, disj_means, one, all, DisjOperand, conj, any,
  on_disj, Shifts, FactorShifts, ConjShifts, DisjShifts, OrShifts, leaf_shifts, negate_shifts,
  operand_check, operand-Means, group_shifts, only_shifts, and_word, join_and-Means,
  append_or-Means, and_shifts,
}

abbrev or_word : TokenValue
or_word = word (codes "or")

single_MeansAny : (c : Check) (m : Value) → Means c m → MeansAny (cons c nil) m
unfolding exec_any
single_MeansAny c m h r call = short_or-ok (exec_with r call c) ∙ h r call

-- The stack behind an `or`.
abbrev behind_or : {m : Value} → DisjOperand m → ParseState → ParseState
behind_or o p = push or_token or_word (on_disj o p)

-- The first factor behind an `or` makes an or-expression of it and the operand.
record OrSettles {m : Value} (o : DisjOperand m) (f : Check) (p : ParseState) : Type 0 where
  before : Checks
  before_means : MeansAny before m
  settles :
      Settles
        (push check_token (check f) (behind_or o p))
        (push or_expr (check (or_check (append_check before f))) p)

or_settles : {m : Value} (o : DisjOperand m) (f : Check) (p : ParseState) → OrSettles o f p
unfolding new_or_check append_check
or_settles {m} (conj (one c h)) f p = record {
  before = cons c nil;
  before_means = single_MeansAny c m h;
  settles = Settles-or f c or_word p _ (IsQuiet-Settles or_expr _ p tt);
}
or_settles {m} (conj (all cs h)) f p = record {
  before = cons (and_check cs) nil;
  before_means = single_MeansAny (and_check cs) m h;
  settles = Settles-and_or f (and_check cs) or_word p _ (IsQuiet-Settles or_expr _ p tt);
}
or_settles (any cs h) f p = record {
  before = cs;
  before_means = unfold exec_with in h;
  settles = Settles-extend_or f cs or_word p _ (IsQuiet-Settles or_expr _ p tt);
}

or_only_shifts :
    {m : Value} (o : DisjOperand m) (f : Factor) (p : ParseState)
    → FactorShifts f (behind_or o p)
    → OrShifts (only f) m (behind_or o p) p
unfolding print_conj conj_value
or_only_shifts o f p (c, means, shifts) =
    let s = or_settles o c p in
    record {
      before = s.before;
      last = c;
      before_means = s.before_means;
      last_means = means;
      shifts = shifts _ s.settles;
    }

or_and_shifts :
    {m : Value} (c : Conj) (f : Factor) (from p : ParseState)
    → OrShifts c m from p
    → ((q : ParseState) → FactorShifts f q)
    → OrShifts (and c f) m from p
unfolding print_conj conj_value
or_and_shifts c f from p s factor =
    let stack = push or_expr (check (or_check (append_check s.before s.last))) p in
    let (d, means, more) = factor (push and_token and_word stack) in
    record {
      before = s.before;
      last = join_and s.last d;
      before_means = s.before_means;
      last_means = join_and-Means s.last d (conj_means c) (factor_means f) s.last_means means;
      shifts = λ rest.
          s.shifts ((and_token, and_word) ∷ print_factor f rest)
          ∙ (shift_all-Settles and_token and_word (print_factor f rest) stack _
                (IsQuiet-Settles and_token and_word stack tt)
              ∙ more _ (Settles-mix d s.last s.before and_word p _ (IsQuiet-Settles or_expr _ p tt))
                  rest);
    }

just_shifts : (c : Conj) (p : ParseState) → ConjShifts c p → DisjShifts (just c) p
unfolding print_disj disj_value
just_shifts c p (o, shifts) = (conj o, shifts)

or_shifts :
    (d : Disj) (c : Conj) (p : ParseState) (o : DisjOperand (disj_means d))
    → Shifts (print_disj d) p (on_disj o p)
    → OrShifts c (disj_means d) (behind_or o p) p
    → DisjShifts (or d c) p
unfolding print_disj disj_value
or_shifts d c p o shifts s = (
  any (append_check s.before s.last)
      (append_or-Means s.before s.last (disj_means d) (conj_means c) s.before_means s.last_means),
  λ rest.
      shifts ((or_token, or_word) ∷ print_conj c rest)
      ∙ (shift_all-Settles or_token or_word (print_conj c rest) (on_disj o p) _
            (IsQuiet-Settles or_token or_word (on_disj o p) tt)
          ∙ s.shifts rest),
)

mutual
  factor_shifts : (f : Factor) (p : ParseState) → FactorShifts f p
  factor_shifts (leaf c) p = leaf_shifts c p
  factor_shifts (negate f) p = negate_shifts f p (factor_shifts f _)
  factor_shifts (group d) p = group_shifts d p (disj_shifts d _ tt)

  conj_shifts : (c : Conj) (p : ParseState) → IsStart p.tokens → ConjShifts c p
  conj_shifts (only f) p start = only_shifts f p start (factor_shifts f p)
  conj_shifts (and c f) p start = and_shifts c f p (conj_shifts c p start) (factor_shifts f)

  conj-OrShifts :
      (c : Conj) (m : Value) (o : DisjOperand m) (p : ParseState) → OrShifts c m (behind_or o p) p
  conj-OrShifts (only f) m o p = or_only_shifts o f p (factor_shifts f _)
  conj-OrShifts (and c f) m o p = or_and_shifts c f _ p (conj-OrShifts c m o p) (factor_shifts f)

  disj_shifts : (d : Disj) (p : ParseState) → IsStart p.tokens → DisjShifts d p
  disj_shifts (just c) p start = just_shifts c p (conj_shifts c p start)
  disj_shifts (or d c) p start =
      let (o, shifts) = disj_shifts d p start in
      or_shifts d c p o shifts (conj-OrShifts c (disj_means d) o p)

result-on_disj :
    {m : Value} (o : DisjOperand m) → result (on_disj o new_parse_state) ≡ ok (operand_check o)
unfolding result operand_check
result-on_disj (conj (one c h)) = refl
result-on_disj (conj (all cs h)) = refl
result-on_disj (any cs h) = refl

-- The tokens of a rule are parsed to a check, whatever order the range over the map takes; and
-- running this check, whatever the request and whatever rule checks do, has the outcome that the
-- rule means: `not` binds tighter than `and`, `and` tighter than `or`, and operands run from left
-- to right until one decides.
pub parse_tokens-print :
    (order : List Entry) (d : Disj)
    → IsOrder order
    → (c : Check) × (parse_tokens order (print_disj d []) ≡ ok c)
      × ((r : Request) (call : Text → Outcome Bool)
          → exec_with r call c ≡ disj_value (exec_with r call) d)
unfolding parse_tokens
parse_tokens-print order d h =
    let (o, shifts) = disj_shifts d new_parse_state tt in
    (
      operand_check o,
      ap (λ m. m >>= result)
            (shift_all-order order h (print_disj d []) new_parse_state
              ∙ (shifts [] ∙ unfold shift_all in refl))
          ∙ result-on_disj o,
      operand-Means o,
    )
