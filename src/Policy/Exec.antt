-- ===== src/Policy/Exec.antt =====
-- api/pkg/policy/checks.go: `Exec` of every check. The call that a rule check makes of another rule
-- is the only one that need not return: `exec_rule` takes the number of nested ones.
use multi_cloud.Common.{
  ℕ, zero, suc, Bool, true, false, not, none, some, List, [], ◌∷◌, Option, Text, codes, text_eq,
  to_lower, contained, split, Outcome, ok, panic, out_of_fuel, ◌>>=◌, ltb, ◌==◌, ◌&&◌, ◌||◌, ◌-◌,
  if◌then◌else◌, length, take, drop,
}
use multi_cloud.Policy.Check.{
  TextMap, lookup, Check, false_check, true_check, not_check, and_check, or_check, rule_check,
  role_check, generic_check, Checks, nil, cons, Value, object, texts, Fields, has_no_field,
  lookup_field, find_in_map, formatted, no_target, key_work_formatter,
}

-- The loop over the roles.
unfoldable pub has_role : Text → List Text → Bool
unfolding to_lower
has_role match [] = false
has_role match (role ∷ roles) = text_eq (to_lower match) (to_lower role) || has_role match roles

-- `roles.([]string)`: any other value panics.
unfoldable pub match_roles : Text → Option Value → Outcome Bool
unfolding has_role
match_roles match none = ok false
match_roles match (some (texts roles)) = ok (has_role match roles)
match_roles match (some _) = panic

-- `Exec` of a `RoleCheck`.
unfoldable pub exec_role : TextMap Text → Fields → Text → Outcome Bool
unfolding key_work_formatter match_roles lookup_field
exec_role target cred match = key_work_formatter target match >>= λ m. elim m [
  | no_target ↦ ok false
  | formatted s ↦ match_roles s (lookup_field (codes "roles") cred)
]

-- The two letters at the ends of a text of two letters or more are the same quote.
abbrev pub last_or : ℕ → Text → ℕ
last_or c [] = c
last_or c (d ∷ s) = last_or d s

unfoldable pub is_quoted : Text → Bool
is_quoted [] = false
is_quoted (c ∷ s) = ltb 0 (length s) && last_or c s == c && (c == b'"' || c == 39)

-- `expr[1 : len(expr)-1]`.
unfoldable pub unquote : Text → Text
unquote s = take (length s - 2) (drop 1 s)

-- `simpleLiteral`: `expr[0]` is out of range for an empty text; `none` is its error.
unfoldable pub simple_literal : Text → Outcome (Option Text)
unfolding is_quoted unquote contained to_lower
simple_literal [] = panic
simple_literal (c ∷ s) =
    if is_quoted (c ∷ s)
    then ok (some (unquote (c ∷ s)))
    else if contained (to_lower (c ∷ s)) (codes "true" ∷ codes "false" ∷ [])
    then ok (some (to_lower (c ∷ s)))
    else ok none

-- `Exec` of a `GenericCheck`.
unfoldable pub exec_generic : TextMap Text → Fields → Text → Text → Outcome Bool
unfolding key_work_formatter simple_literal find_in_map split to_lower
exec_generic target cred kind match = key_work_formatter target (to_lower match) >>= λ m. elim m [
  | no_target ↦ ok false
  | formatted s ↦ simple_literal kind >>= λ l. elim l [
    | some test_value ↦ ok (text_eq (to_lower s) test_value)
    | none ↦ if has_no_field cred then ok false else find_in_map (split b'.' kind) s (object cred)
  ]
]

-- What a check is run with: the target, the credentials, and the enforcer's rules.
pub record Request : Type 0 where
  pub target : TextMap Text
  pub cred : Fields
  pub rules : TextMap Check

unfoldable mutual
  unfolding exec_role exec_generic

  -- `check(rule, ...)`, with the call that a rule check makes; the loops of `Exec` of an `AndCheck`
  -- and of an `OrCheck` stop at the first rule that decides.
  pub exec_with : Request → (Text → Outcome Bool) → Check → Outcome Bool
  exec_with r call false_check = ok false
  exec_with r call true_check = ok true
  exec_with r call (not_check c) = exec_with r call c >>= λ b. ok (not b)
  exec_with r call (and_check cs) = exec_all r call cs
  exec_with r call (or_check cs) = exec_any r call cs
  exec_with r call (rule_check kind match) = call match
  exec_with r call (role_check kind match) = exec_role r.target r.cred match
  exec_with r call (generic_check kind match) = exec_generic r.target r.cred kind match

  pub exec_all : Request → (Text → Outcome Bool) → Checks → Outcome Bool
  exec_all r call nil = ok true
  exec_all r call (cons c cs) =
      let rest = exec_all r call cs in exec_with r call c >>= λ b. if b then rest else ok false

  pub exec_any : Request → (Text → Outcome Bool) → Checks → Outcome Bool
  exec_any r call nil = ok false
  exec_any r call (cons c cs) =
      let rest = exec_any r call cs in exec_with r call c >>= λ b. if b then ok true else rest

abbrev pub has_no_rule : TextMap Check → Bool
has_no_rule [] = true
has_no_rule (x ∷ xs) = false

-- `check(enforcer.Rules[match], ...)`: a missing rule is a nil interface, whose method call panics.
unfoldable pub run_found : (Check → Outcome Bool) → Option Check → Outcome Bool
run_found run none = panic
run_found run (some c) = run c

-- `Exec` of a `RuleCheck`, with at most so many rule checks one within the other.
unfoldable pub exec_rule : ℕ → Request → Text → Outcome Bool
unfolding exec_with run_found lookup
exec_rule zero r match = out_of_fuel
exec_rule (suc f) r match =
    if has_no_rule r.rules
    then ok false
    else run_found (λ c. exec_with r (λ m. exec_rule f r m) c) (lookup match r.rules)

-- `check` for a whole run.
unfoldable pub exec : ℕ → Request → Check → Outcome Bool
unfolding exec_with exec_rule
exec f r = exec_with r (exec_rule f r)
