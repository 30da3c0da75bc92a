-- ===== src/Policy/Tests.antt =====
-- api/pkg/policy: the theorems at concrete rules, files and requests.
use mathlib.Core.Path.{subst}
use multi_cloud.Common.{
  ℕ, ◌≡◌, ◌↔◌, refl, Bool, true, false, List, [], ◌∷◌, none, some, Text, codes, text_eq, Outcome,
  ok, panic, arith, ◌⊎◌, if◌then◌else◌, inl, inr, Bool-cases, text_eq_sound, some_cancel,
}
use multi_cloud.Policy.Check.{
  TextMap, lookup, Check, and_check, or_check, rule_check, role_check, generic_check, nil, cons,
  Fields, field, no_field, texts,
}
use multi_cloud.Policy.Exec.{Request, exec_with, exec}
use multi_cloud.Policy.Ranks.{NamesBelow, IsRanked}
use multi_cloud.Policy.Token.{parse_tokenize}
use multi_cloud.Policy.Parse.{
  Entry, wrap_check, wrap_and, wrap_or, check_and_check, or_and_check, and_and_check,
  check_or_check, and_or_check, or_or_check, not_check_entry, ParseState, shift_all,
  new_parse_state, parse_tokens, parse_rule,
}
use multi_cloud.Policy.Parse.Order.{IsOrder, all_entries, parse_rule-order}
use multi_cloud.Policy.Parse.Grammar.{
  Disj, just, or, only, and, leaf, negate, group, print_disj, disj_value,
}
use multi_cloud.Policy.Parse.Correct.{parse_tokens-print}
use multi_cloud.Policy.Parse.Total.{OneWord, parse_rule-ends}
use multi_cloud.Policy.Enforcer.{
  DefaultRule, Enforcer, System, Decision, new_rules, load_rules, load_policy_file, authorize,
  enforce, enforce_loaded,
}
use multi_cloud.Policy.Enforcer.Decide.{Granted, tenant_target, Answers, authorize_keystone}

-- The map visited backwards.
abbrev backwards : List Entry
backwards =
    not_check_entry ∷ or_or_check ∷ and_or_check ∷ check_or_check ∷ and_and_check ∷ or_and_check
    ∷ check_and_check ∷ wrap_or ∷ wrap_and ∷ wrap_check ∷ []

backwards-IsOrder : IsOrder backwards
backwards-IsOrder d = ground arith

abbrev admin_rule : Text
admin_rule = codes "is_admin:True or (role:admin and is_admin_project:True)"

abbrev admin_check : Check
admin_check = or_check (
    cons (generic_check (codes "is_admin") (codes "True")) (
      cons
        (and_check (
          cons (role_check (codes "role") (codes "admin"))
            (cons (generic_check (codes "is_admin_project") (codes "True")) nil)))
        nil))

parse_admin_rule : parse_rule all_entries admin_rule ≡ ok admin_check
unfolding parse_rule
parse_admin_rule = refl

parse_rule-order_example : parse_rule backwards admin_rule ≡ parse_rule all_entries admin_rule
parse_rule-order_example = parse_rule-order backwards admin_rule backwards-IsOrder

abbrev role : Text → Check
role name = role_check (codes "role") name

-- a or not b and (c or d)
abbrev mixed : Disj
mixed = or (just (only (leaf (role (codes "a"))))) (
    and (only (negate (leaf (role (codes "b")))))
      (group (or (just (only (leaf (role (codes "c"))))) (only (leaf (role (codes "d")))))))

parse_tokens-print_example :
    (c : Check) × (parse_tokens backwards (print_disj mixed []) ≡ ok c)
    × ((r : Request) (call : Text → Outcome Bool)
        → exec_with r call c ≡ disj_value (exec_with r call) mixed)
parse_tokens-print_example = parse_tokens-print backwards mixed backwards-IsOrder

parse_rule-ends_example :
    (q : ParseState) × (shift_all backwards (parse_tokenize admin_rule) new_parse_state ≡ ok q)
    × (((c : Check) × (parse_rule backwards admin_rule ≡ ok c))
        ⊎ ((parse_rule backwards admin_rule ≡ panic) × OneWord q))
parse_rule-ends_example = parse_rule-ends backwards admin_rule backwards-IsOrder

-- The default rule stands for one that needs the role `admin`.
abbrev alias_rules : TextMap Check
alias_rules =
    (codes "default", rule_check (codes "rule") (codes "admin"))
    ∷ (codes "admin", role (codes "admin"))
    ∷ []

abbrev admin_cred : Fields
admin_cred = field (codes "roles") (texts (codes "Admin" ∷ [])) no_field

abbrev alias_request : Request
alias_request = record { target = []; cred = admin_cred; rules = alias_rules }

abbrev default_check : Check
default_check = rule_check (codes "rule") (codes "default")

abbrev alias_rank : Text → ℕ
alias_rank name = if text_eq name (codes "default") then 1 else 0

alias-IsRanked : IsRanked alias_rank alias_rules
unfolding NamesBelow lookup
alias-IsRanked name c h = elim (Bool-cases (text_eq (codes "default") name)) [
  | inl y ↦
      subst (λ n. NamesBelow alias_rank (alias_rank n) c) (text_eq_sound (codes "default") name y)
        (subst (NamesBelow alias_rank 1) (some_cancel (rw y at h)) (omega arith))
  | inr n ↦ elim (Bool-cases (text_eq (codes "admin") name)) [
    | inl z ↦ subst (NamesBelow alias_rank (alias_rank name)) (some_cancel (rw (n, z) at h)) tt
    | inr o ↦ cc (rw (n, o) at h)
  ]
]

-- `default` refers to itself.
abbrev loop_rules : TextMap Check
loop_rules = (codes "default", default_check) ∷ []

abbrev loop_request : Request
loop_request = record { target = []; cred = admin_cred; rules = loop_rules }

-- A policy file with one rule, and a directory with one file.
abbrev file_rules : TextMap Text
file_rules = (codes "volume:delete", admin_rule) ∷ []

abbrev one_file : System
one_file = record {
  policy_path = codes "/etc/policy.json";
  stat = λ p. some false;
  read_dir = λ p. some [];
  read_file = λ p. some (codes "{}");
  unmarshal = λ t. some file_rules;
}

abbrev one_directory : System
one_directory = record {
  policy_path = codes "/etc/policy";
  stat = λ p. some true;
  read_dir = λ p. some ((codes "a.json", false) ∷ []);
  read_file = λ p. none;
  unmarshal = λ t. some file_rules;
}

abbrev defaults : List DefaultRule
defaults = record { name = codes "context_is_admin"; check_str = codes "role:admin" } ∷ []

abbrev loaded_rules : TextMap Check
loaded_rules =
    (codes "volume:delete", admin_check) ∷ (codes "context_is_admin", role (codes "admin")) ∷ []

new_rules_run : new_rules one_file all_entries (codes "{}") defaults ≡ ok (some loaded_rules)
unfolding new_rules parse_rule
new_rules_run = refl

abbrev loaded_enforcer : Enforcer
loaded_enforcer = record { rules = some loaded_rules; default_rules = defaults; over_write = false }

abbrev fresh_enforcer : Enforcer
fresh_enforcer = record { rules = none; default_rules = defaults; over_write = false }

abbrev permitted_decision : Decision
permitted_decision = record {
  state = loaded_enforcer;
  permitted = true;
  forbidden_sent = false;
  is_admin = some true;
}

authorize_run :
    authorize 3 one_file all_entries
      (codes "keystone")
      (codes "context_is_admin")
      (codes "t1")
      admin_cred
      (codes "admin" ∷ [])
      loaded_enforcer
    ≡ ok permitted_decision
unfolding authorize enforce load_rules load_policy_file enforce_loaded exec lookup
authorize_run = refl

authorize_keystone_example :
    (loaded : Bool) × (load_rules one_file all_entries false loaded_enforcer
      ≡ ok (loaded_enforcer, loaded))
    × ((true ≡ true) ↔ (
        (loaded ≡ true)
        × Granted 3
            (codes "context_is_admin")
            (tenant_target (codes "t1"))
            admin_cred
            loaded_enforcer))
    × Answers (codes "admin" ∷ []) permitted_decision
authorize_keystone_example =
    authorize_keystone 3 one_file all_entries (codes "keystone") (codes "context_is_admin")
      (codes "t1") admin_cred (codes "admin" ∷ []) loaded_enforcer permitted_decision refl
      authorize_run
