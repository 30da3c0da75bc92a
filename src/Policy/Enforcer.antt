-- ===== src/Policy/Enforcer.antt =====
-- api/pkg/policy/policy.go: the enforcer, the loading of its rules, and the decision on a request.
pub mod Load
pub mod Decide
use multi_cloud.Common.{
  ℕ, Bool, true, false, not, ◌&&◌, List, [], ◌∷◌, Option, none, some, Text, codes, text_eq, Outcome,
  ok, panic, out_of_fuel, ◌>>=◌, if◌then◌else◌, snoc, length, drop, ◌-◌, contained, leb,
}
use multi_cloud.Policy.Check.{TextMap, lookup, Check, Fields}
use multi_cloud.Policy.Exec.{Request, exec}
use multi_cloud.Policy.Parse.{Entry, parse_rule}

pub record DefaultRule : Type 0 where
  pub name : Text
  pub check_str : Text

unfoldable pub list_rules : List DefaultRule
list_rules = record { name = codes "context_is_admin"; check_str = codes "role:admin" } ∷ []

-- `rules` is `none` while the Go map is nil.
pub record Enforcer : Type 0 where
  pub rules : Option (TextMap Check)
  pub default_rules : List DefaultRule
  pub over_write : Bool

unfoldable pub register_defaults : List DefaultRule → Enforcer → Enforcer
register_defaults ds e = record e { default_rules = ds }

-- `NewEnforcer` and `RegisterRules`.
unfoldable pub new_enforcer : Bool → Enforcer
unfolding register_defaults list_rules
new_enforcer over_write =
    register_defaults list_rules
      (record { rules = none; default_rules = []; over_write = over_write })

-- The operating system and the JSON decoder, as the code sees them. `none` is an error; `stat` tells
-- a directory, `read_dir` lists names with the test for a directory, and `policy_path` is
-- `config.CONF.OsdsLet.PolicyPath`.
pub record System : Type 0 where
  pub policy_path : Text
  pub stat : Text → Option Bool
  pub read_dir : Text → Option (List (Text × Bool))
  pub read_file : Text → Option Text
  pub unmarshal : Text → Option (TextMap Text)

-- `m[k] = v`.
unfoldable pub insert {ℓ} : {V : Type ℓ} → Text → V → TextMap V → TextMap V
insert k v [] = (k, v) ∷ []
insert k v ((j, w) ∷ m) = if text_eq j k then (k, v) ∷ m else (j, w) ∷ insert k v m

-- A default rule counts only if the file has no rule of its name.
unfoldable pub add_defaults : TextMap Text → List DefaultRule → TextMap Text
unfolding lookup insert
add_defaults m [] = m
add_defaults m (d ∷ ds) =
    add_defaults (elim (lookup d.name m) [ some v ↦ m | none ↦ insert d.name d.check_str m ]) ds

-- The range over the texts of the rules: a panic of `parseRule` is not caught.
unfoldable pub parse_rules : List Entry → TextMap Text → Outcome (TextMap Check)
parse_rules order [] = ok []
parse_rules order ((k, v) ∷ m) = do
  c ← parse_rule order v
  rest ← parse_rules order m
  ok ((k, c) ∷ rest)

-- `NewRules`; `none` is its error.
unfoldable pub new_rules :
    System → List Entry → Text → List DefaultRule → Outcome (Option (TextMap Check))
unfolding add_defaults parse_rules
new_rules sys order content defaults = elim (sys.unmarshal content) [
  | none ↦ ok none
  | some m ↦ parse_rules order (add_defaults m defaults) >>= λ rules. ok (some rules)
]

unfoldable pub update_map : TextMap Check → TextMap Check → TextMap Check
unfolding insert
update_map old [] = old
update_map old ((k, c) ∷ new) = update_map (insert k c old) new

-- `UpdateRules`.
unfoldable pub update_rules : TextMap Check → Enforcer → Enforcer
unfolding update_map
update_rules new e = record e {
  rules = some (elim e.rules [ none ↦ update_map [] new | some old ↦ update_map old new ]);
}

abbrev pub is_some {ℓ} : {A : Type ℓ} → Option A → Bool
is_some none = false
is_some (some a) = true

-- A method of the enforcer: what it leaves, and whether it returned no error.
abbrev pub Loaded : Type 0
Loaded = Outcome (Enforcer × Bool)

unfoldable pub load_policy_file : System → List Entry → Text → Bool → Bool → Enforcer → Loaded
unfolding new_rules update_rules
load_policy_file sys order path forced_reload over_write e =
    if is_some e.rules && not forced_reload then ok (e, true) else elim (sys.read_file path) [
      | none ↦ ok (e, false)
      | some content ↦ new_rules sys order content e.default_rules >>= λ r. elim r [
        | none ↦ ok (e, false)
        | some rules ↦
            if over_write
            then ok (record e { rules = some rules }, true)
            else ok (update_rules rules e, true)
      ]
    ]

abbrev pub ends_with : Text → Text → Bool
ends_with s suffix =
    leb (length suffix) (length s) && text_eq (drop (length s - length suffix) s) suffix

-- The loop over the directory: what it loads for every policy file in it is `path`, the directory.
unfoldable pub load_directory :
    System → List Entry → Text → Bool → List (Text × Bool) → Enforcer → Loaded
load_directory sys order path forced_reload [] e = ok (e, true)
load_directory sys order path forced_reload ((name, is_dir) ∷ files) e =
    let rest = load_directory sys order path forced_reload files in
    if not is_dir && ends_with name (codes ".json")
    then load_policy_file sys order path forced_reload false e
      >>= (λ l. if l.1 then rest l.0 else ok l)
    else rest e

unfoldable pub load_rules : System → List Entry → Bool → Enforcer → Loaded
load_rules sys order forced_reload e = elim (sys.stat sys.policy_path) [
  | none ↦ ok (e, false)
  | some is_dir ↦
      if is_dir
      then elim (sys.read_dir sys.policy_path) [
        | none ↦ ok (e, false)
        | some files ↦ load_directory sys order sys.policy_path forced_reload files e
      ]
      else load_policy_file sys order sys.policy_path forced_reload e.over_write e
]

abbrev pub rules_of : Enforcer → TextMap Check
rules_of e = elim e.rules [ none ↦ [] | some m ↦ m ]

-- What `Enforce` returns, with its error left to the log.
pub record Enforced : Type 0 where
  pub enforcer : Enforcer
  pub allowed : Bool
  pub no_error : Bool

-- The rule under the name, if there is one, run by `check`.
unfoldable pub enforce_found :
    ℕ → TextMap Text → Fields → Enforcer → Option Check → Outcome Enforced
enforce_found fuel target cred e none =
    ok (record { enforcer = e; allowed = false; no_error = false })
enforce_found fuel target cred e (some c) =
    exec fuel (record { target = target; cred = cred; rules = rules_of e }) c >>= λ b.
    ok (record { enforcer = e; allowed = b; no_error = true })

-- The part of `Enforce` behind `LoadRules`.
unfoldable pub enforce_loaded :
    ℕ → Text → TextMap Text → Fields → Enforcer × Bool → Outcome Enforced
unfolding enforce_found
enforce_loaded fuel rule target cred (e, true) =
    enforce_found fuel target cred e (lookup rule (rules_of e))
enforce_loaded fuel rule target cred (e, false) =
    ok (record { enforcer = e; allowed = false; no_error = false })

-- `Enforce`, which `Enforcer.Authorize` calls; `fuel` is the number of nested rule checks.
unfoldable pub enforce :
    ℕ → System → List Entry → Text → TextMap Text → Fields → Enforcer → Outcome Enforced
enforce fuel sys order rule target cred e =
    load_rules sys order false e >>= enforce_loaded fuel rule target cred

-- What `Authorize` does to the response and to the context. `is_admin` is the new value of the
-- context's field, if it is written.
pub record Decision : Type 0 where
  pub state : Enforcer
  pub permitted : Bool
  pub forbidden_sent : Bool
  pub is_admin : Option Bool

-- `Authorize`: `strategy` is the environment variable, `cred` what `ToPolicyValue` makes of the
-- context, and `roles` are its roles.
unfoldable pub authorize :
    ℕ → System → List Entry → Text → Text → Text → Fields → List Text → Enforcer → Outcome Decision
unfolding contained
authorize fuel sys order strategy action tenant_id cred roles e =
    if text_eq strategy (codes "keystone")
    then enforce fuel sys order action ((codes "tenant_id", tenant_id) ∷ []) cred e >>= (λ r.
      if r.allowed
      then ok (record {
        state = r.enforcer;
        permitted = true;
        forbidden_sent = false;
        is_admin = some (contained (codes "admin") roles);
      })
      else ok (record {
        state = r.enforcer;
        permitted = false;
        forbidden_sent = true;
        is_admin = none;
      }))
    else ok (record { state = e; permitted = true; forbidden_sent = false; is_admin = none })
