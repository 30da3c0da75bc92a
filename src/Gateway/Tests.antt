-- ===== src/Gateway/Tests.antt =====
-- api/pkg/filters: the theorems at an identity service that knows one token.
use multi_cloud.Common.{
  ℕ, ◌≡◌, refl, Bool, true, false, codes, text_eq, is_empty, [], ◌∷◌, none, some, if◌then◌else◌, ok,
  to_lower, ◌^◌, ◌-◌,
}
use multi_cloud.Common.Actions.{done}
use multi_cloud.Policy.Check.{lookup, role_check}
use multi_cloud.Policy.Exec.{exec}
use multi_cloud.Policy.Enforcer.{
  System, Enforcer, Decision, authorize, rules_of, enforce, load_rules, load_policy_file,
  enforce_loaded,
}
use multi_cloud.Gateway.Context.{
  filter_context, text_attribute, texts_attribute, bool_attribute, get_context, to_policy_value,
  new_context, context_filter, empty_context,
}
use multi_cloud.Gateway.Auth.{GetResult, OpenStack, Exchange, trim_space, keystone_filter}
use multi_cloud.Common.Int.{pos, negsuc}
use multi_cloud.Gateway.Params.{Query, get_pagination_param}
use multi_cloud.Common.Strconv.{atoi}
use multi_cloud.Gateway.Listing.{AtMost, KeepsNegative, get_pagination_param-AtMost}
use multi_cloud.Gateway.Credentials.{
  Answered, InTime, keystone_filter-Answered, authorize-role_denied,
}
use multi_cloud.Gateway.Attributes.{context_at}

abbrev answer : GetResult
answer = record {
  err = none;
  expires_at = some 100;
  roles = some (codes "admin" ∷ []);
  project = some (some (record { id = codes "p1"; name = codes "admin" }));
  user = some (some (codes "u1"));
}

-- The service fails once, until it is set up anew; the world is the time.
abbrev identity : OpenStack ℕ (Unit {0}) Bool
identity = record {
  getenv = λ name w. [];
  authenticated_client = λ opts w. (w, some tt);
  new_identity_v3 = λ p w. (w, true, true);
  get_token = λ c token w.
      (w, if c then answer else (record answer { err = some (codes "Authentication failed") }));
  now = λ w. w;
}

abbrev arrived : Exchange
arrived = record {
  auth_token = codes " t1 ";
  path_parameters = [];
  attributes = context_filter [];
  status = none;
}

arrived_context : context_at arrived ≡ some (filter_context new_context)
unfolding lookup context_filter
arrived_context = refl

abbrev passed : Exchange
passed = record arrived {
  attributes =
      (codes "context", filter_context new_context)
      ∷ (codes "Roles", text_attribute (codes "p1"))
      ∷ (codes "TenantId", texts_attribute (codes "admin" ∷ []))
      ∷ (codes "UserId", text_attribute (codes "u1"))
      ∷ (codes "IsAdminProject", bool_attribute true)
      ∷ [];
}

passes : keystone_filter identity arrived (false, 5) ≡ ((true, 5), done (passed, true))
unfolding keystone_filter context_filter to_lower
passes = refl

t1_passes :
    (is_empty (trim_space (codes " t1 ")) ≡ false)
    × ((r : GetResult) × Answered identity (trim_space (codes " t1 ")) 5 r × InTime identity 5 r)
    × (context_at passed ≡ some (filter_context new_context))
t1_passes = keystone_filter-Answered identity arrived passed false true 5 5 arrived_context passes

abbrev admins : Enforcer
admins = record {
  rules = some ((codes "plan:list", role_check (codes "role") (codes "admin")) ∷ []);
  default_rules = [];
  over_write = false;
}

abbrev no_files : System
no_files = record {
  policy_path = codes "policy.json";
  stat = λ f. some false;
  read_dir = λ f. none;
  read_file = λ f. none;
  unmarshal = λ t. none;
}

abbrev denied : Decision
denied = record { state = admins; permitted = false; forbidden_sent = true; is_admin = none }

authorize_denies :
    authorize 3 no_files []
      (codes "keystone")
      (codes "plan:list")
      (codes "p1")
      (to_policy_value (get_context passed.attributes))
      (get_context passed.attributes).roles
      admins
    ≡ ok denied
unfolding authorize enforce load_rules load_policy_file enforce_loaded exec lookup to_policy_value
    get_context empty_context
authorize_denies = refl

rule_found :
    lookup (codes "plan:list") (rules_of admins) ≡ some (role_check (codes "role") (codes "admin"))
unfolding lookup
rule_found = refl

admin_denied : denied.permitted ≡ false
admin_denied =
    authorize-role_denied identity arrived passed false true 5 5 arrived_context passes 3 no_files
      [] (codes "keystone") (codes "plan:list") (codes "p1") admins denied (codes "role")
      (codes "admin") refl authorize_denies rule_found

abbrev asked : Query
asked name =
    if text_eq name (codes "limit")
    then codes "-5"
    else if text_eq name (codes "offset")
    then codes "4294967298"
    else []

asked_page : get_pagination_param asked ≡ some (negsuc 4, pos 2)
unfolding get_pagination_param
asked_page = refl

minus_five :
    (AtMost 1000 (negsuc 4) × AtMost (2 ^ 31 - 1) (pos 2))
    × KeepsNegative (atoi (asked (codes "limit"))) (negsuc 4)
    × KeepsNegative (atoi (asked (codes "offset"))) (pos 2)
minus_five = get_pagination_param-AtMost asked (negsuc 4) (pos 2) asked_page
