-- ===== src/Gateway/Auth.antt =====
-- api/pkg/filters/auth: the filters of keystone and of no authentication, with `Retry` of
-- api/pkg/utils/utils.go. What a filter answers with an error is kept as its status alone.
use multi_cloud.Common.{
  ℕ, zero, suc, ◌+◌, ltb, Bool, true, false, ◌&&◌, Text, codes, text_eq, is_empty, is_space,
  to_lower, List, [], ◌∷◌, Option, none, some, if◌then◌else◌,
}
use multi_cloud.Common.Actions.{Result, done, panicked}
use multi_cloud.Dataflow.Types.{Context}
use multi_cloud.Policy.Check.{TextMap, lookup}
use multi_cloud.Policy.Enforcer.{insert}
use multi_cloud.Gateway.Context.{
  Attribute, filter_context, text_attribute, texts_attribute, bool_attribute,
}

-- The end of a try: without an error the loop is left.
unfoldable pub retry_after :
    {S : Type 0} → (Text → S → S × Option Text) → S × Option Text → S × Option Text
retry_after again (s, none) = (s, none)
retry_after again (s, some e) = again e s

-- `Retry`: the loop from try `i` on, with `n` tries left and the last error.
module _ {S : Type 0} (fn : ℕ → Option Text → S → S × Option Text) where
  unfoldable pub retry_from : ℕ → ℕ → Option Text → S → S × Option Text
  unfolding retry_after
  retry_from i zero err s = (s, err)
  retry_from i (suc n) err s = retry_after (λ e t. retry_from (i + 1) n (some e) t) (fn i err s)

  unfoldable pub retry : ℕ → S → S × Option Text
  unfolding retry_from
  retry n s = retry_from 0 n none s

pub record AuthOptions : Type 0 where
  pub identity_endpoint : Text
  pub domain_name : Text
  pub username : Text
  pub password : Text
  pub tenant_name : Text

pub record Project : Type 0 where
  pub id : Text
  pub name : Text

-- `tokens.GetResult`: its error, and what its methods extract, `none` for an error. A token without a
-- project or a user gives a nil pointer, the second `none`.
pub record GetResult : Type 0 where
  pub err : Option Text
  pub expires_at : Option ℕ
  pub roles : Option (List Text)
  pub project : Option (Option Project)
  pub user : Option (Option Text)

-- gophercloud, the environment and the clock; `P` is a provider and `C` a client of the identity
-- service. `new_identity_v3` tells whether it has no error.
pub record OpenStack (W P C : Type 0) : Type 0 where
  pub getenv : Text → W → Text
  pub authenticated_client : AuthOptions → W → W × Option P
  pub new_identity_v3 : P → W → W × C × Bool
  pub get_token : C → Text → W → W × GetResult
  pub now : W → ℕ

-- A request and its response, as far as a filter reads or changes them.
pub record Exchange : Type 0 where
  pub auth_token : Text
  pub path_parameters : TextMap Text
  pub attributes : TextMap Attribute
  pub status : Option ℕ

-- `strings.TrimSpace`.
unfoldable pub trim_left_space : Text → Text
trim_left_space [] = []
trim_left_space (c ∷ s) = if is_space c then trim_left_space s else c ∷ s

unfoldable pub trim_right_space : Text → Text
trim_right_space [] = []
trim_right_space (c ∷ s) =
    let rest = trim_right_space s in if is_empty rest && is_space c then [] else c ∷ rest

unfoldable pub trim_space : Text → Text
unfolding trim_left_space trim_right_space
trim_space s = trim_right_space (trim_left_space s)

-- `model.HttpError` with the status 401; the error it returns is the `false`.
unfoldable pub unauthorized : Exchange → Exchange × Bool
unauthorized x = (record x { status = some 401 }, false)

unfoldable pub set_attribute : Text → Attribute → Exchange → Exchange
unfolding insert
set_attribute key value x = record x { attributes = insert key value x.attributes }

-- The attributes: a nil project or user panics when a field of it is read.
unfoldable pub set_attributes :
    List Text → Option Project → Option Text → Exchange → Result (Exchange × Bool)
unfolding set_attribute
set_attributes role_names none user x = panicked
set_attributes role_names (some project) none x = panicked
set_attributes role_names (some project) (some user_id) x = done (
  set_attribute (codes "IsAdminProject")
      (bool_attribute (text_eq (to_lower project.name) (codes "admin")))
      (set_attribute (codes "UserId") (text_attribute user_id) (
        set_attribute (codes "TenantId") (texts_attribute role_names)
          (set_attribute (codes "Roles") (text_attribute project.id) x))),
  true,
)

-- `setPolicyContext`, with the extracted roles, project and user.
unfoldable pub set_extracted :
    Option (List Text)
    → Option (Option Project)
    → Option (Option Text)
    → Exchange
    → Result (Exchange × Bool)
unfolding set_attributes unauthorized
set_extracted none project user x = done (unauthorized x)
set_extracted (some names) none user x = done (unauthorized x)
set_extracted (some names) (some project) none x = done (unauthorized x)
set_extracted (some names) (some project) (some user) x = set_attributes names project user x

unfoldable pub set_policy_context : GetResult → Exchange → Result (Exchange × Bool)
unfolding set_extracted
set_policy_context r x = set_extracted r.roles r.project r.user x

-- What `validateToken` does with the time at which the token expires.
unfoldable pub check_expiry : ℕ → Option ℕ → GetResult → Exchange → Result (Exchange × Bool)
unfolding set_policy_context unauthorized
check_expiry now none r x = done (unauthorized x)
check_expiry now (some expires_at) r x =
    if ltb expires_at now then done (unauthorized x) else set_policy_context r x

-- The text of an error; `verify_try` asks for it only after there was one.
abbrev pub text_of : Option Text → Text
text_of none = []
text_of (some e) = e

module _ {W P C : Type 0} (os : OpenStack W P C) where
  unfoldable pub auth_options : W → AuthOptions
  auth_options w = record {
    identity_endpoint = os.getenv (codes "OS_AUTH_URL") w;
    domain_name = os.getenv (codes "OS_USER_DOMIN_ID") w;
    username = os.getenv (codes "OS_USERNAME") w;
    password = os.getenv (codes "OS_PASSWORD") w;
    tenant_name = os.getenv (codes "OS_PROJECT_NAME") w;
  }

  -- `SetUp` on the identity and the world; the last part tells whether there was no error. The field
  -- is written whether the identity session has an error or not.
  unfoldable pub set_up_with : C → W × Option P → C × W × Bool
  set_up_with identity (w, none) = (identity, w, false)
  set_up_with identity (w, some provider) =
      let (w', identity', no_error) = os.new_identity_v3 provider w in (identity', w', no_error)

  unfoldable pub set_up : C → W → C × W × Bool
  unfolding set_up_with auth_options
  set_up identity w = set_up_with identity (os.authenticated_client (auth_options w) w)

  unfoldable pub asked_token : C → W × GetResult → (C × W × GetResult) × Option Text
  asked_token identity (w, r) = ((identity, w, r), r.err)

  -- One try to verify the token: after an error of authentication the service sets itself up anew,
  -- whether this succeeds or not; after another error it gives up.
  unfoldable pub verify_try :
      Text → ℕ → Option Text → C × W × GetResult → (C × W × GetResult) × Option Text
  unfolding asked_token set_up
  verify_try token zero last_err (identity, w, r) =
      asked_token identity (os.get_token identity token w)
  verify_try token (suc i) last_err (identity, w, r) =
      if text_eq (text_of last_err) (codes "Authentication failed")
      then (let (identity', w', no_error) = set_up identity w in
          asked_token identity' (os.get_token identity' token w'))
      else ((identity, w, r), last_err)

  -- `var r tokens.GetResult`.
  abbrev pub no_result : GetResult
  no_result = record { err = none; expires_at = none; roles = none; project = none; user = none }

  -- The filter goes on if the last part of its value is true.
  unfoldable pub after_verify :
      Exchange → (C × W × GetResult) × Option Text → (C × W) × Result (Exchange × Bool)
  unfolding check_expiry
  after_verify x ((identity, w, r), some e) = ((identity, w), done (unauthorized x))
  after_verify x ((identity, w, r), none) =
      ((identity, w), check_expiry (os.now w) r.expires_at r x)

  unfoldable pub validate_token : Exchange → Text → C × W → (C × W) × Result (Exchange × Bool)
  unfolding retry verify_try after_verify
  validate_token x token (identity, w) =
      if is_empty token
      then ((identity, w), done (unauthorized x))
      else after_verify x (retry (verify_try token) 2 (identity, w, no_result))

  unfoldable pub keystone_filter : Exchange → C × W → (C × W) × Result (Exchange × Bool)
  unfolding trim_space validate_token
  keystone_filter x s = validate_token x (trim_space x.auth_token) s

-- The filter without authentication, up to the next filter: a context that is none of the filter's
-- panics.
abbrev pub with_tenant : Option Text → Context → Context
with_tenant none ctx = ctx
with_tenant (some tenant_id) ctx = record ctx { tenant_id = tenant_id }

abbrev pub with_admin : Context → Context
with_admin ctx = record ctx { is_admin = text_eq ctx.tenant_id (codes "adminTenantId") }

unfoldable pub no_auth_on : Option Attribute → Exchange → Result Exchange
unfolding set_attribute
no_auth_on (some (filter_context ctx)) x =
    let tenant_id = lookup (codes "tenantId") x.path_parameters in
    done
      (set_attribute (codes "context") (filter_context (with_admin (with_tenant tenant_id ctx))) x)
no_auth_on (some _) x = panicked
no_auth_on none x = panicked

unfoldable pub no_auth_filter : Exchange → Result Exchange
unfolding no_auth_on
no_auth_filter x = no_auth_on (lookup (codes "context") x.attributes) x
