-- ===== src/Gateway/Context.antt =====
-- api/pkg/context/context.go and api/pkg/filters/context/context.go: the two contexts, the attributes
-- of a request that hold them, and the credentials that a policy is checked on.
use multi_cloud.Common.{
  Bool, true, false, ◌||◌, Text, codes, text_eq, is_empty, List, [], ◌∷◌, Option, none, some,
  if◌then◌else◌,
}
use multi_cloud.Dataflow.Types.{Context}
use multi_cloud.Policy.Check.{TextMap, lookup, Value, text, bool, texts, Fields, no_field, field}
use multi_cloud.Policy.Enforcer.{insert}

-- `Context` of api/pkg/context; that of the filter is `Dataflow.Types.Context`.
pub record PolicyContext : Type 0 where
  pub auth_token : Text
  pub user_id : Text
  pub tenant_id : Text
  pub domain_id : Text
  pub user_domain_id : Text
  pub project_domain_id : Text
  pub is_admin : Bool
  pub read_only : Text
  pub show_deleted : Text
  pub request_id : Text
  pub resource_uuid : Text
  pub overwrite : Text
  pub roles : List Text
  pub user_name : Text
  pub project_name : Text
  pub domain_name : Text
  pub user_domain_name : Text
  pub project_domain_name : Text
  pub is_admin_project : Bool
  pub service_token : Text
  pub service_user_id : Text
  pub service_user_name : Text
  pub service_user_domain_id : Text
  pub service_user_domain_name : Text
  pub service_project_id : Text
  pub service_project_name : Text
  pub service_project_domain_id : Text
  pub service_project_domain_name : Text
  pub service_roles : Text
  pub token : Text
  pub uri : Text

-- `&Context{}`.
unfoldable pub empty_context : PolicyContext
empty_context = record {
  auth_token = [];
  user_id = [];
  tenant_id = [];
  domain_id = [];
  user_domain_id = [];
  project_domain_id = [];
  is_admin = false;
  read_only = [];
  show_deleted = [];
  request_id = [];
  resource_uuid = [];
  overwrite = [];
  roles = [];
  user_name = [];
  project_name = [];
  domain_name = [];
  user_domain_name = [];
  project_domain_name = [];
  is_admin_project = false;
  service_token = [];
  service_user_id = [];
  service_user_name = [];
  service_user_domain_id = [];
  service_user_domain_name = [];
  service_project_id = [];
  service_project_name = [];
  service_project_domain_id = [];
  service_project_domain_name = [];
  service_roles = [];
  token = [];
  uri = [];
}

-- A field as reflection sees it: its tags `json` and `policy`, and its value.
pub record StructField : Type 0 where
  pub json : Text
  pub policy : Text
  pub value : Value

abbrev text_field : Text → Text → StructField
text_field json t = record { json = json; policy = codes "true"; value = text t }

abbrev bool_field : Text → Bool → StructField
bool_field json b = record { json = json; policy = codes "true"; value = bool b }

abbrev hidden_field : Text → Text → StructField
hidden_field json t = record { json = json; policy = codes "false"; value = text t }

unfoldable pub struct_fields : PolicyContext → List StructField
struct_fields ctx =
    text_field (codes "auth_token") ctx.auth_token
    ∷ text_field (codes "user_id") ctx.user_id
    ∷ text_field (codes "tenant_id") ctx.tenant_id
    ∷ text_field (codes "domain_id") ctx.domain_id
    ∷ text_field (codes "user_domain_id") ctx.user_domain_id
    ∷ text_field (codes "project_domain_id") ctx.project_domain_id
    ∷ bool_field (codes "is_admin") ctx.is_admin
    ∷ text_field (codes "read_only") ctx.read_only
    ∷ text_field (codes "show_deleted") ctx.show_deleted
    ∷ text_field (codes "request_id") ctx.request_id
    ∷ text_field (codes "resource_uuid") ctx.resource_uuid
    ∷ text_field (codes "overwrite") ctx.overwrite
    ∷ (record { json = codes "roles"; policy = codes "true"; value = texts ctx.roles })
    ∷ text_field (codes "user_name") ctx.user_name
    ∷ text_field (codes "project_name") ctx.project_name
    ∷ text_field (codes "domain_name") ctx.domain_name
    ∷ text_field (codes "user_domain_name") ctx.user_domain_name
    ∷ text_field (codes "project_domain_name") ctx.project_domain_name
    ∷ bool_field (codes "is_admin_project") ctx.is_admin_project
    ∷ text_field (codes "service_token") ctx.service_token
    ∷ text_field (codes "service_user_id") ctx.service_user_id
    ∷ text_field (codes "service_user_name") ctx.service_user_name
    ∷ text_field (codes "service_user_domain_id") ctx.service_user_domain_id
    ∷ text_field (codes "service_user_domain_name") ctx.service_user_domain_name
    ∷ text_field (codes "service_project_id") ctx.service_project_id
    ∷ text_field (codes "service_project_name") ctx.service_project_name
    ∷ text_field (codes "service_project_domain_id") ctx.service_project_domain_id
    ∷ text_field (codes "service_project_domain_name") ctx.service_project_domain_name
    ∷ text_field (codes "service_roles") ctx.service_roles
    ∷ hidden_field (codes "token") ctx.token
    ∷ hidden_field (codes "uri") ctx.uri
    ∷ []

-- An empty text, slice or map; a context has no map.
unfoldable pub is_skipped : Value → Bool
is_skipped (text t) = is_empty t
is_skipped (texts []) = true
is_skipped _ = false

-- The loop; no two fields have the same `json` tag.
unfoldable pub policy_fields : List StructField → Fields
unfolding is_skipped
policy_fields [] = no_field
policy_fields (f ∷ fs) =
    let rest = policy_fields fs in
    if text_eq f.policy (codes "false") || is_skipped f.value
    then rest
    else field f.json f.value rest

unfoldable pub to_policy_value : PolicyContext → Fields
unfolding struct_fields policy_fields
to_policy_value ctx = policy_fields (struct_fields ctx)

-- What an attribute of a request holds: a pointer to either context, or another value.
pub data Attribute : Type 0 where
  filter_context : Context → Attribute
  policy_context : PolicyContext → Attribute
  text_attribute : Text → Attribute
  texts_attribute : List Text → Attribute
  bool_attribute : Bool → Attribute

-- `ctx, _ := req.Attribute("context").(*Context)`, and an empty context for a nil one.
unfoldable pub as_policy_context : Option Attribute → PolicyContext
as_policy_context (some (policy_context ctx)) = ctx
as_policy_context (some _) = empty_context
as_policy_context none = empty_context

unfoldable pub get_context : TextMap Attribute → PolicyContext
unfolding as_policy_context
get_context attributes = as_policy_context (lookup (codes "context") attributes)

-- `NewContext` of the filter.
abbrev pub new_context : Context
new_context = record { tenant_id = codes "tenantId"; is_admin = true; user_id = codes "userId" }

-- The filter of the context, up to the next filter.
unfoldable pub context_filter : TextMap Attribute → TextMap Attribute
unfolding insert
context_filter attributes = insert (codes "context") (filter_context new_context) attributes
