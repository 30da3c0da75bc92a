-- ===== src/Dataflow/Updates.antt =====
-- dataflow/pkg/plan/plan.go: the fields of a plan that the body of an update changes.
use multi_cloud.Common.{
  ℕ, leb, ◌==◌, Bool, true, false, ◌&&◌, ◌||◌, Text, codes, [], ◌∷◌, Option, none, some,
  if◌then◌else◌,
}
use multi_cloud.Common.Actions.{Act, return, fail, panic, ◌>>=◌}
use multi_cloud.Datamover.Types.{Connector}
use multi_cloud.Dataflow.Types.{
  Schedule, Filter, AsistInfo, Plan, err_invalid_plan_name, err_dest_src_conn_equal,
}
use multi_cloud.Dataflow.Connectors.{is_equal}

-- A JSON value of a request: the text or Boolean that it is, and what `json.Unmarshal` makes of it.
pub record Json (J : Type 0) : Type 0 where
  pub as_text : J → Option Text
  pub as_bool : J → Option Bool
  pub to_connector : J → Connector
  pub to_filter : J → Filter
  pub to_schedule : J → Schedule

-- `map[string]interface{}`.
abbrev pub UpdateMap : Type 0 → Type 0
UpdateMap J = Text → Option J

abbrev pub name_char : ℕ → Bool
name_char c =
    (leb b'0' c && leb c b'9')
    || (leb b'A' c && leb c b'Z')
    || (leb b'a' c && leb c b'z')
    || c == b'-'
    || c == b'_'
    || c == b'.'

-- `regexp.MatchString("[[:alnum:]-_.]+", name)`: the pattern may match anywhere in the name.
unfoldable pub match_name : Text → Bool
match_name [] = false
match_name (c ∷ s) = name_char c || match_name s

-- `v.(string)` and `v.(bool)`.
unfoldable pub text_or_panic : {W : Type 0} → Option Text → Act W Text
text_or_panic none = panic
text_or_panic (some t) = return t

unfoldable pub bool_or_panic : {W : Type 0} → Option Bool → Act W Bool
bool_or_panic none = panic
bool_or_panic (some b) = return b

unfoldable pub check_new_name : {W : Type 0} → Text → Act W Text
check_new_name name = if match_name name then return name else fail err_invalid_plan_name

module _ {J : Type 0} (json : Json J) where
  -- The entries of the request, each with the value that stays without it.
  unfoldable pub new_name : {W : Type 0} → Option J → Text → Act W Text
  unfolding text_or_panic check_new_name
  new_name none old = return old
  new_name (some v) old = text_or_panic (json.as_text v) >>= check_new_name

  unfoldable pub new_text : {W : Type 0} → Option J → Text → Act W Text
  unfolding text_or_panic
  new_text none old = return old
  new_text (some v) old = text_or_panic (json.as_text v)

  unfoldable pub new_bool : {W : Type 0} → Option J → Bool → Act W Bool
  unfolding bool_or_panic
  new_bool none old = return old
  new_bool (some v) old = bool_or_panic (json.as_bool v)

  unfoldable pub new_connector : Option J → Connector → Connector
  new_connector none old = old
  new_connector (some v) old = json.to_connector v

  unfoldable pub new_filter : Option J → Filter → Filter
  new_filter none old = old
  new_filter (some v) old = json.to_filter v

  -- `json.Unmarshal` is given no pointer, so it fails and the assistance stays empty.
  unfoldable pub new_asist : Option J → AsistInfo → AsistInfo
  new_asist none old = old
  new_asist (some v) old = record { type = []; details = [] }

  unfoldable pub is_given : Option J → Bool
  is_given none = false
  is_given (some v) = true

  -- The connectors and the filter of an update, with the test that the connectors differ.
  unfoldable pub new_ends : {W : Type 0} → UpdateMap J → Plan → Act W Plan
  unfolding new_connector new_filter is_equal
  new_ends map plan =
      let src = new_connector (map (codes "sourceConn")) plan.source_conn in
      let dest = new_connector (map (codes "destConn")) plan.dest_conn in
      if is_equal src dest
      then fail err_dest_src_conn_equal
      else return (record plan {
        source_conn = src;
        dest_conn = dest;
        filter = new_filter (map (codes "filter")) plan.filter;
      })

  -- What `Update` makes of the plan before it touches the trigger and the database.
  unfoldable pub merge_plan : {W : Type 0} → UpdateMap J → Plan → Act W Plan
  unfolding new_name new_text new_bool new_ends new_asist
  merge_plan map cur_plan = do
    name ← new_name (map (codes "name")) cur_plan.name
    plan ← new_ends map (record cur_plan { name = name })
    policy_enabled ← new_bool (map (codes "policyEnabled")) plan.policy_enabled
    policy_id ← new_text (map (codes "policyId")) plan.policy_id
    description ← new_text (map (codes "description")) plan.description
    remain_source ← new_bool (map (codes "remainSource")) plan.remain_source
    return (record plan {
      policy_enabled = policy_enabled;
      policy_id = policy_id;
      description = description;
      remain_source = remain_source;
      asist = new_asist (map (codes "Asist")) plan.asist;
    })

  unfoldable pub need_update_trigger : UpdateMap J → Bool
  unfolding is_given
  need_update_trigger map =
      is_given (map (codes "policyEnabled")) || is_given (map (codes "policyId"))
