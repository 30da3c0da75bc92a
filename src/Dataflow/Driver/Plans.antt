-- ===== src/Dataflow/Driver/Plans.antt =====
-- dataflow/pkg/db/drivers/mongo/mongo.go: the plans in the database.
use multi_cloud.Common.{
  ℕ, zero, suc, false, Text, codes, text_eq, is_empty, List, [], ◌∷◌, ◌++◌, Option, none, some,
  if◌then◌else◌,
}
use multi_cloud.Common.Actions.{Act, Result, done, failed, return, fail, ◌>>=◌}
use multi_cloud.Datamover.Types.{other_type, Connector}
use multi_cloud.Dataflow.Types.{
  Plan, Context, err_inner_err, err_db_err, err_plan_not_exist, err_policy_not_exist,
}
use multi_cloud.Dataflow.Driver.{
  Selector, all_of, one_of, Reply, found, missing, broken, Write, written, not_found, duplicate,
  write_error, Mongo, asked, wrote, hex_id, managed,
}

-- The `filter interface{}` of a listing: nil, the `map[string]string` of a request, or a `bson.M`.
pub data ListFilter : Type 0 where
  no_filter : ListFilter
  string_map : List (Text × Text) → ListFilter
  bson_map : List (Text × Text) → ListFilter

-- `filt[key]`, empty for a missing key.
unfoldable pub value_at : Text → List (Text × Text) → Text
value_at key [] = []
value_at key ((k, v) ∷ m) = let rest = value_at key m in if text_eq k key then v else rest

abbrev pub plan_selector : Text → Context → Selector
plan_selector id ctx = all_of ((codes "_id", id) ∷ (codes "tenantId", ctx.tenant_id) ∷ [])

abbrev pub bucket_selector : Text → Selector
bucket_selector bucket = one_of (
    ((codes "srcConn.bucketName", bucket) ∷ []) ∷ ((codes "destConn.bucketName", bucket) ∷ []) ∷ [])

abbrev pub empty_connector : Connector
empty_connector = record { type = other_type []; bucket_name = []; conn_config = [] }

-- `Plan{}`.
abbrev pub empty_plan : Plan
empty_plan = record {
  id = [];
  name = [];
  description = [];
  type = [];
  source_conn = empty_connector;
  dest_conn = empty_connector;
  filter = record { prefix = []; tag = [] };
  remain_source = false;
  last_sched_time = 0;
  policy_id = [];
  policy_ref = none;
  policy_name = [];
  policy_enabled = false;
  tenant_id = [];
  user_id = [];
  asist = record { type = []; details = [] };
}

-- A plan that cannot be read for another reason than its absence comes out empty.
unfoldable pub read_plan : {W : Type 0} → W × Reply Plan → W × Result Plan
read_plan (w, found p) = (w, done p)
read_plan (w, missing) = (w, failed err_plan_not_exist)
read_plan (w, broken) = (w, done empty_plan)

-- An error of a listing with no plans is none.
unfoldable pub read_plans : {W : Type 0} → W × Reply (List Plan) → W × Result (List Plan)
read_plans (w, found ps) = (w, done ps)
read_plans (w, missing) = (w, done [])
read_plans (w, broken) = (w, done [])

-- Only a listing without an error that is not empty refuses the name.
unfoldable pub refuse_name : {W : Type 0} → Text → W × Reply (List Plan) → W × Result (Unit {0})
refuse_name name (w, found []) = (w, done tt)
refuse_name name (w, found (p ∷ ps)) = (w, failed (codes "Duplicate name:" ++ name))
refuse_name name (w, missing) = (w, done tt)
refuse_name name (w, broken) = (w, done tt)

unfoldable pub ref_of : {W : Type 0} → Option Text → Act W (Option Text)
ref_of none = fail err_policy_not_exist
ref_of (some id) = return (some id)

module _ {W : Type 0} (db : Mongo W) where
  unfoldable pub check_policy : Text → Act W (Unit {0})
  unfolding hex_id
  check_policy policy_id = do
    hex ← hex_id db policy_id
    pol ←
        asked err_policy_not_exist err_policy_not_exist
          (db.policies.find_one (all_of ((codes "_id", hex) ∷ [])))
    return tt

  unfoldable pub check_plan_relate_obj : Plan → Act W (Unit {0})
  unfolding check_policy
  check_plan_relate_obj plan =
      if is_empty plan.policy_id then return tt else check_policy plan.policy_id

  -- The reference to the policy of a plan; a plan that has no policy keeps what `old` says.
  unfoldable pub policy_ref : Option Text → Plan → Act W (Option Text)
  unfolding ref_of
  policy_ref old plan =
      if is_empty plan.policy_id then return old else ref_of (db.object_id_hex plan.policy_id)

  unfoldable pub check_name : Text → Act W (Unit {0})
  unfolding refuse_name
  check_name name w =
      refuse_name name (db.plans.find_all (all_of ((codes "name", name) ∷ [])) 0 0 w)

  -- The loop that creates the id with `n` turns left, after an insertion; only a duplicate is tried
  -- again. The plan that is returned has the id of the last try.
  unfoldable pub insert_turns : ℕ → Plan → W × Write → W × Result Plan
  insert_turns n plan (w, written) = (w, done plan)
  insert_turns n plan (w, not_found) = (w, failed (codes "not found"))
  insert_turns n plan (w, write_error e) = (w, failed e)
  insert_turns zero plan (w, duplicate e) = (w, failed e)
  insert_turns (suc n) plan (w, duplicate e) =
      let (w', id) = db.new_object_id w in
      let plan' = record plan { id = id } in insert_turns n plan' (db.plans.insert plan' w')

  unfoldable pub insert_plan : Plan → Act W Plan
  unfolding insert_turns
  insert_plan plan w =
      let (w', id) = db.new_object_id w in
      let plan' = record plan { id = id } in insert_turns 2 plan' (db.plans.insert plan' w')

  unfoldable pub add_plan : Plan → Act W Plan
  unfolding check_name check_plan_relate_obj policy_ref insert_plan
  add_plan plan = do
    fresh ← check_name plan.name
    fine ← check_plan_relate_obj plan
    ref ← policy_ref plan.policy_ref plan
    insert_plan (record plan { policy_ref = ref })

  unfoldable pub create_plan : Context → Plan → Act W Plan
  unfolding managed add_plan
  create_plan ctx plan = managed db (add_plan (record plan { tenant_id = ctx.tenant_id }))

  unfoldable pub remove_plan : Context → Text → Act W (Unit {0})
  unfolding hex_id
  remove_plan ctx id = do
    hex ← hex_id db id
    p ← asked err_plan_not_exist err_db_err (db.plans.find_one (plan_selector hex ctx))
    wrote err_plan_not_exist (db.plans.remove p.id)

  unfoldable pub delete_plan : Context → Text → Act W (Unit {0})
  unfolding managed remove_plan
  delete_plan ctx id = managed db (remove_plan ctx id)

  unfoldable pub write_plan : Plan → Act W Plan
  write_plan plan = do stored ← wrote err_plan_not_exist (db.plans.update plan.id plan); return plan

  unfoldable pub replace_plan : Plan → Act W Plan
  unfolding check_plan_relate_obj policy_ref write_plan
  replace_plan plan = do
    fine ← check_plan_relate_obj plan
    ref ← policy_ref none plan
    write_plan (record plan { policy_ref = ref })

  unfoldable pub update_plan : Plan → Act W Plan
  unfolding managed replace_plan
  update_plan plan = managed db (replace_plan plan)

  unfoldable pub read_name : Plan → Act W Plan
  read_name plan = do
    pol ← asked err_db_err err_db_err (db.find_ref plan.policy_ref)
    return (record plan { policy_name = pol.name })

  -- The name of the policy of a plan.
  unfoldable pub fill_name : Plan → Act W Plan
  unfolding read_name
  fill_name plan = if is_empty plan.policy_id then return plan else read_name plan

  unfoldable pub fill_names : List Plan → Act W (List Plan)
  unfolding fill_name
  fill_names [] = return []
  fill_names (p ∷ ps) = do p' ← fill_name p; ps' ← fill_names ps; return (p' ∷ ps')

  unfoldable pub query_plans : Selector → ℕ → ℕ → Act W (List Plan)
  unfolding read_plans
  query_plans sel limit offset w = read_plans (db.plans.find_all sel offset limit w)

  unfoldable pub plans_by : ListFilter → ℕ → ℕ → Act W (List Plan)
  unfolding query_plans value_at
  plans_by no_filter limit offset = return []
  plans_by (bson_map m) limit offset = fail err_inner_err
  plans_by (string_map m) limit offset =
      if is_empty (value_at (codes "bucketname") m)
      then query_plans (all_of m) limit offset
      else query_plans (bucket_selector (value_at (codes "bucketname") m)) limit offset

  unfoldable pub do_list_plan : ℕ → ℕ → ListFilter → Act W (List Plan)
  unfolding plans_by fill_names
  do_list_plan limit offset filter = plans_by filter limit offset >>= fill_names

  unfoldable pub list_plan : ℕ → ℕ → ListFilter → Act W (List Plan)
  unfolding do_list_plan
  list_plan limit offset filter = do_list_plan limit offset filter

  unfoldable pub find_plan : Context → Text → Act W Plan
  unfolding read_plan
  find_plan ctx hex w = read_plan (db.plans.find_one (plan_selector hex ctx) w)

  unfoldable pub get_plan : Context → Text → Act W Plan
  unfolding hex_id find_plan fill_name
  get_plan ctx id = do hex ← hex_id db id; p ← find_plan ctx hex; fill_name p

  unfoldable pub get_plan_by_policy : Context → Text → ℕ → ℕ → Act W (List Plan)
  unfolding do_list_plan
  get_plan_by_policy ctx policy_id limit offset = do_list_plan limit offset (
      bson_map (
        if ctx.is_admin
        then (codes "policyId", policy_id) ∷ []
        else (codes "policyId", policy_id) ∷ (codes "tenantId", ctx.tenant_id) ∷ []))
