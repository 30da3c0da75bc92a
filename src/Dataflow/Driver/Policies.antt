-- ===== src/Dataflow/Driver/Policies.antt =====
-- dataflow/pkg/db/drivers/mongo/mongo.go: the policies in the database.
use multi_cloud.Common.{ℕ, zero, suc, Text, codes, List, [], ◌∷◌, if◌then◌else◌}
use multi_cloud.Common.Actions.{Act, Result, done, failed, return, fail, ◌>>=◌}
use multi_cloud.Dataflow.Types.{
  Policy, Context, err_db_err, err_policy_not_exist, err_is_used_by_plan,
}
use multi_cloud.Dataflow.Driver.{
  Selector, all_of, Reply, found, missing, broken, Mongo, asked, wrote, hex_id, managed,
}

-- `Policy{}`.
abbrev pub empty_policy : Policy
empty_policy = record {
  id = [];
  name = [];
  description = [];
  schedule = record { type = []; trigger_properties = [] };
  tenant = [];
}

-- A policy that cannot be read for another reason than its absence comes out empty.
unfoldable pub read_policy : {W : Type 0} → W × Reply Policy → W × Result Policy
read_policy (w, found pol) = (w, done pol)
read_policy (w, missing) = (w, failed err_policy_not_exist)
read_policy (w, broken) = (w, done empty_policy)

-- No policies at all is no error, and an error with no policies is none.
unfoldable pub read_policies : {W : Type 0} → W × Reply (List Policy) → W × Result (List Policy)
read_policies (w, found pols) = (w, done pols)
read_policies (w, missing) = (w, done [])
read_policies (w, broken) = (w, done [])

abbrev pub tenant_selector : Context → Selector
tenant_selector ctx =
    if ctx.is_admin then all_of [] else all_of ((codes "tenant", ctx.tenant_id) ∷ [])

-- The query of `DeletePolicy` for the plans that use a policy.
abbrev pub used_selector : Text → Selector
used_selector id = all_of (
    (codes "policy_ref:$ref", codes "policy")
    ∷ (codes "policy_ref:$id", id)
    ∷ (codes "policy_ref.$db", codes "multi-cloud")
    ∷ [])

abbrev pub policy_selector : Text → Context → Selector
policy_selector id ctx = all_of ((codes "_id", id) ∷ (codes "tenant", ctx.tenant_id) ∷ [])

module _ {W : Type 0} (db : Mongo W) where
  unfoldable pub insert_policy : Policy → Act W Policy
  insert_policy pol = do stored ← wrote err_db_err (db.policies.insert pol); return pol

  unfoldable pub create_policy : Context → Policy → Act W Policy
  unfolding insert_policy
  create_policy ctx pol w =
      let (w', id) = db.new_object_id w in
      insert_policy (record pol { tenant = ctx.tenant_id; id = id }) w'

  unfoldable pub remove_unused : Text → ℕ → Act W (Unit {0})
  remove_unused id zero = wrote err_policy_not_exist (db.policies.remove id)
  remove_unused id (suc n) = fail err_is_used_by_plan

  unfoldable pub remove_policy : Context → Text → Act W (Unit {0})
  unfolding hex_id remove_unused
  remove_policy ctx id = do
    hex ← hex_id db id
    po ← asked err_policy_not_exist err_db_err (db.policies.find_one (policy_selector hex ctx))
    count ← asked err_db_err err_db_err (db.plans.count (used_selector po.id))
    remove_unused po.id count

  unfoldable pub delete_policy : Context → Text → Act W (Unit {0})
  unfolding managed remove_policy
  delete_policy ctx id = managed db (remove_policy ctx id)

  unfoldable pub list_policy : Context → Act W (List Policy)
  unfolding read_policies
  list_policy ctx w = read_policies (db.policies.find_all (tenant_selector ctx) 0 0 w)

  unfoldable pub find_policy : Context → Text → Act W Policy
  unfolding read_policy
  find_policy ctx hex w = read_policy (db.policies.find_one (policy_selector hex ctx) w)

  unfoldable pub get_policy : Context → Text → Act W Policy
  unfolding hex_id find_policy
  get_policy ctx id = hex_id db id >>= find_policy ctx

  unfoldable pub write_policy : Policy → Act W Policy
  write_policy new_pol = do
    stored ← wrote err_policy_not_exist (db.policies.update new_pol.id new_pol)
    return new_pol

  unfoldable pub update_policy : Policy → Act W Policy
  unfolding managed write_policy
  update_policy new_pol = managed db (write_policy new_pol)
