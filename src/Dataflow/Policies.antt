-- ===== src/Dataflow/Policies.antt =====
-- dataflow/pkg/policy/policy.go: creating, changing and deleting policies, with the triggers of the
-- plans that use them.
pub mod Schedules
use multi_cloud.Common.{
  ℕ, zero, suc, ◌+◌, Bool, true, false, not, ◌||◌, codes, text_eq, Text, List, [], ◌∷◌, length,
  Option, none, some, if◌then◌else◌,
}
use multi_cloud.Common.Actions.{Act, Result, done, failed, panicked, return, fail, ◌>>=◌}
use multi_cloud.Dataflow.Types.{
  Schedule, Policy, Plan, Context, err_invalid_policy_name, err_invalid_plan_name,
}
use multi_cloud.Dataflow.Driver.{Mongo}
use multi_cloud.Dataflow.Driver.Policies.{
  create_policy, delete_policy, get_policy, update_policy, list_policy,
}
use multi_cloud.Dataflow.Driver.Plans.{get_plan_by_policy}
use multi_cloud.Dataflow.Plans.{new_plan_executor}
use multi_cloud.Dataflow.Updates.{Json, UpdateMap, match_name, new_name, new_text, is_given}
use multi_cloud.Dataflow.Triggers.Manager.{Service, in_db, manager_update}

module _ {J : Type 0} (json : Json J) where
  unfoldable pub new_schedule : Option J → Schedule → Schedule
  new_schedule none old = old
  new_schedule (some v) old = json.to_schedule v

  -- What `Update` makes of the policy before it is stored.
  unfoldable pub merge_policy : {W : Type 0} → UpdateMap J → Policy → Act W Policy
  unfolding new_name new_text new_schedule
  merge_policy map cur_pol = do
    name ← new_name json (map (codes "name")) cur_pol.name
    description ← new_text json (map (codes "description")) cur_pol.description
    return (record cur_pol {
      name = name;
      description = description;
      schedule = new_schedule (map (codes "schedule")) cur_pol.schedule;
    })

module _ {W : Type 0} (db : Mongo W) (cron_error : Text → Option Text) where
  unfoldable pub create : Context → Policy → Act (Service W) Policy
  unfolding match_name
  create ctx pol =
      if not (match_name pol.name) || text_eq pol.name (codes "all")
      then fail err_invalid_policy_name
      else in_db (create_policy db ctx pol)

  unfoldable pub delete : Context → Text → Act (Service W) (Unit {0})
  delete ctx id = in_db (delete_policy db ctx id)

  -- One plan of the policy; a plan whose policy is not enabled is passed over.
  unfoldable pub reschedule : Context → Plan → Act (Service W) (Unit {0})
  unfolding manager_update new_plan_executor
  reschedule ctx p =
      if p.policy_enabled
      then manager_update db cron_error ctx p (new_plan_executor ctx p)
      else return tt

  unfoldable pub reschedule_each : Context → List Plan → Act (Service W) (Unit {0})
  unfolding reschedule
  reschedule_each ctx [] = return tt
  reschedule_each ctx (p ∷ ps) = do moved ← reschedule ctx p; reschedule_each ctx ps

  -- The loop over the pages on a number of turns; the result is whether it ended by itself.
  unfoldable pub reschedule_page :
      Context → (ℕ → Act (Service W) Bool) → ℕ → List Plan → Act (Service W) Bool
  unfolding reschedule_each
  reschedule_page ctx next offset [] = return true
  reschedule_page ctx next offset (p ∷ ps) = do
    moved ← reschedule_each ctx (p ∷ ps)
    next (offset + length (p ∷ ps))

  unfoldable pub reschedule_pages : Context → Text → ℕ → ℕ → Act (Service W) Bool
  unfolding reschedule_page
  reschedule_pages ctx policy_id zero offset = return false
  reschedule_pages ctx policy_id (suc n) offset =
      in_db (get_plan_by_policy db ctx policy_id 1000 offset)
      >>= reschedule_page ctx (reschedule_pages ctx policy_id n) offset

  unfoldable pub update_policy_in_trigger : ℕ → Context → Policy → Act (Service W) Bool
  unfolding reschedule_pages
  update_policy_in_trigger turns ctx policy = reschedule_pages ctx policy.id turns 0

  unfoldable pub after_update : ℕ → Context → Bool → Policy → Act (Service W) (Option Policy)
  unfolding update_policy_in_trigger
  after_update turns ctx needed resp = do
    ended ← (if needed then update_policy_in_trigger turns ctx resp else return true)
    return (if ended then some resp else none)

  -- `turns` is the number of turns that the loop over the plans of the policy is given; the result is
  -- none if they are used up.
  unfoldable pub update :
      {J : Type 0} → Json J → ℕ → Context → Text → UpdateMap J → Act (Service W) (Option Policy)
  unfolding merge_policy is_given after_update
  update json turns ctx policy_id map = do
    cur_pol ← in_db (get_policy db ctx policy_id)
    pol ← merge_policy json map cur_pol
    resp ← in_db (update_policy db pol)
    after_update turns ctx (is_given json (map (codes "schedule"))) resp

  -- The pattern that the id must match, `[[:alnum:]-_.]*`, matches any text.
  unfoldable pub get : Context → Text → Act (Service W) Policy
  get ctx id = in_db (get_policy db ctx id)

  unfoldable pub list : Context → Act (Service W) (List Policy)
  list ctx = in_db (list_policy db ctx)
