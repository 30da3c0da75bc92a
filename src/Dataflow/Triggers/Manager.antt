-- ===== src/Dataflow/Triggers/Manager.antt =====
-- dataflow/pkg/scheduler/trigger/manager.go: the trigger that the policy of a plan asks for.
use multi_cloud.Common.{Bool, Text, codes, text_eq, is_empty, ◌++◌, Option, some, if◌then◌else◌}
use multi_cloud.Common.Actions.{Act, fail, ◌>>=◌}
use multi_cloud.Dataflow.Types.{Policy, Plan, Context}
use multi_cloud.Dataflow.Driver.{Mongo}
use multi_cloud.Dataflow.Driver.Policies.{get_policy}
use multi_cloud.Dataflow.Triggers.{Executer, CronTrigger, add, remove, update}

-- The world of the service: what is outside it, and its only trigger.
pub record Service (W : Type 0) : Type 0 where
  pub world : W
  pub cron : CronTrigger

-- A call of the database, and a call of the trigger.
unfoldable pub in_db : {W A : Type 0} → Act W A → Act (Service W) A
in_db act s = let (w, r) = act s.world in (record s { world = w }, r)

unfoldable pub in_cron : {W A : Type 0} → Act CronTrigger A → Act (Service W) A
in_cron act s = let (c, r) = act s.cron in (record s { cron = c }, r)

-- `GetTrigger`, with the one trigger that is registered when the service starts.
unfoldable pub get_trigger : Text → Bool
get_trigger type = text_eq type (codes "cron")

abbrev pub no_policy : Text → Text
no_policy plan_id = codes "specifed plan(" ++ (plan_id ++ codes ") does not have policy")

abbrev pub no_trigger : Text → Text
no_trigger type = codes "specifed trigger type(" ++ (type ++ codes ") is not exist")

module _ {W : Type 0} (db : Mongo W) (cron_error : Text → Option Text) where
  -- What the three methods have in common.
  unfoldable pub by_policy :
      Context → Plan → (Policy → Act CronTrigger (Unit {0})) → Act (Service W) (Unit {0})
  unfolding in_db in_cron get_trigger
  by_policy ctx plan call = do
    policy ← in_db (get_policy db ctx plan.policy_id)
    if get_trigger policy.schedule.type
        then in_cron (call policy)
        else fail (no_trigger policy.schedule.type)

  unfoldable pub with_policy :
      Context → Plan → (Policy → Act CronTrigger (Unit {0})) → Act (Service W) (Unit {0})
  unfolding by_policy
  with_policy ctx plan call =
      if is_empty plan.policy_id then fail (no_policy plan.id) else by_policy ctx plan call

  unfoldable pub manager_add : Context → Plan → Executer → Act (Service W) (Unit {0})
  unfolding with_policy
  manager_add ctx plan executer =
      with_policy ctx plan
        (λ policy. add cron_error plan.id policy.schedule.trigger_properties (some executer))

  unfoldable pub manager_update : Context → Plan → Executer → Act (Service W) (Unit {0})
  unfolding with_policy
  manager_update ctx plan executer =
      with_policy ctx plan
        (λ policy. update cron_error plan.id policy.schedule.trigger_properties (some executer))

  unfoldable pub manager_remove : Context → Plan → Act (Service W) (Unit {0})
  unfolding with_policy
  manager_remove ctx plan = with_policy ctx plan (λ policy. remove plan.id)
