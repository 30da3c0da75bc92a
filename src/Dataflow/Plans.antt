-- ===== src/Dataflow/Plans.antt =====
-- dataflow/pkg/plan/plan.go: creating, changing and deleting plans, with their triggers.
pub mod Entries
pub mod Checked
pub mod Created
pub mod Unset
pub mod Stopped
use multi_cloud.Common.{
  ℕ, leb, ◌==◌, Bool, true, false, ◌&&◌, ◌||◌, not, Text, codes, text_eq, is_empty, List, [], ◌∷◌,
  Option, none, some, if◌then◌else◌,
}
use multi_cloud.Common.Actions.{
  Act, Result, done, failed, panicked, return, fail, panic, ◌>>=◌, attempt,
}
use multi_cloud.Datamover.Types.{StorType, opensds, Connector}
use multi_cloud.Dataflow.Types.{
  Schedule, Filter, AsistInfo, Plan, Context, err_invalid_plan_name, err_dest_src_conn_equal,
  err_src_conn_not_exist, err_dest_conn_not_exist, err_plan_not_exist,
}
use multi_cloud.Dataflow.Connectors.{is_equal, check_conn_validation}
use multi_cloud.Dataflow.Driver.{Mongo}
use multi_cloud.Dataflow.Driver.Plans.{
  ListFilter, create_plan, get_plan, delete_plan, update_plan, list_plan,
}
use multi_cloud.Dataflow.Driver.Jobs.{create_job}
use multi_cloud.Dataflow.Run.{RunJobRequest, Database, run}
use multi_cloud.Dataflow.Triggers.{Executer}
use multi_cloud.Dataflow.Triggers.Manager.{Service, in_db, manager_add, manager_remove}
use multi_cloud.Dataflow.Updates.{Json, UpdateMap, match_name, merge_plan, need_update_trigger}

unfoldable pub new_plan_executor : Context → Plan → Executer
new_plan_executor ctx plan = record { plan_id = plan.id; tenant_id = plan.tenant_id; ctx = ctx }

-- The tests of `Create`, and the error of the first one that fails.
unfoldable pub check_plan : Plan → Option Text
unfolding match_name is_equal
check_plan plan =
    if not (match_name plan.name)
    then some err_invalid_plan_name
    else if is_equal plan.source_conn plan.dest_conn
    then some err_dest_src_conn_equal
    else if not (check_conn_validation plan.source_conn)
    then some err_src_conn_not_exist
    else if not (check_conn_validation plan.dest_conn)
    then some err_dest_conn_not_exist
    else none

module _ {W : Type 0} (db : Mongo W) (cron_error : Text → Option Text) where
  -- The plan is given to its trigger if it has a policy that is enabled.
  unfoldable pub add_trigger : Context → Plan → Act (Service W) (Unit {0})
  unfolding manager_add new_plan_executor
  add_trigger ctx plan =
      if not (is_empty plan.policy_id) && plan.policy_enabled
      then manager_add db cron_error ctx plan (new_plan_executor ctx plan)
      else return tt

  unfoldable pub store_plan : Context → Plan → Act (Service W) Plan
  unfolding add_trigger
  store_plan ctx plan = do
    stored ← in_db (create_plan db ctx plan)
    triggered ← add_trigger ctx stored
    return stored

  unfoldable pub create_by : Option Text → Context → Plan → Act (Service W) Plan
  unfolding store_plan
  create_by (some e) ctx plan = fail e
  create_by none ctx plan = store_plan ctx (record plan { id = []; last_sched_time = 0 })

  unfoldable pub create : Context → Plan → Act (Service W) Plan
  unfolding create_by check_plan
  create ctx plan = create_by (check_plan plan) ctx plan

  -- An error of the trigger that is not the absence of the plan ends `Delete`.
  unfoldable pub trigger_error : Option Text → Act (Service W) (Unit {0})
  trigger_error none = return tt
  trigger_error (some e) = if text_eq e err_plan_not_exist then return tt else fail e

  unfoldable pub remove_trigger : Context → Plan → Act (Service W) (Unit {0})
  unfolding trigger_error
  remove_trigger ctx plan =
      if is_empty plan.policy_id
      then return tt
      else (attempt (manager_remove db cron_error ctx plan) >>= trigger_error)

  unfoldable pub delete_found : Context → Text → Plan → Act (Service W) (Unit {0})
  unfolding remove_trigger
  delete_found ctx id plan = do removed ← remove_trigger ctx plan; in_db (delete_plan db ctx id)

  -- A plan that does not exist is as good as deleted.
  unfoldable pub after_get :
      Context → Text → Service W × Result Plan → Service W × Result (Unit {0})
  unfolding delete_found
  after_get ctx id (s, done plan) = delete_found ctx id plan s
  after_get ctx id (s, failed e) = (s, if text_eq e err_plan_not_exist then done tt else failed e)
  after_get ctx id (s, panicked) = (s, panicked)

  unfoldable pub delete : Context → Text → Act (Service W) (Unit {0})
  unfolding after_get
  delete ctx id s = after_get ctx id (in_db (get_plan db ctx id) s)

  unfoldable pub move_trigger : Context → Plan → Act (Service W) (Unit {0})
  unfolding add_trigger
  move_trigger ctx plan = do
    removed ← attempt (manager_remove db cron_error ctx plan)
    add_trigger ctx plan

  unfoldable pub finish_update : Context → Bool → Plan → Act (Service W) Plan
  unfolding move_trigger
  finish_update ctx needed plan = do
    moved ← (if needed then move_trigger ctx plan else return tt)
    in_db (update_plan db plan)

  unfoldable pub update :
      {J : Type 0} → Json J → Context → Text → UpdateMap J → Act (Service W) Plan
  unfolding merge_plan need_update_trigger finish_update
  update json ctx plan_id map = do
    cur_plan ← in_db (get_plan db ctx plan_id)
    plan ← merge_plan json map cur_plan
    finish_update ctx (need_update_trigger json map) plan

  unfoldable pub get : Context → Text → Act (Service W) Plan
  get ctx id = in_db (get_plan db ctx id)

  unfoldable pub list : ℕ → ℕ → ListFilter → Act (Service W) (List Plan)
  list limit offset filter = in_db (list_plan db limit offset filter)

-- A run of a plan as the service and the triggers start it, on the queue `send_job`.
module _ {W : Type 0} (db : Mongo W) (send_job : RunJobRequest → W → W) where
  unfoldable pub run_database : Context → Database W
  run_database ctx = record {
    locks = db.locks;
    get_plan = get_plan db ctx;
    create_job = create_job db ctx;
    send_job = send_job;
  }

  -- `TriggerExecutor.Run`: an error is only logged.
  unfoldable pub executor_run : Executer → Act W (Option Text)
  unfolding run_database
  executor_run p = attempt (run (run_database p.ctx) p.plan_id)
