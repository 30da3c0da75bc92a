-- ===== src/Dataflow/Triggers.antt =====
-- dataflow/pkg/scheduler/trigger/crontrigger/crontrigger.go: the trigger that starts plans by cron.
pub mod Manager
pub mod TimeTables
pub mod Tidy
use multi_cloud.Common.{
  ℕ, ◌+◌, ◌==◌, Bool, true, false, not, Text, codes, text_eq, List, [], ◌∷◌, ◌++◌, Option, none,
  some, if◌then◌else◌,
}
use multi_cloud.Common.Actions.{Act, Result, done, failed, return, fail, ◌>>=◌}
use multi_cloud.Dataflow.Types.{Context, err_plan_not_in_trigger}

-- `TriggerExecutor` of dataflow/pkg/plan.
pub record Executer : Type 0 where
  pub plan_id : Text
  pub tenant_id : Text
  pub ctx : Context

-- A cron that has been started and not stopped; `properties` is the time table of its one entry. A
-- function that is nil is an executer none.
pub record Running : Type 0 where
  pub handle : ℕ
  pub properties : Text
  pub executer : Option Executer

-- `CronTrigger`: the map from plans to crons, with what the crons do. A cron is known by a handle, and
-- `next` is the handle of the next one that is made.
pub record CronTrigger : Type 0 where
  pub plans : Text → Option ℕ
  pub running : List Running
  pub next : ℕ

abbrev pub put : Text → Option ℕ → (Text → Option ℕ) → Text → Option ℕ
put k v m j = if text_eq k j then v else m j

-- `cn.Stop()`.
unfoldable pub stop : ℕ → List Running → List Running
stop h [] = []
stop h (r ∷ rs) = let rest = stop h rs in if r.handle == h then rest else r ∷ rest

-- `AddFunc`, with what the parser of the cron library says about the time table, and `Start`.
unfoldable pub start_with :
    Option Text → ℕ → Text → Text → Option Executer → Act CronTrigger (Unit {0})
start_with (some e) handle plan_id properties executer c =
    (c, failed (codes "Add plan(" ++ (plan_id ++ (codes ") to corn trigger failed: " ++ e))))
start_with none handle plan_id properties executer c = (
  record c {
    running = record { handle = handle; properties = properties; executer = executer } ∷ c.running;
  },
  done tt,
)

unfoldable pub remove_found : Text → Option ℕ → CronTrigger → CronTrigger
unfolding stop
remove_found plan_id none c = c
remove_found plan_id (some h) c = record c {
  plans = put plan_id none c.plans;
  running = stop h c.running;
}

unfoldable pub remove : Text → Act CronTrigger (Unit {0})
unfolding remove_found
remove plan_id c = (remove_found plan_id (c.plans plan_id) c, done tt)

-- `cron_error` is the parser of the cron library: the error of a time table that it cannot read.
module _ (cron_error : Text → Option Text) where
  unfoldable pub add : Text → Text → Option Executer → Act CronTrigger (Unit {0})
  unfolding start_with
  add plan_id properties executer c =
      start_with (cron_error properties) c.next plan_id properties executer
        (record c { plans = put plan_id (some c.next) c.plans; next = c.next + 1 })

  -- Without an executer, a plan that is in the map is refused, and for one that is not the nil cron of
  -- the failed look-up is run.
  unfoldable pub update_by : Option Executer → Option ℕ → Text → Text → Act CronTrigger (Unit {0})
  unfolding add remove
  update_by none (some h) plan_id properties = fail err_plan_not_in_trigger
  update_by none none plan_id properties = do gone ← remove plan_id; add plan_id properties none
  update_by (some exe) found plan_id properties = do
    gone ← remove plan_id
    add plan_id properties (some exe)

  unfoldable pub update : Text → Text → Option Executer → Act CronTrigger (Unit {0})
  unfolding update_by
  update plan_id properties executer c = update_by executer (c.plans plan_id) plan_id properties c
