-- ===== src/Dataflow/Scheduler.antt =====
-- dataflow/pkg/scheduler/scheduler.go: the plans that are given to their triggers when the service
-- starts.
pub mod Pages
pub mod Startup
use multi_cloud.Common.{
  ℕ, zero, suc, ◌+◌, Bool, true, false, ◌&&◌, not, is_empty, Text, List, [], ◌∷◌, length, Option,
  if◌then◌else◌,
}
use multi_cloud.Common.Actions.{Act, Result, done, failed, panicked, return, ◌>>=◌, attempt}
use multi_cloud.Dataflow.Types.{Plan, admin_context}
use multi_cloud.Dataflow.Driver.{Mongo}
use multi_cloud.Dataflow.Driver.Plans.{no_filter, list_plan}
use multi_cloud.Dataflow.Plans.{new_plan_executor}
use multi_cloud.Dataflow.Triggers.Manager.{Service, in_db, manager_add}

module _ {W : Type 0} (db : Mongo W) (cron_error : Text → Option Text) where
  -- One plan; an error of its trigger is only logged.
  unfoldable pub load_enabled : Plan → Act (Service W) (Unit {0})
  unfolding manager_add new_plan_executor
  load_enabled p = do
    err ← attempt (manager_add db cron_error admin_context p (new_plan_executor admin_context p))
    return tt

  unfoldable pub load_plan : Plan → Act (Service W) (Unit {0})
  unfolding load_enabled
  load_plan p = if not (is_empty p.policy_id) && p.policy_enabled then load_enabled p else return tt

  unfoldable pub load_each : List Plan → Act (Service W) (Unit {0})
  unfolding load_plan
  load_each [] = return tt
  load_each (p ∷ ps) = do loaded ← load_plan p; load_each ps

  -- What the loop does with a page; an error of a listing ends it.
  unfoldable pub load_page :
      (ℕ → Act (Service W) Bool) → ℕ → Service W × Result (List Plan) → Service W × Result Bool
  unfolding load_each
  load_page next offset (s, failed e) = (s, done true)
  load_page next offset (s, panicked) = (s, panicked)
  load_page next offset (s, done []) = (s, done true)
  load_page next offset (s, done (p ∷ ps)) =
      (load_each (p ∷ ps) >>= λ loaded. next (offset + length (p ∷ ps))) s

  -- The loop over the pages on a number of turns, from an offset. The result is whether the loop
  -- ended by itself.
  unfoldable pub load_pages : (ℕ → Act (Service W) (List Plan)) → ℕ → ℕ → Act (Service W) Bool
  unfolding load_page
  load_pages pages zero offset s = (s, done false)
  load_pages pages (suc n) offset s = load_page (load_pages pages n) offset (pages offset s)

  unfoldable pub load_all_plans : ℕ → Act (Service W) Bool
  unfolding load_pages
  load_all_plans n = load_pages (λ offset. in_db (list_plan db 1000 offset no_filter)) n 0
