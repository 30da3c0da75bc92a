-- ===== src/Dataflow/Scheduler/Startup.antt =====
-- dataflow/pkg/scheduler/scheduler.go and dataflow/pkg/db/drivers/mongo/mongo.go: what a start of the
-- service loads.
use multi_cloud.Common.{ℕ, suc, ◌≡◌, refl, true, Text, Option}
use multi_cloud.Common.Actions.{done, ◌>>=◌}
use multi_cloud.Dataflow.Driver.{Mongo}
use multi_cloud.Dataflow.Driver.Plans.{plans_by, do_list_plan, list_plan}
use multi_cloud.Dataflow.Triggers.Manager.{Service, in_db}
use multi_cloud.Dataflow.Scheduler.{load_page, load_pages, load_all_plans}

-- Whatever plans the database holds, `LoadAllPlans` ends after one turn and gives none of them to a
-- trigger: it lists the plans with no filter, and without one the driver asks the database nothing.
pub load_all_plans_nothing :
    {W : Type 0} (db : Mongo W) (cron_error : Text → Option Text) (turns : ℕ) (s : Service W)
    → load_all_plans db cron_error (suc turns) s ≡ (s, done true)
unfolding load_all_plans load_pages load_page in_db list_plan do_list_plan plans_by ◌>>=◌
load_all_plans_nothing db cron_error turns s = refl
