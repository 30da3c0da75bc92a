-- ===== src/Dataflow/Tests/Changes.antt =====
-- dataflow: the theorems on plans, policies and triggers at a database that keeps lists.
use multi_cloud.Common.{
  ◌≡◌, refl, true, false, codes, List, [], ◌∷◌, take, drop, none, some, ◌⊎◌, ℕ,
}
use multi_cloud.Common.Actions.{Act, Result, done, failed, fail, ◌>>=◌, attempt}
use multi_cloud.Datamover.Types.{opensds}
use multi_cloud.Dataflow.Types.{Filter, AsistInfo, Plan, Context, err_inner_err}
use multi_cloud.Dataflow.Connectors.{check_conn_validation}
use multi_cloud.Dataflow.Lock.{lock}
use multi_cloud.Dataflow.Driver.{asked, wrote, lock_manager, managed}
use multi_cloud.Dataflow.Driver.Policies.{get_policy, update_policy}
use multi_cloud.Dataflow.Driver.Plans.{get_plan, add_plan, create_plan, delete_plan}
use multi_cloud.Dataflow.Driver.Held.{waited, managed-frees}
use multi_cloud.Dataflow.Triggers.{Executer, CronTrigger}
use multi_cloud.Dataflow.Triggers
use multi_cloud.Dataflow.Triggers.Tidy.{add-Sets, update-Sets}
use multi_cloud.Dataflow.Triggers.TimeTables.{IsTidy, Sets}
use multi_cloud.Dataflow.Triggers.Manager.{Service, in_db, manager_remove}
use multi_cloud.Dataflow.Plans.{create, delete}
use multi_cloud.Dataflow.Plans.Created.{Created, create-Created}
use multi_cloud.Dataflow.Plans.Stopped.{delete-stops}
use multi_cloud.Dataflow.Policies.{merge_policy}
use multi_cloud.Dataflow.Policies
use multi_cloud.Dataflow.Policies.Schedules.{update_schedule_fails}
use multi_cloud.Dataflow.Convert.{PbPlan, plan_of_request, plan_model2_resp}
use multi_cloud.Dataflow.Convert.RoundTrip.{unnamed, request_of, plan_of_request-resp}
use multi_cloud.Dataflow.Tests.{Rows, one_row_laws, can_remove, at_100, plan}
use multi_cloud.Dataflow.Tests.Stored.{
  rows_db, rows_laws, nightly, not_empty, no_crons, no_crons-IsTidy, service, texts, entry,
}

abbrev caller : Context
caller = record { tenant_id = codes "t1"; is_admin = false; user_id = codes "u1" }

adding_under_lock :
    (managed rows_db (add_plan rows_db plan) (at_100 none) ≡ (
      waited rows_db 3 (lock rows_db.locks lock_manager 5 (at_100 none)).0,
      failed err_inner_err,
    ))
    ⊎ ((v : Rows) × (t : ℕ) × (v.row ≡ some t)
        × ((managed rows_db (add_plan rows_db plan) (at_100 none)).1 ≡ (add_plan rows_db plan v).1)
        × ((managed rows_db (add_plan rows_db plan) (at_100 none)).0.row ≡ none))
adding_under_lock =
    managed-frees rows_db one_row_laws (add_plan rows_db plan) (at_100 none) can_remove

abbrev exe : Executer
exe = record { plan_id = codes "p1"; tenant_id = codes "t1"; ctx = caller }

-- A plan that is run hourly is run daily after the update.
hourly_IsTidy : IsTidy (Triggers.add not_empty (codes "p1") (codes "@hourly") (some exe) no_crons).0
hourly_IsTidy =
    (add-Sets not_empty no_crons (codes "p1") (codes "@hourly") exe no_crons-IsTidy refl refl).tidy

daily_instead :
    Sets
      (Triggers.add not_empty (codes "p1") (codes "@hourly") (some exe) no_crons).0
      (codes "p1")
      (codes "@daily" ∷ [])
      (Triggers.update not_empty
        (codes "p1")
        (codes "@daily")
        (some exe)
        (Triggers.add not_empty (codes "p1") (codes "@hourly") (some exe) no_crons).0).0
daily_instead =
    update-Sets not_empty
      (Triggers.add not_empty (codes "p1") (codes "@hourly") (some exe) no_crons).0 (codes "p1")
      (codes "@daily") exe hourly_IsTidy refl

-- A plan between buckets of the own storage, with a policy.
abbrev scheduled : Plan
scheduled = record plan {
  dest_conn = record { type = opensds; bucket_name = codes "v2"; conn_config = [] };
  policy_id = codes "c1";
  policy_enabled = true;
}

abbrev with_nightly : Rows
with_nightly = record (at_100 none) { policies = nightly ∷ [] }

abbrev creating : Service Rows × Result Plan
creating = create rows_db not_empty caller scheduled (service with_nightly)

abbrev created_plan : Plan
created_plan = record scheduled {
  id = 7 ∷ [];
  policy_ref = some (codes "c1");
  last_sched_time = 0;
  tenant_id = codes "t1";
}

creating_returns : creating ≡ (creating.0, done created_plan)
unfolding create check_conn_validation ◌>>=◌ create_plan lock asked get_policy Triggers.add
creating_returns = refl

stored_plan : Created rows_db rows_laws caller scheduled created_plan creating.0.world
stored_plan =
    create-Created rows_db rows_laws not_empty caller scheduled created_plan (service with_nightly)
      creating.0 creating_returns

-- The plan is deleted while a cron runs it.
abbrev with_plan : Service Rows
with_plan = record {
  world = record with_nightly { plans = record created_plan { id = codes "p1" } ∷ [] };
  cron = (Triggers.add not_empty (codes "p1") (codes "@hourly") (some exe) no_crons).0;
}

abbrev deleting : Service Rows × Result (Unit {0})
deleting = delete rows_db not_empty caller (codes "p1") with_plan

abbrev read_plan : Plan
read_plan = record created_plan { id = codes "p1"; policy_name = codes "nightly" }

reading : get_plan rows_db caller (codes "p1") with_plan.world ≡ (with_plan.world, done read_plan)
unfolding get_plan ◌>>=◌ asked
reading = refl

deleting_returns : deleting ≡ (deleting.0, done tt)
unfolding delete in_db get_plan ◌>>=◌ asked attempt manager_remove get_policy Triggers.remove
    delete_plan lock wrote
deleting_returns = refl

stopped_plan : Sets with_plan.cron (codes "p1") [] deleting.0.cron
stopped_plan =
    delete-stops rows_db not_empty caller (codes "p1") read_plan with_plan.world with_plan
      deleting.0 hourly_IsTidy reading refl deleting_returns

-- Three plans in pages of two.
abbrev three : List Plan
three = scheduled ∷ plan ∷ read_plan ∷ []

abbrev paging : ℕ → Act (Service Rows) (List Plan)
paging offset s = (s, done (take 2 (drop offset three)))

schedule_refused :
    (Policies.update rows_db not_empty texts 2 caller
        (codes "c1")
        (entry (codes "schedule") (codes "@weekly"))
      ≡ (do
        cur_pol ← in_db (get_policy rows_db caller (codes "c1"))
        pol ← merge_policy texts (entry (codes "schedule") (codes "@weekly")) cur_pol
        resp ← in_db (update_policy rows_db pol)
        fail err_inner_err))
    × ((s : Service Rows)
        → (Policies.update rows_db not_empty texts 2 caller
            (codes "c1")
            (entry (codes "schedule") (codes "@weekly"))
            s).0.cron
          ≡ s.cron)
schedule_refused =
    update_schedule_fails rows_db not_empty 1 caller texts (codes "c1")
      (entry (codes "schedule") (codes "@weekly")) (codes "@weekly") refl

abbrev request : PbPlan
request = record {
  id = [];
  name = codes "nightly";
  description = [];
  type = codes "migration";
  policy_id = codes "c1";
  policy_name = [];
  source_conn = none;
  dest_conn = none;
  filter = none;
  remain_source = true;
  tenant_id = codes "t1";
  user_id = codes "u1";
  policy_enabled = true;
  asist = none;
}

abbrev prefix_a : Filter
prefix_a = record { prefix = codes "a/"; tag = [] }

abbrev no_asist : AsistInfo
no_asist = record { type = []; details = [] }

answered_alike :
    (pl : Plan) × ((w : Rows)
      → plan_of_request (request_of request plan.source_conn plan.dest_conn prefix_a no_asist) w
        ≡ (w, done pl))
    × (plan_model2_resp pl
        ≡ unnamed (request_of request plan.source_conn plan.dest_conn prefix_a no_asist))
answered_alike =
    plan_of_request-resp request plan.source_conn plan.dest_conn prefix_a no_asist refl refl refl
      refl
