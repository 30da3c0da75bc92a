-- ===== src/Dataflow/Handlers.antt =====
-- dataflow/pkg/service.go and dataflow/pkg/job/job.go: the handlers of the service. A handler is given
-- the context that `NewContextFromJson` reads, and the body of an update as the JSON that it holds, or
-- none if it cannot be read. The text `out.Err` of an answer that goes with an error is left out.
use multi_cloud.Common.{
  ℕ, ◌+◌, Text, codes, is_empty, List, [], map, length, Option, none, some, if◌then◌else◌,
}
use multi_cloud.Common.Actions.{Act, return, fail, ◌>>=◌, tried}
use multi_cloud.Common.Int.{ℤ, page_error, to_int, wrap32}
use multi_cloud.Dataflow.Types.{Schedule, Policy, Context}
use multi_cloud.Dataflow.Driver.{Mongo}
use multi_cloud.Dataflow.Driver.Plans.{string_map}
use multi_cloud.Dataflow.Driver.Jobs.{get_job, list_job}
use multi_cloud.Dataflow.Run.{RunJobRequest, run}
use multi_cloud.Dataflow.Triggers.Manager.{Service, in_db}
use multi_cloud.Dataflow.Plans.{run_database}
use multi_cloud.Dataflow.Updates.{Json, UpdateMap}
use multi_cloud.Dataflow.Plans
use multi_cloud.Dataflow.Policies
use multi_cloud.Dataflow.Convert.{
  PbPlan, PbPolicy, PbJob, policy_model2_resp, plan_model2_resp, plan_of_request, job_model2_resp,
  job_model2_item,
}

unfoldable pub policy_of_request : {W : Type 0} → PbPolicy → Option Schedule → Act W Policy
policy_of_request req none = fail (codes "Get schedule failed.")
policy_of_request req (some schedule) =
    if is_empty req.name
    then fail (codes "Get schedule failed.")
    else return (record {
      id = [];
      name = req.name;
      description = req.description;
      schedule = schedule;
      tenant = [];
    })

abbrev pub policy_answer : Option Policy → Option PbPolicy
policy_answer none = none
policy_answer (some p) = some (policy_model2_resp p)

abbrev pub policies_answer : Option (List Policy) → List PbPolicy
policies_answer none = []
policies_answer (some ps) = map policy_model2_resp ps

abbrev pub body_or_fail : {W J : Type 0} → Option (UpdateMap J) → Act W (UpdateMap J)
body_or_fail none = fail (codes "invalid body")
body_or_fail (some entries) = return entries

module _ {W : Type 0} (db : Mongo W) (cron_error : Text → Option Text) where
  unfoldable pub handle_get_policy : Context → Text → Act (Service W) PbPolicy
  handle_get_policy ctx id =
      if is_empty id
      then fail (codes "No id provided.")
      else (Policies.get db cron_error ctx id >>= λ p. return (policy_model2_resp p))

  -- An error of the listing is only logged, and the answer is empty.
  unfoldable pub handle_list_policy : Context → Act (Service W) (List PbPolicy)
  handle_list_policy ctx = do
    pols ← tried (Policies.list db cron_error ctx)
    return (policies_answer pols)

  -- An error of `Create` is only logged, and the answer has no policy.
  unfoldable pub handle_create_policy : Context → PbPolicy → Act (Service W) (Option PbPolicy)
  unfolding policy_of_request
  handle_create_policy ctx req = do
    pol ← policy_of_request req req.schedule
    p ← tried (Policies.create db cron_error ctx pol)
    return (policy_answer p)

  unfoldable pub handle_delete_policy : Context → Text → Act (Service W) (Unit {0})
  handle_delete_policy ctx id =
      if is_empty id then fail (codes "Get id failed.") else Policies.delete db cron_error ctx id

  unfoldable pub handle_update_policy :
      {J : Type 0}
      → Json J
      → ℕ
      → Context
      → Text
      → Option (UpdateMap J)
      → Act (Service W) (Option PbPolicy)
  handle_update_policy json turns ctx id body =
      if is_empty id then fail (codes "No id provided.") else (do
        entries ← body_or_fail body
        p ← Policies.update db cron_error json turns ctx id entries
        return (policy_answer p))

  unfoldable pub handle_get_plan : Context → Text → Act (Service W) PbPlan
  handle_get_plan ctx id =
      if is_empty id
      then fail (codes "No id specified.")
      else (Plans.get db cron_error ctx id >>= λ p. return (plan_model2_resp p))

  -- The plans, and the offset of the next page.
  unfoldable pub handle_list_plan : ℤ → ℤ → List (Text × Text) → Act (Service W) (List PbPlan × ℤ)
  unfolding page_error to_int wrap32
  handle_list_plan limit offset filter =
      if page_error limit offset then fail (codes "Invalid pagination parameter") else (do
        plans ← Plans.list db cron_error (to_int limit) (to_int offset) (string_map filter)
        return (map plan_model2_resp plans, wrap32 (to_int offset + length plans)))

  unfoldable pub handle_create_plan : Context → PbPlan → Act (Service W) PbPlan
  unfolding plan_of_request
  handle_create_plan ctx req = do
    pl ← plan_of_request req
    p ← Plans.create db cron_error ctx pl
    return (plan_model2_resp p)

  unfoldable pub handle_delete_plan : Context → Text → Act (Service W) (Unit {0})
  handle_delete_plan ctx id =
      if is_empty id then fail (codes "Get id failed.") else Plans.delete db cron_error ctx id

  unfoldable pub handle_update_plan :
      {J : Type 0} → Json J → Context → Text → Option (UpdateMap J) → Act (Service W) PbPlan
  handle_update_plan json ctx id body = if is_empty id then fail (codes "No id provided.") else (do
    entries ← body_or_fail body
    p ← Plans.update db cron_error json ctx id entries
    return (plan_model2_resp p))

  unfoldable pub handle_run_plan : (RunJobRequest → W → W) → Context → Text → Act (Service W) Text
  handle_run_plan send_job ctx id = in_db (run (run_database db send_job ctx) id)

  unfoldable pub handle_get_job : Context → Text → Act (Service W) PbJob
  handle_get_job ctx id =
      if is_empty id
      then fail (codes "No id specified.")
      else (in_db (get_job db ctx id) >>= λ jb. return (job_model2_resp jb))

  unfoldable pub handle_list_job : ℤ → ℤ → List (Text × Text) → Act (Service W) (List PbJob × ℤ)
  unfolding page_error to_int wrap32
  handle_list_job limit offset filter =
      if page_error limit offset then fail (codes "Invalid pagination parameter") else (do
        jobs ← in_db (list_job db (to_int limit) (to_int offset) filter)
        return (map job_model2_item jobs, wrap32 (to_int offset + length jobs)))
