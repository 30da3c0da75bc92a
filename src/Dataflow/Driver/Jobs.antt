-- ===== src/Dataflow/Driver/Jobs.antt =====
-- dataflow/pkg/db/drivers/mongo/mongo.go: the jobs in the database.
use multi_cloud.Common.{ℕ, zero, suc, Bool, true, false, Text, codes, List, [], ◌∷◌}
use multi_cloud.Common.Actions.{Act, Result, done, failed, ◌>>=◌}
use multi_cloud.Dataflow.Types.{Job, Context, err_job_not_exist}
use multi_cloud.Dataflow.Driver.{
  all_of, Reply, found, missing, broken, Write, written, not_found, duplicate, write_error, Mongo,
  hex_id,
}

-- `Job{}`.
abbrev pub empty_job : Job
empty_job = record {
  id = [];
  trigger_type = [];
  type = [];
  plan_name = [];
  plan_id = [];
  total_count = 0;
  passed_count = 0;
  total_capacity = 0;
  passed_capacity = 0;
  source_location = [];
  dest_location = [];
  create_time = 0;
  start_time = 0;
  end_time = 0;
  remain_source = false;
  status = [];
  tenant = [];
  progress = 0;
  step_desc = [];
}

-- A job that cannot be read for another reason than its absence comes out empty.
unfoldable pub read_job : {W : Type 0} → W × Reply Job → W × Result Job
read_job (w, found job) = (w, done job)
read_job (w, missing) = (w, failed err_job_not_exist)
read_job (w, broken) = (w, done empty_job)

-- An error of a listing with no jobs is none.
unfoldable pub read_jobs : {W : Type 0} → W × Reply (List Job) → W × Result (List Job)
read_jobs (w, found jobs) = (w, done jobs)
read_jobs (w, missing) = (w, done [])
read_jobs (w, broken) = (w, done [])

module _ {W : Type 0} (db : Mongo W) where
  -- The loop with `n` turns left, after an insertion: the id of the job, and whether it is stored.
  unfoldable pub job_turns : ℕ → Job → W × Write → W × Text × Bool
  job_turns n job (w, written) = (w, job.id, true)
  job_turns n job (w, not_found) = (w, job.id, false)
  job_turns n job (w, write_error e) = (w, job.id, false)
  job_turns zero job (w, duplicate e) = (w, job.id, false)
  job_turns (suc n) job (w, duplicate e) =
      let (w', id) = db.new_object_id w in
      let job' = record job { id = id } in job_turns n job' (db.jobs.insert job' w')

  unfoldable pub create_job : Context → Job → Act W (Text × Bool)
  unfolding job_turns
  create_job ctx job w =
      let (w', id) = db.new_object_id w in
      let job' = record job { id = id; tenant = ctx.tenant_id } in
      let (w2, job_id, fine) = job_turns 2 job' (db.jobs.insert job' w') in
      (w2, done (job_id, fine))

  unfoldable pub find_job : Context → Text → Act W Job
  unfolding read_job
  find_job ctx hex w =
      read_job
        (db.jobs.find_one (all_of ((codes "_id", hex) ∷ (codes "tenant", ctx.tenant_id) ∷ [])) w)

  unfoldable pub get_job : Context → Text → Act W Job
  unfolding hex_id find_job
  get_job ctx id = hex_id db id >>= find_job ctx

  unfoldable pub list_job : ℕ → ℕ → List (Text × Text) → Act W (List Job)
  unfolding read_jobs
  list_job limit offset filter w = read_jobs (db.jobs.find_all (all_of filter) offset limit w)
