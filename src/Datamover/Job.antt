-- ===== src/Datamover/Job.antt =====
-- A migration job and its copy in the database: `Job` of dataflow/pkg/model/dataflow_type.go,
-- `UpdateJob` of datamover/pkg/db/drivers/mongo/mongo.go, and `updateJob` of
-- datamover/pkg/drivers/https/migration.go.
pub mod Retry
pub mod Stored
pub mod Writes
use multi_cloud.Common.{
  ℕ, zero, suc, ◌+◌, ◌==◌, Bool, ◌||◌, Text, codes, text_eq, is_empty, [], ◌∷◌, ◌++◌, Option, none,
  some, if◌then◌else◌,
}
use multi_cloud.Common.Actions.{Act, return, ◌>>=◌, or_fail}

-- The fields that the data mover writes; a time is a number, and 0 is the zero time.
pub record Job : Type 0 where
  pub id : Text
  pub start_time : ℕ
  pub end_time : ℕ
  pub total_capacity : ℕ
  pub total_count : ℕ
  pub passed_count : ℕ
  pub passed_capacity : ℕ
  pub status : Text
  pub progress : ℕ
  pub step_desc : Text

abbrev pub running : Text
running = codes "running"

abbrev pub succeed : Text
succeed = codes "succeed"

abbrev pub failed_status : Text
failed_status = codes "failed"

abbrev pub or_old : ℕ → ℕ → ℕ
or_old old new = if new == 0 then old else new

abbrev pub or_old_text : Text → Text → Text
or_old_text old new = if is_empty new then old else new

-- The stored job after `UpdateJob`: a field with its zero value is left as it was stored.
unfoldable pub merge_job : Job → Job → Job
merge_job job stored = record {
  id = stored.id;
  start_time = or_old stored.start_time job.start_time;
  end_time = or_old stored.end_time job.end_time;
  total_capacity = or_old stored.total_capacity job.total_capacity;
  total_count = or_old stored.total_count job.total_count;
  passed_count = or_old stored.passed_count job.passed_count;
  passed_capacity = or_old stored.passed_capacity job.passed_capacity;
  status = or_old_text stored.status job.status;
  progress = or_old stored.progress job.progress;
  step_desc = or_old_text stored.step_desc job.step_desc;
}

-- The collection `job`: `Find` by id, and `Update` of the job with that id.
pub record JobCollection (W : Type 0) : Type 0 where
  pub find : Text → Act W Job
  pub update : Text → Job → Act W (Unit {0})

-- `UpdateJob` of the adapter.
unfoldable pub update_job_db : {W : Type 0} → JobCollection W → Job → Act W (Unit {0})
unfolding merge_job
update_job_db c job = do
  stored ← or_fail (codes "Get job failed before update it.") (c.find job.id)
  or_fail (codes "Update job in database failed.") (c.update stored.id (merge_job job stored))

-- The database adapter and the clock as `migration.go` uses them: `stamp` is the time as the step
-- descriptions print it.
pub record JobStore (W : Type 0) : Type 0 where
  pub update : Job → W → W × Option Text
  pub now : W → ℕ
  pub stamp : W → Text

abbrev pub is_final : Text → Bool
is_final status = text_eq status failed_status || text_eq status succeed

-- The job with one more step, and its new status.
unfoldable pub next_step : ℕ → Text → Text → Text → Job → Job
next_step now stamp status step j =
    let status' = or_old_text j.status status in
    record j {
      step_desc = j.step_desc ++ stamp ++ step ++ codes "\n";
      status = status';
      end_time = if is_final status' then now else j.end_time;
    }

module _ {W : Type 0} (store : JobStore W) where
  -- A call of the database whose error is not read.
  abbrev pub save : Job → W → W
  save j w = (store.update j w).0

  -- The loop of `updateJob` with `n` tries left.
  unfoldable pub try_update : ℕ → Job → W → W
  try_update zero j w = w
  try_update (suc n) j w =
      let (w', err) = store.update j w in
      let again = try_update n j w' in elim err [ none ↦ w' | some e ↦ again ]

  unfoldable pub update_job : Text → Text → Job → W → W × Job
  unfolding try_update next_step
  update_job status step j w =
      let j' = next_step (store.now w) (store.stamp w) status step j in (try_update 3 j' w, j')
