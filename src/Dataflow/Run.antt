-- ===== src/Dataflow/Run.antt =====
-- dataflow/pkg/plan/plan.go: a plan that is run, by hand or by its trigger.
pub mod Release
use multi_cloud.Common.{
  ℕ, zero, suc, Bool, true, false, Text, codes, text_eq, List, [], ◌∷◌, Option, none, some,
  if◌then◌else◌,
}
use multi_cloud.Common.Actions.{Act, Result, done, failed, panicked, return, fail, ◌>>=◌, tried}
use multi_cloud.Datamover.Types.{
  StorType, opensds, aws_s3, azure_blob, hw_obs, ceph_s3, hw_fusionstorage, hw_fusioncloud,
  other_type, Kv, Connector,
}
use multi_cloud.Dataflow.Types.{Plan, Job, AsistInfo, err_inner_err, err_run_plan_busy}
use multi_cloud.Dataflow.Lock.{
  LockResult, lock_success, lock_busy, lock_db_err, Locks, lock_sched, unlock_sched,
}

-- `datamover.RunJobRequest`.
pub record RunJobRequest : Type 0 where
  pub id : Text
  pub remain_source : Bool
  pub filt : Text
  pub source_conn : Connector
  pub dest_conn : Connector
  pub asist : AsistInfo

-- The database adapter, the queue to the data mover and the clock. `create_job` gives the id that the
-- job was given, and whether there was no error.
pub record Database (W : Type 0) : Type 0 where
  pub locks : Locks W
  pub get_plan : Text → Act W Plan
  pub create_job : Job → Act W (Text × Bool)
  pub send_job : RunJobRequest → W → W

unfoldable pub find_bucketname : List Kv → Option Text
find_bucketname [] = none
find_bucketname (kv ∷ cfg) =
    let rest = find_bucketname cfg in
    if text_eq kv.key (codes "bucketname") then some kv.value else rest

unfoldable pub bucket_location : {W : Type 0} → Option Text → Act W Text
bucket_location none = fail (codes "No bucket provided for sefldefine connector.")
bucket_location (some bucket) = return bucket

unfoldable pub config_location : {W : Type 0} → List Kv → Act W Text
unfolding find_bucketname bucket_location
config_location cfg = bucket_location (find_bucketname cfg)

unfoldable pub location_by : {W : Type 0} → StorType → Connector → Act W Text
unfolding config_location
location_by opensds conn = return conn.bucket_name
location_by aws_s3 conn = config_location conn.conn_config
location_by azure_blob conn = config_location conn.conn_config
location_by hw_obs conn = config_location conn.conn_config
location_by ceph_s3 conn = config_location conn.conn_config
location_by hw_fusionstorage conn = config_location conn.conn_config
location_by hw_fusioncloud conn = config_location conn.conn_config
location_by (other_type t) conn = fail err_inner_err

unfoldable pub get_location : {W : Type 0} → Connector → Act W Text
unfolding location_by
get_location conn = location_by conn.type conn

-- The bucket goes along for the own storage, the configuration for every other one.
unfoldable pub conn_by : StorType → Connector → Connector
conn_by opensds conn = record { type = opensds; bucket_name = conn.bucket_name; conn_config = [] }
conn_by t conn = record { type = t; bucket_name = []; conn_config = conn.conn_config }

unfoldable pub build_conn : Connector → Connector
unfolding conn_by
build_conn conn = conn_by conn.type conn

-- The job of a run that begins at a time.
unfoldable pub planned_job : Plan → ℕ → Text → Text → Job
planned_job plan ct src_location dest_location = record {
  id = [];
  trigger_type = [];
  type = plan.type;
  plan_name = plan.name;
  plan_id = plan.id;
  total_count = 0;
  passed_count = 0;
  total_capacity = 0;
  passed_capacity = 0;
  source_location = src_location;
  dest_location = dest_location;
  create_time = ct;
  start_time = 0;
  end_time = 0;
  remain_source = plan.remain_source;
  status = codes "pending";
  tenant = [];
  progress = 0;
  step_desc = [];
}

unfoldable pub run_request : Plan → Text → RunJobRequest
unfolding build_conn
run_request plan job_id = record {
  id = job_id;
  remain_source = plan.remain_source;
  filt = plan.filter.prefix;
  source_conn = build_conn plan.source_conn;
  dest_conn = build_conn plan.dest_conn;
  asist = record { type = plan.asist.type; details = plan.asist.details };
}

-- What the loop round `LockSched` comes to: the lock with its release deferred, no lock, or the
-- return with `ERR_RUN_PLAN_BUSY`.
pub data Turn : Type 0 where
  locked : Turn
  unlocked : Turn
  refused : Turn

module _ {W : Type 0} (db : Database W) where
  -- The loop with `n` turns left, on the last result.
  unfoldable pub lock_turns : ℕ → Text → W × LockResult → W × Turn
  lock_turns zero id (w, r) = (w, unlocked)
  lock_turns (suc n) id (w, lock_success) = (w, locked)
  lock_turns (suc n) id (w, lock_busy) = (w, refused)
  lock_turns (suc n) id (w, lock_db_err) = lock_turns n id (lock_sched db.locks id w)

  -- A job that cannot be added is only logged; the run returns the id that it would have had.
  unfoldable pub after_create : Plan → Text × Bool → Act W Text
  after_create plan (job_id, true) w = (db.send_job (run_request plan job_id) w, done job_id)
  after_create plan (job_id, false) w = (w, done job_id)

  unfoldable pub create_planned : Plan → Text → Text → Act W Text
  unfolding planned_job after_create
  create_planned plan src_location dest_location w =
      (db.create_job (planned_job plan (db.locks.now w) src_location dest_location)
          >>= after_create plan)
        w

  unfoldable pub run_body : Plan → Act W Text
  unfolding create_planned get_location
  run_body plan = do
    src_location ← get_location plan.source_conn
    dest_location ← get_location plan.dest_conn
    create_planned plan src_location dest_location

  unfoldable pub released : Text → W × Result Text → W × Result Text
  released id (w, r) = ((unlock_sched db.locks id w).0, r)

  unfoldable pub run_turn : Plan → W × Turn → W × Result Text
  unfolding run_body released
  run_turn plan (w, locked) = released plan.id (run_body plan w)
  run_turn plan (w, unlocked) = run_body plan w
  run_turn plan (w, refused) = (w, failed err_run_plan_busy)

  unfoldable pub run_plan : Plan → Act W Text
  unfolding run_turn lock_turns
  run_plan plan w = run_turn plan (lock_turns 3 plan.id (lock_sched db.locks plan.id w))

  unfoldable pub run : Text → Act W Text
  unfolding run_plan
  run id = db.get_plan id >>= run_plan
