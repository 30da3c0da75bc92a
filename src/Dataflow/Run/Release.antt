-- ===== src/Dataflow/Run/Release.antt =====
-- dataflow/pkg/plan/plan.go, `Run`: the lock round a run.
use multi_cloud.Common.{
  ℕ, zero, suc, ◌≡◌, ◌≢◌, ◌∙◌, refl, ap, sym, Bool, true, false, Text, Option, none, some, ◌⊎◌, inl,
  inr,
}
use multi_cloud.Common.Actions.{Result, failed}
use multi_cloud.Common.Promises.{Keeps, bind-Keeps, return-Keeps, fail-Keeps}
use multi_cloud.Datamover.Types.{
  StorType, opensds, aws_s3, azure_blob, hw_obs, ceph_s3, hw_fusionstorage, hw_fusioncloud,
  other_type, Connector,
}
use multi_cloud.Dataflow.Lock.{
  LockResult, lock_success, lock_busy, lock_db_err, lock_sched, unlock_sched, unlock,
}
use multi_cloud.Dataflow.Lock.Means.{LockLaws, Means, lock-Means}
use multi_cloud.Dataflow.Types.{Plan, Job, err_run_plan_busy}
use multi_cloud.Dataflow.Run.{
  RunJobRequest, Database, config_location, bucket_location, find_bucketname, location_by,
  get_location, unlocked, lock_turns, after_create, planned_job, create_planned, run_body, run_turn,
  run_plan,
}

-- The rest of the database leaves the locks alone.
pub record LeavesLocks {W : Type 0} (db : Database W) (laws : LockLaws db.locks) (n : Text)
    : Type 0 where
  pub create_keeps :
      (row : Option ℕ) (job : Job) → Keeps (λ w. laws.held w n ≡ row) (db.create_job job)
  pub send_keeps : (r : RunJobRequest) (w : W) → laws.held (db.send_job r w) n ≡ laws.held w n

module _ {W : Type 0} (db : Database W) (laws : LockLaws db.locks) (plan : Plan)
    (others : LeavesLocks db laws plan.id) where
  bucket_location-Keeps : (P : W → Type 0) (found : Option Text) → Keeps P (bucket_location found)
  unfolding bucket_location
  bucket_location-Keeps P none = fail-Keeps
  bucket_location-Keeps P (some b) = return-Keeps

  location_by-Keeps :
      (P : W → Type 0) (t : StorType) (conn : Connector) → Keeps P (location_by t conn)
  unfolding location_by config_location
  location_by-Keeps P opensds conn = return-Keeps
  location_by-Keeps P aws_s3 conn = bucket_location-Keeps P (find_bucketname conn.conn_config)
  location_by-Keeps P azure_blob conn = bucket_location-Keeps P (find_bucketname conn.conn_config)
  location_by-Keeps P hw_obs conn = bucket_location-Keeps P (find_bucketname conn.conn_config)
  location_by-Keeps P ceph_s3 conn = bucket_location-Keeps P (find_bucketname conn.conn_config)
  location_by-Keeps P hw_fusionstorage conn =
      bucket_location-Keeps P (find_bucketname conn.conn_config)
  location_by-Keeps P hw_fusioncloud conn =
      bucket_location-Keeps P (find_bucketname conn.conn_config)
  location_by-Keeps P (other_type t) conn = fail-Keeps

  after_create-Keeps :
      (row : Option ℕ) (created : Text × Bool)
      → Keeps (λ w. laws.held w plan.id ≡ row) (after_create db plan created)
  unfolding after_create
  after_create-Keeps row (job_id, true) = record { keep = λ w h. others.send_keeps _ w ∙ h }
  after_create-Keeps row (job_id, false) = record { keep = λ w h. h }

  create_planned-Keeps :
      (row : Option ℕ) (src_location dest_location : Text)
      → Keeps (λ w. laws.held w plan.id ≡ row) (create_planned db plan src_location dest_location)
  unfolding create_planned
  create_planned-Keeps row src_location dest_location = record {
    keep = λ w h.
        (bind-Keeps (db.create_job (planned_job plan (db.locks.now w) src_location dest_location))
            (others.create_keeps row _) (after_create-Keeps row)).keep
          w h;
  }

  -- A run does not touch the lock between taking and releasing it.
  run_body-Keeps : (row : Option ℕ) → Keeps (λ w. laws.held w plan.id ≡ row) (run_body db plan)
  unfolding run_body get_location
  run_body-Keeps row =
      bind-Keeps _ (location_by-Keeps _ plan.source_conn.type plan.source_conn) (λ src_location.
        bind-Keeps _ (location_by-Keeps _ plan.dest_conn.type plan.dest_conn)
          (λ dest_location. create_planned-Keeps row src_location dest_location))

  -- How a run ends: turned away, or run with the lock and the lock given back.
  abbrev Ends : W → W × Result Text → Type 0
  Ends w o =
      ((o.1 ≡ failed err_run_plan_busy) × (laws.held o.0 plan.id ≡ laws.held w plan.id))
      ⊎ ((v : W) × (t : ℕ) × (laws.held v plan.id ≡ some t)
          × (o.1 ≡ (run_body db plan v).1)
          × (laws.held o.0 plan.id ≡ none))

  first_try-Ends :
      (w w1 : W) (r : LockResult)
      → ((v : W) (t : ℕ) → laws.held v plan.id ≡ some t → (db.locks.remove plan.id v).1 ≡ true)
      → r ≢ lock_db_err
      → Means db.locks laws plan.id 30 w (w1, r)
      → Ends w (run_turn db plan (lock_turns db 3 plan.id (w1, r)))
  unfolding run_turn lock_turns unlock_sched unlock
  first_try-Ends w w1 lock_success removes fine means = inr (
    w1,
    db.locks.now w,
    means.0,
    refl,
    laws.remove_law plan.id (run_body db plan w1).0 _ (
        ap (λ b. ((db.locks.remove plan.id (run_body db plan w1).0).0, b))
          (removes (run_body db plan w1).0 (db.locks.now w)
            ((run_body-Keeps (some (db.locks.now w))).keep w1 means.0))),
  )
  first_try-Ends w w1 lock_busy removes fine means =
      let (since, before, after, young) = means in inl (refl, after ∙ sym before)
  first_try-Ends w w1 lock_db_err removes fine means = absurd (fine refl)

-- If the lock is taken or busy, with no error of the database, and a lock that is there can be removed,
-- and the rest of the database leaves the lock of the plan alone, then a run of a plan is either turned away as busy, with the lock left as it was, or it runs from a world
-- in which the plan is locked, and leaves the plan free, whether the run succeeds or fails.
pub run_plan-releases :
    {W : Type 0} (db : Database W) (laws : LockLaws db.locks) (plan : Plan) (w : W)
    → LeavesLocks db laws plan.id
    → ((v : W) (t : ℕ) → laws.held v plan.id ≡ some t → (db.locks.remove plan.id v).1 ≡ true)
    → (lock_sched db.locks plan.id w).1 ≢ lock_db_err
    → ((((run_plan db plan w).1 ≡ failed err_run_plan_busy)
          × (laws.held (run_plan db plan w).0 plan.id ≡ laws.held w plan.id))
        ⊎ ((v : W) × (t : ℕ) × (laws.held v plan.id ≡ some t)
            × ((run_plan db plan w).1 ≡ (run_body db plan v).1)
            × (laws.held (run_plan db plan w).0 plan.id ≡ none)))
unfolding run_plan lock_sched
run_plan-releases db laws plan w others removes fine =
    first_try-Ends db laws plan others w _ _ removes fine (lock-Means db.locks laws plan.id 30 w)

-- The world after `n` tries to lock.
abbrev pub tries : {W : Type 0} → Database W → Text → ℕ → W → W
tries db id zero w = w
tries db id (suc n) w = tries db id n (lock_sched db.locks id w).0

turns-unlocked :
    {W : Type 0} (db : Database W) (id : Text) (n : ℕ) (w : W)
    → ((v : W) → (lock_sched db.locks id v).1 ≡ lock_db_err)
    → lock_turns db n id (lock_sched db.locks id w) ≡ (tries db id (suc n) w, unlocked)
unfolding lock_turns
turns-unlocked db id zero w errs = refl
turns-unlocked db id (suc n) w errs =
    ap (λ r. lock_turns db (suc n) id ((lock_sched db.locks id w).0, r)) (errs w)
    ∙ turns-unlocked db id n (lock_sched db.locks id w).0 errs

-- If every try to lock ends in an error of the database, then after four tries the plan is run all the
-- same, without a lock.
pub run_plan-unlocked :
    {W : Type 0} (db : Database W) (plan : Plan) (w : W)
    → ((v : W) → (lock_sched db.locks plan.id v).1 ≡ lock_db_err)
    → run_plan db plan w ≡ run_body db plan (tries db plan.id 4 w)
unfolding run_plan run_turn
run_plan-unlocked db plan w errs = ap (run_turn db plan) (turns-unlocked db plan.id 3 w errs)
