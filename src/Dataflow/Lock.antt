-- ===== src/Dataflow/Lock.antt =====
-- dataflow/pkg/db/drivers/mongo/mongo.go: the lock of a plan in the database.
pub mod Means
pub mod Race
use multi_cloud.Common.{ℕ, ◌+◌, ltb, Bool, true, false, Text, Option, none, some, if◌then◌else◌}

pub data LockResult : Type 0 where
  lock_success : LockResult
  lock_busy : LockResult
  lock_db_err : LockResult

-- The collection `mylock`, whose index on the name is unique, and the clock. The Boolean is true if
-- there was no error.
pub record Locks (W : Type 0) : Type 0 where
  pub insert : Text → ℕ → W → W × Bool
  pub find : Text → W → W × Option ℕ
  pub remove : Text → W → W × Bool
  pub now : W → ℕ

module _ {W : Type 0} (locks : Locks W) where
  unfoldable pub unlock : Text → W → W × LockResult
  unlock lock_obj w =
      let (w', fine) = locks.remove lock_obj w in (w', if fine then lock_success else lock_db_err)

  -- `c.Insert(lock)` once more, with the time of the first try.
  unfoldable pub lock_again : Text → ℕ → W × LockResult → W × LockResult
  lock_again lock_obj time (w, lock_success) =
      let (w', fine) = locks.insert lock_obj time w in
      (w', if fine then lock_success else lock_db_err)
  lock_again lock_obj time (w, lock_busy) = (w, lock_db_err)
  lock_again lock_obj time (w, lock_db_err) = (w, lock_db_err)

  -- What `lock` does about the lock that it finds.
  unfoldable pub after_find : Text → ℕ → ℕ → W × Option ℕ → W × LockResult
  unfolding unlock lock_again
  after_find lock_obj max_time time (w, none) = (w, lock_db_err)
  after_find lock_obj max_time time (w, some since) =
      if ltb (since + max_time) (locks.now w)
      then lock_again lock_obj time (unlock lock_obj w)
      else (w, lock_busy)

  unfoldable pub after_insert : Text → ℕ → ℕ → W × Bool → W × LockResult
  unfolding after_find
  after_insert lock_obj max_time time (w, true) = (w, lock_success)
  after_insert lock_obj max_time time (w, false) =
      after_find lock_obj max_time time (locks.find lock_obj w)

  unfoldable pub lock : Text → ℕ → W → W × LockResult
  unfolding after_insert
  lock lock_obj max_time w =
      after_insert lock_obj max_time (locks.now w) (locks.insert lock_obj (locks.now w) w)

  unfoldable pub lock_sched : Text → W → W × LockResult
  unfolding lock
  lock_sched plan_id w = lock plan_id 30 w

  unfoldable pub unlock_sched : Text → W → W × LockResult
  unfolding unlock
  unlock_sched plan_id w = unlock plan_id w
