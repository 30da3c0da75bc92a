-- ===== src/Dataflow/Driver.antt =====
-- dataflow/pkg/db/drivers/mongo/mongo.go: the database that the driver talks to, and the manager lock
-- that is round every change of policies and plans.
pub mod Policies
pub mod Plans
pub mod Jobs
pub mod Held
pub mod Used
use multi_cloud.Common.{
  ℕ, zero, suc, Bool, true, false, Text, codes, List, [], ◌∷◌, Option, none, some,
}
pub use multi_cloud.Common.Database.{
  Reply, found, missing, broken, Write, written, not_found, duplicate, write_error,
}
use multi_cloud.Common.Actions.{Act, Result, done, failed, panicked, return, fail, panic}
use multi_cloud.Dataflow.Types.{Policy, Plan, Job, err_inner_err, err_db_err}
use multi_cloud.Dataflow.Lock.{
  LockResult, lock_success, lock_busy, lock_db_err, Locks, lock, unlock,
}

-- A `bson.M` of keys and values that a document must have, or a `$or` of such.
pub data Selector : Type 0 where
  all_of : List (Text × Text) → Selector
  one_of : List (List (Text × Text)) → Selector

-- A collection of the database; `find_all` takes what is skipped and the limit.
pub record Collection (W A : Type 0) : Type 0 where
  pub insert : A → W → W × Write
  pub find_one : Selector → W → W × Reply A
  pub find_all : Selector → ℕ → ℕ → W → W × Reply (List A)
  pub count : Selector → W → W × Reply ℕ
  pub update : Text → A → W → W × Write
  pub remove : Text → W → W × Write

-- mgo and bson: the collections, the policy that a reference names, the ids, and the clock.
pub record Mongo (W : Type 0) : Type 0 where
  pub locks : Locks W
  pub policies : Collection W Policy
  pub plans : Collection W Plan
  pub jobs : Collection W Job
  pub find_ref : Option Text → W → W × Reply Policy
  -- `bson.ObjectIdHex`, which panics on other text than 24 hexadecimal digits.
  pub object_id_hex : Text → Option Text
  pub new_object_id : W → W × Text
  pub sleep_second : W → W

-- A read whose errors are returned under these names.
unfoldable pub answered : {W A : Type 0} → Text → Text → W × Reply A → W × Result A
answered absent error (w, found a) = (w, done a)
answered absent error (w, missing) = (w, failed absent)
answered absent error (w, broken) = (w, failed error)

unfoldable pub asked : {W A : Type 0} → Text → Text → (W → W × Reply A) → Act W A
unfolding answered
asked absent error read w = answered absent error (read w)

unfoldable pub stored : {W : Type 0} → Text → W × Write → W × Result (Unit {0})
stored absent (w, written) = (w, done tt)
stored absent (w, not_found) = (w, failed absent)
stored absent (w, duplicate e) = (w, failed err_db_err)
stored absent (w, write_error e) = (w, failed err_db_err)

-- A write whose errors are `ERR_DB_ERR`, but for a missing document.
unfoldable pub wrote : {W : Type 0} → Text → (W → W × Write) → Act W (Unit {0})
unfolding stored
wrote absent write w = stored absent (write w)

unfoldable pub id_or_panic : {W : Type 0} → Option Text → Act W Text
id_or_panic none = panic
id_or_panic (some id) = return id

abbrev pub lock_manager : Text
lock_manager = codes "manager"

module _ {W : Type 0} (db : Mongo W) where
  unfoldable pub hex_id : Text → Act W Text
  unfolding id_or_panic
  hex_id id = id_or_panic (db.object_id_hex id)

  -- The loop round `lock` with `n` turns left, on the last result; it sleeps before it tries again.
  unfoldable pub manager_turns : ℕ → W × LockResult → W × LockResult
  manager_turns zero o = o
  manager_turns (suc n) (w, lock_success) = (w, lock_success)
  manager_turns (suc n) (w, lock_busy) =
      manager_turns n (lock db.locks lock_manager 5 (db.sleep_second w))
  manager_turns (suc n) (w, lock_db_err) =
      manager_turns n (lock db.locks lock_manager 5 (db.sleep_second w))

  -- The deferred `unlock`, which runs after a panic as well.
  unfoldable pub unlocked : {A : Type 0} → W × Result A → W × Result A
  unlocked (w, r) = ((unlock db.locks lock_manager w).0, r)

  unfoldable pub with_manager : {A : Type 0} → Act W A → W × LockResult → W × Result A
  unfolding unlocked
  with_manager body (w, lock_success) = unlocked (body w)
  with_manager body (w, lock_busy) = (w, failed err_inner_err)
  with_manager body (w, lock_db_err) = (w, failed err_inner_err)

  -- A function of the driver that takes the lock of the manager.
  unfoldable pub managed : {A : Type 0} → Act W A → Act W A
  unfolding with_manager manager_turns
  managed body w = with_manager body (manager_turns 3 (lock db.locks lock_manager 5 w))
