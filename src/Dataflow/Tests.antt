-- ===== src/Dataflow/Tests.antt =====
-- dataflow: the theorems at a database that keeps one lock, and at two schedulers.
mod Stored
mod Changes
use multi_cloud.Common.{
  ℕ, ◌≡◌, ◌≢◌, ◌∙◌, refl, ap, sym, arith, Bool, true, false, codes, List, [], ◌∷◌, Option, none,
  some, ◌⊎◌,
}
use multi_cloud.Common.Actions.{done, failed}
use multi_cloud.Datamover.Types.{opensds, aws_s3, ceph_s3, Connector}
use multi_cloud.Dataflow.Lock.{lock_db_err, Locks, lock, lock_sched}
use multi_cloud.Dataflow.Lock.Means.{LockLaws, Means, lock-Means}
use multi_cloud.Dataflow.Lock.Race.{
  Schedulers, starting, holding, given_up, Runs, still, passes, first_calls, second_calls,
  reads_clock, inserts, insert_fails, finds, is_new, stale_lock-both_hold, fresh_lock-one_holds,
}
use multi_cloud.Dataflow.Types.{Plan, Policy, err_run_plan_busy}
use multi_cloud.Dataflow.Run.{RunJobRequest, Database, run_plan, run_body}
use multi_cloud.Dataflow.Run.Release.{LeavesLocks, tries, run_plan-releases, run_plan-unlocked}
use multi_cloud.Dataflow.Connectors.{check_conn_validation}
use multi_cloud.Dataflow.Connectors.Valid.{check_conn_validation-has_keys}

-- One lock for every name, the clock, the requests sent, the plans and policies that are stored, and
-- the number of the next id.
pub record Rows : Type 0 where
  pub row : Option ℕ
  pub time : ℕ
  pub sent : List RunJobRequest
  pub plans : List Plan
  pub policies : List Policy
  pub ids : ℕ

abbrev pub insert_row : ℕ → Rows → Option ℕ → Rows × Bool
insert_row t w none = (record w { row = some t }, true)
insert_row t w (some s) = (w, false)

-- A row that is not there cannot be removed.
abbrev pub remove_row : Rows → Option ℕ → Rows × Bool
remove_row w none = (w, false)
remove_row w (some t) = (record w { row = none }, true)

abbrev pub one_row : Locks Rows
one_row = record {
  insert = λ n t w. insert_row t w w.row;
  find = λ n w. (w, w.row);
  remove = λ n w. remove_row w w.row;
  now = λ w. w.time;
}

module _ {A B : Type 0} {a a' : A} {b b' : B} where
  pub firsts : ◌≡◌ {A = A × B} (a, b) (a', b') → a ≡ a'
  firsts h = ap (λ p. p.0) h

  pub seconds : ◌≡◌ {A = A × B} (a, b) (a', b') → b ≡ b'
  seconds h = ap (λ p. p.1) h

pub inserted :
    (t : ℕ) (w w' : Rows) (r : Option ℕ)
    → insert_row t w r ≡ (w', true)
    → (r ≡ none) × (w'.row ≡ some t)
inserted t w w' none e = (refl, ap (λ v. v.row) (sym (firsts e)))
inserted t w w' (some s) e = absurd (ground (arith, seconds e))

pub not_inserted :
    (t : ℕ) (w w' : Rows) (r : Option ℕ) → insert_row t w r ≡ (w', false) → w'.row ≡ w.row
not_inserted t w w' none e = absurd (ground (arith, seconds e))
not_inserted t w w' (some s) e = ap (λ v. v.row) (sym (firsts e))

pub removed : (w w' : Rows) (r : Option ℕ) → remove_row w r ≡ (w', true) → w'.row ≡ none
removed w w' none e = absurd (ground (arith, seconds e))
removed w w' (some t) e = ap (λ v. v.row) (sym (firsts e))

pub not_removed : (w w' : Rows) (r : Option ℕ) → remove_row w r ≡ (w', false) → w'.row ≡ w.row
not_removed w w' none e = ap (λ v. v.row) (sym (firsts e))
not_removed w w' (some t) e = absurd (ground (arith, seconds e))

pub remove_row-plans : (w : Rows) (r : Option ℕ) → (remove_row w r).0.plans ≡ w.plans
remove_row-plans w none = refl
remove_row-plans w (some t) = refl

-- A row that is there can be removed.
pub can_remove : (v : Rows) (t : ℕ) → v.row ≡ some t → (remove_row v v.row).1 ≡ true
can_remove v t e = ap (λ r. (remove_row v r).1) e

abbrev pub one_row_laws : LockLaws one_row
one_row_laws = record {
  held = λ w n. w.row;
  insert_law = λ n t w w' e. inserted t w w' w.row e;
  insert_error_law = λ n t w w' e. not_inserted t w w' w.row e;
  find_law = λ n t w w' e. (seconds e, ap (λ v. v.row) (sym (firsts e)) ∙ seconds e);
  find_error_law = λ n w w' e. ap (λ v. v.row) (sym (firsts e));
  remove_law = λ n w w' e. removed w w' w.row e;
  remove_error_law = λ n w w' e. not_removed w w' w.row e;
}

abbrev pub at_100 : Option ℕ → Rows
at_100 r = record { row = r; time = 100; sent = []; plans = []; policies = []; ids = 7 }

taken_over :
    Means one_row one_row_laws
      (codes "p1")
      30
      (at_100 (some 50))
      (lock one_row (codes "p1") 30 (at_100 (some 50)))
taken_over = lock-Means one_row one_row_laws (codes "p1") 30 (at_100 (some 50))

abbrev pub plan : Plan
plan = record {
  id = codes "p1";
  name = codes "nightly";
  description = [];
  type = codes "migration";
  source_conn = record { type = opensds; bucket_name = codes "v1"; conn_config = [] };
  dest_conn = record {
    type = aws_s3;
    bucket_name = [];
    conn_config = record { key = codes "bucketname"; value = codes "b2" } ∷ [];
  };
  filter = record { prefix = []; tag = [] };
  remain_source = true;
  last_sched_time = 0;
  policy_id = [];
  policy_ref = none;
  policy_name = [];
  policy_enabled = false;
  tenant_id = codes "t1";
  user_id = codes "u1";
  asist = record { type = []; details = [] };
}

abbrev database : Database Rows
database = record {
  locks = one_row;
  get_plan = λ id w. (w, done plan);
  create_job = λ job w. (w, done (codes "j1", true));
  send_job = λ r w. record w { sent = r ∷ w.sent };
}

leaves : LeavesLocks database one_row_laws (codes "p1")
leaves = record { create_keeps = λ row job. record { keep = λ w h. h }; send_keeps = λ r w. refl }

locks_free : (lock_sched one_row (codes "p1") (at_100 none)).1 ≢ lock_db_err
unfolding lock_sched lock
locks_free e = absurd (ground arith)

one_run :
    (((run_plan database plan (at_100 none)).1 ≡ failed err_run_plan_busy)
      × ((run_plan database plan (at_100 none)).0.row ≡ none))
    ⊎ ((v : Rows) × (t : ℕ) × (v.row ≡ some t)
        × ((run_plan database plan (at_100 none)).1 ≡ (run_body database plan v).1)
        × ((run_plan database plan (at_100 none)).0.row ≡ none))
one_run = run_plan-releases database one_row_laws plan (at_100 none) leaves can_remove locks_free

-- A database that takes no lock.
abbrev no_locks : Locks Rows
no_locks = record {
  insert = λ n t w. (w, false);
  find = λ n w. (w, none);
  remove = λ n w. (w, false);
  now = λ w. w.time;
}

both_hold_at_100 :
    Runs 30 100
      (record { row = some 50; first = starting; second = starting })
      100
      (record { row = some 100; first = holding; second = holding })
both_hold_at_100 = stale_lock-both_hold 30 100 50 (omega arith)

-- The second scheduler finds the row of the first, a second old.
abbrev first_has_it : Schedulers
first_has_it = record { row = some 100; first = holding; second = given_up }

one_holds_at_101 : ¬ ((first_has_it.first ≡ holding) × (first_has_it.second ≡ holding))
one_holds_at_101 =
    fresh_lock-one_holds 30 100 101 none (λ since e. ground (arith, e)) (omega arith)
      (first_calls _ (reads_clock _) (
        first_calls _ (inserts 100) (
          second_calls _ (reads_clock _) (
            second_calls _ (insert_fails 100 100) (
              second_calls _ (finds 100 100) (
                passes
                  (second_calls _ (is_new _ 100 100 (omega arith)) (still 101 first_has_it))))))))

abbrev no_region : Connector
no_region = record {
  type = aws_s3;
  bucket_name = [];
  conn_config =
      record { key = codes "endpoint"; value = [] }
      ∷ record { key = codes "access"; value = [] }
      ∷ record { key = codes "security"; value = [] }
      ∷ record { key = codes "bucketname"; value = [] }
      ∷ [];
}

region_not_needed : check_conn_validation (record no_region { type = ceph_s3 }) ≡ true
unfolding check_conn_validation
region_not_needed = refl
