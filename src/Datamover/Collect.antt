-- ===== src/Datamover/Collect.antt =====
-- datamover/pkg/drivers/https/migration.go: the loops of `doMigration` and `migrateResult` over what
-- the moves send, and what the two make of it. `close` and the moves that still run are in Routines.
pub mod Complete
pub mod Counts
use multi_cloud.Common.{
  ℕ, ◌+◌, ◌*◌, ◌/◌, ◌%◌, ◌==◌, ltb, leb, Bool, ◌||◌, Text, codes, List, [], ◌∷◌, ◌++◌, Option, none,
  some, if◌then◌else◌,
}
use multi_cloud.Common.Int.{ℤ, pos, negsuc}
use multi_cloud.Datamover.Job.{Job, JobStore, save, update_job, succeed, failed_status}

-- What ends a `select`: a number from `capa`, or the timer of a day.
pub data Event : Type 0 where
  received : ℤ → Event
  timeout : Event

pub record Tally : Type 0 where
  pub count : ℕ
  pub passed_count : ℕ
  pub capacity : ℕ

abbrev pub no_tally : Tally
no_tally = record { count = 0; passed_count = 0; capacity = 0 }

unfoldable pub add_capa : ℤ → Tally → Tally
add_capa (pos c) t = record {
  count = t.count + 1;
  passed_count = t.passed_count + 1;
  capacity = t.capacity + c;
}
add_capa (negsuc c) t = record t { count = t.count + 1 }

-- Whether the job is written to the database at this count.
unfoldable pub is_reported : ℕ → ℕ → Bool
is_reported total count = ltb total 100 || count == total || count % (total / 10) == 0

-- The job with what was counted; the progress is a share of the total capacity, and `none` is the panic
-- of a division by 0.
unfoldable pub progress_of : Tally → Job → Option Job
progress_of t j =
    if j.total_capacity == 0
    then none
    else some (record j {
      passed_count = t.passed_count;
      passed_capacity = t.capacity;
      progress = t.capacity * 100 / j.total_capacity;
    })

-- The loop of `migrateResult`; `none` is a loop that waits for more.
unfoldable pub collect_result : ℕ → List Event → Tally → Option Tally
unfolding add_capa
collect_result total [] t = none
collect_result total (timeout ∷ es) t = some t
collect_result total (received c ∷ es) t =
    let t' = add_capa c t in
    let rest = collect_result total es t' in if leb total t'.count then some t' else rest

-- What the loop of `doMigration` leaves, with no tally after a panic.
abbrev pub Collected : Type 0 → Type 0
Collected W = W × Job × Option Tally

-- What `doMigration` leaves: the world, the job, and whether it returned an error, or `none` after a
-- panic.
unfoldable pub after_collect :
    {W : Type 0} → ℕ → Option (Collected W) → Option (W × Job × Option Bool)
after_collect total none = none
after_collect total (some (w, j, none)) = some (w, j, none)
after_collect total (some (w, j, some t)) =
    some (w, record j { passed_count = t.passed_count }, some (ltb t.passed_count total))

-- A turn of the loop, after the job was reported.
unfoldable pub after_report :
    {W : Type 0}
    → (Job → W → Option (Collected W))
    → ℕ
    → Tally
    → Job
    → W × Option Job
    → Option (Collected W)
after_report next total t j (w, none) = some (w, j, none)
after_report next total t j (w, some j') =
    let rest = next j' w in if leb total t.count then some (w, j', some t) else rest

module _ {W : Type 0} (store : JobStore W) where
  unfoldable pub save_progress : Option Job → W → W × Option Job
  save_progress none w = (w, none)
  save_progress (some j) w = (save store j w, some j)

  -- One number received by `doMigration`.
  unfoldable pub report : ℕ → Tally → Job → W → W × Option Job
  unfolding is_reported progress_of save_progress
  report total t j w =
      if is_reported total t.count then save_progress (progress_of t j) w else (w, some j)

  -- The loop of `doMigration`; `none` is a loop that waits for more.
  unfoldable pub collect : ℕ → List Event → Tally → Job → W → Option (Collected W)
  unfolding report add_capa after_report
  collect total [] t j w = none
  collect total (timeout ∷ es) t j w = some (w, j, some t)
  collect total (received c ∷ es) t j w =
      after_report (collect total es (add_capa c t)) total (add_capa c t) j
        (report total (add_capa c t) j w)

  unfoldable pub do_migration : List Event → Job → W → Option (W × Job × Option Bool)
  unfolding collect after_collect
  do_migration es j w = after_collect j.total_count (collect j.total_count es no_tally j w)

  -- `migrateResult` on the number of objects of the result; the text of its failure, bound again
  -- inside the `if`, is lost.
  unfoldable pub after_result : ℕ → Job → W → Option Tally → Option (W × Job)
  after_result total j w none = none
  after_result total j w (some t) = some (
      update_job store (if ltb t.passed_count total then failed_status else succeed)
        (codes "migrate successfully.") j w)

  unfoldable pub migrate_result : ℕ → List Event → Job → W → Option (W × Job)
  unfolding collect_result after_result
  migrate_result total es j w = after_result total j w (collect_result total es no_tally)
