-- ===== src/Datamover/RunJob/Final.antt =====
-- datamover/pkg/drivers/https/migration.go, `runjob`: the status that a job ends with in the database.
use mathlib.Core.Path.{subst, subst₂}
use multi_cloud.Common.{
  ℕ, suc, ◌≡◌, ◌∙◌, refl, ap, sym, ◌==◌, ◌||◌, leb, arith, Bool, true, false, Text, is_empty, List,
  [], ◌∷◌, Option, none, some, Bool-cases, inl, inr,
}
use multi_cloud.Common.Actions.{Result, done, failed, panicked}
use multi_cloud.Datamover.Types.{LocationInfo, Object}
use multi_cloud.Datamover.Move.{Services, get_conn_location}
use multi_cloud.Datamover.Sources.{Listing}
use multi_cloud.Datamover.Job.{
  Job, JobCollection, JobStore, save, try_update, update_job, next_step, succeed, failed_status,
  running,
}
use multi_cloud.Datamover.Job.Writes.{JobLaws, store_of, HasStatus, update-HasStatus}
use multi_cloud.Datamover.Collect.{
  Event, received, timeout, Tally, no_tally, add_capa, Collected, after_report, report, collect,
  after_collect, do_migration,
}
use multi_cloud.Datamover.RunJob.{
  RunRequest, Analyst, Prepared, count_objs, begun, new_job, failed_job, with_objs, with_dest,
  with_src, prepare4_run, assist, after_migration, run_prepared, runjob,
}
use multi_cloud.Datamover.RunJob.Ends.{report-IsSame}

-- The stored status tells how the run ended.
abbrev pub Settled :
    {W : Type 0} → (Text → W → Type 0) → Option (W × Job × Result (Unit {0})) → Type 0
Settled Has none = Unit
Settled Has (some (w, j, done u)) = Has succeed w
Settled Has (some (w, j, failed e)) = Has failed_status w
Settled Has (some (w, j, panicked)) = Unit

-- `writes` is what a write of the job with the id does: it has no error, and `Has` holds of its status.
module _ {W : Type 0} (sv : Services W) (ls : Listing W) (store : JobStore W) (id : Text)
    (Has : Text → W → Type 0)
    (writes : (j : Job) (w : W)
      → j.id ≡ id
      → is_empty j.status ≡ false
      → ((store.update j w).1 ≡ none) × Has j.status (save store j w)) where
  first_try :
      (n : ℕ) (j : Job) (w : W)
      → (store.update j w).1 ≡ none
      → try_update store (suc n) j w ≡ save store j w
  unfolding try_update
  first_try n j w fine = rw (fine, try_update) refl

  update_job-Has :
      (status step : Text) (j : Job) (w : W)
      → j.id ≡ id
      → is_empty status ≡ false
      → Has status (update_job store status step j w).0
        × ((update_job store status step j w).1.id ≡ id)
  unfolding update_job next_step
  update_job-Has status step j w its_id given =
      let j' = next_step (store.now w) (store.stamp w) status step j in
      let kept : j'.status ≡ status = rw (given) refl in
      let (fine, has) = writes j' w its_id (ap is_empty kept ∙ given) in
      (subst₂ Has kept (sym (first_try 2 j' w fine)) has, its_id)

  -- A job that is prepared without success has failed; one with nothing to move has succeeded.
  abbrev Ready : Prepared W → Type 0
  Ready (w, j, failed e) = Has failed_status w
  Ready (w, j, panicked) = Unit
  Ready (w, j, done x) =
      (j.id ≡ id) × ((j.total_count == 0 || j.total_capacity == 0) ≡ true → Has succeed w)

  failed_job-Has : (j : Job) (w : W) → j.id ≡ id → Has failed_status (failed_job sv ls store j w).0
  unfolding failed_job
  failed_job-Has j w its_id =
      (writes (record j { status = failed_status; end_time = store.now w }) w its_id refl).1

  begun-laws :
      (now : ℕ) (objs : List Object) (j : Job)
      → j.total_count ≡ 0
      → let j' = begun now objs (count_objs objs j) in
        (j'.id ≡ j.id)
        × (is_empty j'.status ≡ false)
        × ((j'.total_count == 0 || j'.total_capacity == 0) ≡ true → j'.status ≡ succeed)
  unfolding begun count_objs
  begun-laws now objs j new = ground (arith, new)

  with_objs-Ready :
      (src dest : LocationInfo) (j : Job) (o : W × Result (List Object))
      → j.id ≡ id
      → j.total_count ≡ 0
      → Ready (with_objs sv ls store src dest j o)
  unfolding with_objs
  with_objs-Ready src dest j (w, done objs) its_id new =
      let j' = begun (store.now w) objs (count_objs objs j) in
      let (same, given, nothing) = begun-laws (store.now w) objs j new in
      let (fine, has) = writes j' w (same ∙ its_id) given in
      (same ∙ its_id, λ e. subst (λ s. Has s (save store j' w)) (nothing e) has)
  with_objs-Ready src dest j (w, failed e) its_id new = failed_job-Has j w its_id
  with_objs-Ready src dest j (w, panicked) its_id new = tt

  with_dest-Ready :
      (r : RunRequest) (src : LocationInfo) (j : Job) (o : W × Result LocationInfo)
      → j.id ≡ id
      → j.total_count ≡ 0
      → Ready (with_dest sv ls store r src j o)
  unfolding with_dest
  with_dest-Ready r src j (w, done dest) its_id new = with_objs-Ready src dest j _ its_id new
  with_dest-Ready r src j (w, failed e) its_id new = failed_job-Has j w its_id
  with_dest-Ready r src j (w, panicked) its_id new = tt

  with_src-Ready :
      (r : RunRequest) (j : Job) (o : W × Result LocationInfo)
      → j.id ≡ id
      → j.total_count ≡ 0
      → Ready (with_src sv ls store r j o)
  unfolding with_src
  with_src-Ready r j (w, done src) its_id new = with_dest-Ready r src j _ its_id new
  with_src-Ready r j (w, failed e) its_id new = failed_job-Has j w its_id
  with_src-Ready r j (w, panicked) its_id new = tt

  -- A migration goes on with the job of the id.
  abbrev OfId : {A : Type 0} → Option (W × Job × A) → Type 0
  OfId none = Unit
  OfId (some (w, j, x)) = j.id ≡ id

  after_report-OfId :
      (next : Job → W → Option (Collected W)) (total : ℕ) (t : Tally) (j : Job) (o : W × Option Job)
      → j.id ≡ id
      → ((j' : Job) → o.1 ≡ some j' → j'.id ≡ id)
      → ((j' : Job) (w' : W) → j'.id ≡ id → OfId (next j' w'))
      → OfId (after_report next total t j o)
  unfolding after_report
  after_report-OfId next total t j (w, none) its_id kept go = its_id
  after_report-OfId next total t j (w, some j') its_id kept go =
      elim (Bool-cases (leb total t.count)) [
        | inl full ↦ rw (full) (kept j' refl)
        | inr more ↦ rw (more) (go j' w (kept j' refl))
      ]

  collect-OfId :
      (total : ℕ) (es : List Event) (t : Tally) (j : Job) (w : W)
      → j.id ≡ id
      → OfId (collect store total es t j w)
  unfolding collect
  collect-OfId total [] t j w its_id = tt
  collect-OfId total (timeout ∷ es) t j w its_id = its_id
  collect-OfId total (received c ∷ es) t j w its_id =
      after_report-OfId _ total (add_capa c t) j (report store total (add_capa c t) j w) its_id
        (λ j' e. (report-IsSame store total (add_capa c t) j w j' e).1 ∙ its_id)
        (λ j' w' same. collect-OfId total es (add_capa c t) j' w' same)

  after_collect-OfId :
      (total : ℕ) (o : Option (Collected W)) → OfId o → OfId (after_collect total o)
  unfolding after_collect
  after_collect-OfId total none same = tt
  after_collect-OfId total (some (w, j, none)) same = same
  after_collect-OfId total (some (w, j, some t)) same = same

  module _ (an : Analyst W) where
    after_migration-Settled :
        (es : List Event) (r : RunRequest) (dest : LocationInfo)
        (o : Option (W × Job × Option Bool))
        → r.asist_type ≡ []
        → OfId o
        → Settled Has (after_migration sv ls store an es r dest o)
    unfolding after_migration assist
    after_migration-Settled es r dest none plain same = tt
    after_migration-Settled es r dest (some (w, j, none)) plain same = tt
    after_migration-Settled es r dest (some (w, j, some true)) plain same =
        (update_job-Has failed_status _ j w same refl).0
    after_migration-Settled es r dest (some (w, j, some false)) plain same =
        rw (plain) ((update_job-Has succeed _ j w same refl).0)

    run_prepared-Settled :
        (es₁ es₂ : List Event) (r : RunRequest) (o : Prepared W)
        → r.asist_type ≡ []
        → Ready o
        → Settled Has (run_prepared sv ls store an es₁ es₂ r o)
    unfolding run_prepared do_migration
    run_prepared-Settled es₁ es₂ r (w, j, failed e) plain ready = ready
    run_prepared-Settled es₁ es₂ r (w, j, panicked) plain ready = tt
    run_prepared-Settled es₁ es₂ r (w, j, done (src, dest, objs)) plain ready =
        elim (Bool-cases (j.total_count == 0 || j.total_capacity == 0)) [
          | inl nothing ↦ rw (nothing) (ready.1 nothing)
          | inr some_data ↦ rw (some_data) (
              after_migration-Settled es₂ r dest _ plain (
                after_collect-OfId _ _ (
                  collect-OfId _ es₁ no_tally _ _ ((update_job-Has running _ j w ready.0 refl).1))))
        ]

    runjob_lem :
        (es₁ es₂ : List Event) (r : RunRequest) (w : W)
        → r.id ≡ id
        → r.asist_type ≡ []
        → Settled Has (runjob sv ls store an es₁ es₂ r w)
    unfolding runjob prepare4_run
    runjob_lem es₁ es₂ r w same plain =
        let j = new_job r.id (store.now w) in
        let o = get_conn_location sv r.source_conn w in
        run_prepared-Settled es₁ es₂ r (with_src sv ls store r j o) plain
          (with_src-Ready r j o same refl)

-- If the database answers, and has the job of the request throughout, then once a job without an analysis
-- has returned, its stored status is "succeed" if it returned no error, and "failed" if it returned one,
-- whatever the services answer and the moves send.
pub runjob-Settled :
    {W : Type 0} (sv : Services W) (ls : Listing W) (c : JobCollection W) (laws : JobLaws c)
    (now : W → ℕ) (stamp : W → Text) (an : Analyst W) (es₁ es₂ : List Event) (r : RunRequest)
    (w : W)
    → ((v : W) → (old : Job) × (laws.at v r.id ≡ some old))
    → r.asist_type ≡ []
    → Settled (HasStatus c laws r.id) (runjob sv ls (store_of c now stamp) an es₁ es₂ r w)
runjob-Settled sv ls c laws now stamp an es₁ es₂ r w there plain =
    runjob_lem sv ls (store_of c now stamp) r.id (HasStatus c laws r.id)
      (λ j v its_id given.
        update-HasStatus c laws r.id now stamp j v ((there v).0) ((there v).1) its_id given)
      an es₁ es₂ r w refl plain
