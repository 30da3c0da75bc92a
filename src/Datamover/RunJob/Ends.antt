-- ===== src/Datamover/RunJob/Ends.antt =====
-- datamover/pkg/drivers/https/migration.go, `runjob`: a job ends, and how it is left.
use multi_cloud.Common.{
  arith, Text, ℕ, ◌≡◌, ◌∙◌, refl, ap, sym, ◌==◌, ◌||◌, leb, Bool, true, false, codes, text_eq,
  is_empty, List, [], ◌∷◌, ◌++◌, length, Option, none, some, some_cancel, if◌then◌else◌, Bool-cases,
  inl, inr,
}
use multi_cloud.Common.Actions.{Result, done, failed, panicked}
use multi_cloud.Datamover.Types.{LocationInfo, Object}
use multi_cloud.Datamover.Move.{Services}
use multi_cloud.Datamover.Sources.{Listing}
use multi_cloud.Datamover.Job.{Job, JobStore, update_job, next_step, running}
use multi_cloud.Datamover.Collect.{
  Event, received, timeout, Tally, no_tally, add_capa, report, Collected, save_progress,
  after_report, is_reported, progress_of, collect, after_collect, do_migration, collect_result,
  migrate_result, after_result,
}
use multi_cloud.Datamover.RunJob.{
  RunRequest, Analyst, Prepared, new_job, prepare4_run, result_objs, with_result, post_handle,
  asist_post_handle, after_asist, assist, after_migration, run_prepared, runjob, analysis_type,
}

-- The two are the same job, with the same status.
abbrev pub IsSame : Job → Job → Type 0
IsSame j' j = (j'.status ≡ j.status) × (j'.id ≡ j.id)

IsSame-trans : (a b c : Job) → IsSame a b → IsSame b c → IsSame a c
IsSame-trans a b c p q = (p.0 ∙ q.0, p.1 ∙ q.1)

progress_of-IsSame : (t : Tally) (j j' : Job) → progress_of t j ≡ some j' → IsSame j' j
unfolding progress_of
progress_of-IsSame t j j' e = elim (Bool-cases (j.total_capacity == 0)) [
  | inl none_there ↦ absurd (ground (arith, none_there, e))
  | inr more ↦
      let same = some_cancel (rw (more) at e) in
      (ap (λ x. x.status) (sym same), ap (λ x. x.id) (sym same))
]

module _ {W : Type 0} (store : JobStore W) where
  save_progress-some :
      (o : Option Job) (w : W) (j' : Job) → (save_progress store o w).1 ≡ some j' → o ≡ some j'
  unfolding save_progress
  save_progress-some none w j' e = e
  save_progress-some (some j) w j' e = e

  pub report-IsSame :
      (total : ℕ) (t : Tally) (j : Job) (w : W) (j' : Job)
      → (report store total t j w).1 ≡ some j'
      → IsSame j' j
  unfolding report
  report-IsSame total t j w j' e = elim (Bool-cases (is_reported total t.count)) [
    | inl y ↦ progress_of-IsSame t j j' (save_progress-some (progress_of t j) w j' (rw (y) at e))
    | inr n ↦
        let same = some_cancel (rw (n) at e) in
        (ap (λ x. x.status) (sym same), ap (λ x. x.id) (sym same))
  ]

  -- A turn ends or goes on, with the same job.
  after_report-timeout :
      (next : Job → W → Option (Collected W)) (total : ℕ) (t : Tally) (j : Job) (o : W × Option Job)
      → ((j' : Job) → o.1 ≡ some j' → IsSame j' j)
      → ((j' : Job) (w' : W) → (c : Collected W) × (next j' w' ≡ some c) × IsSame c.1 j')
      → (c : Collected W) × (after_report next total t j o ≡ some c) × IsSame c.1 j
  unfolding after_report
  after_report-timeout next total t j (w, none) is_same go = ((w, j, none), refl, (refl, refl))
  after_report-timeout next total t j (w, some j') is_same go =
      let (c, ends, same) = go j' w in
      elim (Bool-cases (leb total t.count)) [
        | inl full ↦ ((w, j', some t), rw (full) refl, is_same j' refl)
        | inr more ↦ (c, rw (more) ends, IsSame-trans c.1 j' j same (is_same j' refl))
      ]

  collect-timeout :
      (total : ℕ) (es : List Event) (t : Tally) (j : Job) (w : W)
      → (o : Collected W) × (collect store total (es ++ timeout ∷ []) t j w ≡ some o) × IsSame o.1 j
  unfolding collect
  collect-timeout total [] t j w = ((w, j, some t), refl, (refl, refl))
  collect-timeout total (timeout ∷ es) t j w = ((w, j, some t), refl, (refl, refl))
  collect-timeout total (received c ∷ es) t j w =
      after_report-timeout _ total (add_capa c t) j (report store total (add_capa c t) j w)
        (report-IsSame total (add_capa c t) j w)
        (λ j' w'. collect-timeout total es (add_capa c t) j' w')

  after_collect-some :
      (total : ℕ) (c : Collected W) (j : Job)
      → IsSame c.1 j
      → (o : W × Job × Option Bool) × (after_collect total (some c) ≡ some o) × IsSame o.1 j
  unfolding after_collect
  after_collect-some total (w, j', none) j same = (_, refl, same)
  after_collect-some total (w, j', some t) j same = (_, refl, same)

  do_migration-timeout :
      (es : List Event) (j : Job) (w : W)
      → (o : W × Job × Option Bool) × (do_migration store (es ++ timeout ∷ []) j w ≡ some o)
        × (o.1.status ≡ j.status)
  unfolding do_migration
  do_migration-timeout es j w =
      let (c, same, is_same) = collect-timeout j.total_count es no_tally j w in
      let (o, ends, its) = after_collect-some j.total_count c j is_same in
      (o, ap (after_collect j.total_count) same ∙ ends, its.0)

collect_result-timeout :
    (total : ℕ) (es : List Event) (t : Tally)
    → (o : Tally) × (collect_result total (es ++ timeout ∷ []) t ≡ some o)
unfolding collect_result
collect_result-timeout total [] t = (t, refl)
collect_result-timeout total (timeout ∷ es) t = (t, refl)
collect_result-timeout total (received c ∷ es) t =
    let t' = add_capa c t in
    let (o, same) = collect_result-timeout total es t' in
    elim (Bool-cases (leb total t'.count)) [
      | inl full ↦ (t', rw (full) refl)
      | inr more ↦ (o, rw (more) same)
    ]

either_ends :
    {A : Type 0} {x y : Option A} (b : Bool)
    → ((out : A) × (x ≡ some out))
    → ((out : A) × (y ≡ some out))
    → (out : A) × ((if b then x else y) ≡ some out)
either_ends true h k = h
either_ends false h k = k

module _ {W : Type 0} (sv : Services W) (ls : Listing W) (store : JobStore W) (an : Analyst W)
    (es₁ es₂ : List Event) where
  result_objs-ends :
      (j : Job) (o : W × Result (List Object))
      → (out : W × Job × Result (Unit {0})) × (result_objs sv ls store an (es₂ ++ timeout ∷ []) j o
          ≡ some out)
  unfolding result_objs with_result migrate_result after_result
  result_objs-ends j (w, failed e) = (_, refl)
  result_objs-ends j (w, panicked) = (_, refl)
  result_objs-ends j (w, done []) = (_, refl)
  result_objs-ends j (w, done (obj ∷ objs)) =
      let (t, same) = collect_result-timeout (length (obj ∷ objs)) es₂ no_tally in
      (
        _,
        ap (λ c. with_result sv ls store an (after_result store (length (obj ∷ objs)) j w c)) same,
      )

  asist_post_handle-ends :
      (r : RunRequest) (src : LocationInfo) (j : Job) (w : W)
      → (out : W × Job × Result (Unit {0})) × (asist_post_handle sv ls store an
            (es₂ ++ timeout ∷ [])
            r
            src
            j
            w
          ≡ some out)
  unfolding asist_post_handle post_handle
  asist_post_handle-ends r src j w =
      either_ends (text_eq r.asist_type analysis_type) (result_objs-ends _ _) (_, refl)

  after_asist-ends :
      (r : RunRequest) (dest : LocationInfo) (o : W × Job × Option Text)
      → (out : W × Job × Result (Unit {0})) × (after_asist sv ls store an
            (es₂ ++ timeout ∷ [])
            r
            dest
            o
          ≡ some out)
  unfolding after_asist
  after_asist-ends r dest (w, j, none) = asist_post_handle-ends r dest j w
  after_asist-ends r dest (w, j, some e) = (_, refl)

  assist-ends :
      (r : RunRequest) (dest : LocationInfo) (j : Job) (w : W)
      → (out : W × Job × Result (Unit {0})) × (assist sv ls store an
            (es₂ ++ timeout ∷ [])
            r
            dest
            j
            w
          ≡ some out)
  unfolding assist
  assist-ends r dest j w =
      either_ends (is_empty r.asist_type) (_, refl)
        (either_ends (text_eq r.asist_type analysis_type) (after_asist-ends r dest _) (_, refl))

  after_migration-ends :
      (r : RunRequest) (dest : LocationInfo) (o : W × Job × Option Bool)
      → (out : W × Job × Result (Unit {0})) × (after_migration sv ls store an
            (es₂ ++ timeout ∷ [])
            r
            dest
            (some o)
          ≡ some out)
  unfolding after_migration
  after_migration-ends r dest (w, j, none) = (_, refl)
  after_migration-ends r dest (w, j, some true) = (_, refl)
  after_migration-ends r dest (w, j, some false) = assist-ends r dest j w

  run_prepared-ends :
      (r : RunRequest) (o : Prepared W)
      → (out : W × Job × Result (Unit {0})) × (run_prepared sv ls store an
            (es₁ ++ timeout ∷ [])
            (es₂ ++ timeout ∷ [])
            r
            o
          ≡ some out)
  unfolding run_prepared
  run_prepared-ends r (w, j, failed e) = (_, refl)
  run_prepared-ends r (w, j, panicked) = (_, refl)
  run_prepared-ends r (w, j, done (src, dest, objs)) =
      let (w', j') = update_job store running (codes "migrate ...") j w in
      let (o, same, status) = do_migration-timeout store es₁ j' w' in
      let (out, ends) = after_migration-ends r dest o in
      elim (Bool-cases (j.total_count == 0 || j.total_capacity == 0)) [
        | inl nothing ↦ ((w, j, done tt), rw (nothing) refl)
        | inr some_data ↦ (
          out,
          rw (some_data)
              (ap (after_migration sv ls store an (es₂ ++ timeout ∷ []) r dest) same ∙ ends),
        )
      ]

-- A job ends, whatever the services answer and the moves send, if the timer of a day runs out at last in
-- the loops that wait for the moves.
pub runjob-ends :
    {W : Type 0} (sv : Services W) (ls : Listing W) (store : JobStore W) (an : Analyst W)
    (es₁ es₂ : List Event) (r : RunRequest) (w : W)
    → (out : W × Job × Result (Unit {0})) × (runjob sv ls store an
          (es₁ ++ timeout ∷ [])
          (es₂ ++ timeout ∷ [])
          r
          w
        ≡ some out)
unfolding runjob
runjob-ends sv ls store an es₁ es₂ r w =
    run_prepared-ends sv ls store an es₁ es₂ r
      (prepare4_run sv ls store r (new_job r.id (store.now w)) w)

unknown_fails :
    {W : Type 0} (sv : Services W) (ls : Listing W) (store : JobStore W) (an : Analyst W)
    (es₁ es₂ : List Event) (r : RunRequest) (src dest : LocationInfo) (objs : List Object)
    (j j' : Job) (v v' : W)
    → (j.total_count == 0 || j.total_capacity == 0) ≡ false
    → do_migration store
        (es₁ ++ timeout ∷ [])
        (update_job store running (codes "migrate ...") j v).1
        (update_job store running (codes "migrate ...") j v).0
      ≡ some (v', j', some false)
    → is_empty r.asist_type ≡ false
    → text_eq r.asist_type analysis_type ≡ false
    → run_prepared sv ls store an (es₁ ++ timeout ∷ []) es₂ r (v, j, done (src, dest, objs))
      ≡ some (v', j', failed (codes "Unsupport asist type."))
unfolding run_prepared after_migration assist
unknown_fails sv ls store an es₁ es₂ r src dest objs j j' v v' filled moved more unknown =
    rw (filled)
      (ap (after_migration sv ls store an es₂ r dest) moved ∙ rw (more) (rw (unknown) refl))

-- If a job asks for an analysis of a kind that is not known, then after its migration went through it
-- ends with an error, and its status is still "running".
pub runjob-stays_running :
    {W : Type 0} (sv : Services W) (ls : Listing W) (store : JobStore W) (an : Analyst W)
    (es₁ es₂ : List Event) (r : RunRequest) (src dest : LocationInfo) (objs : List Object)
    (j j' : Job) (w v v' : W)
    → prepare4_run sv ls store r (new_job r.id (store.now w)) w ≡ (v, j, done (src, dest, objs))
    → (j.total_count == 0 || j.total_capacity == 0) ≡ false
    → do_migration store
        (es₁ ++ timeout ∷ [])
        (update_job store running (codes "migrate ...") j v).1
        (update_job store running (codes "migrate ...") j v).0
      ≡ some (v', j', some false)
    → is_empty r.asist_type ≡ false
    → text_eq r.asist_type analysis_type ≡ false
    → (runjob sv ls store an (es₁ ++ timeout ∷ []) es₂ r w
        ≡ some (v', j', failed (codes "Unsupport asist type.")))
      × (j'.status ≡ running)
unfolding runjob update_job next_step
runjob-stays_running sv ls store an es₁ es₂ r src dest objs j j' w v v' ready filled moved more
      unknown =
    let (w1, j1) = update_job store running (codes "migrate ...") j v in
    let (o, same, status) = do_migration-timeout store es₁ j1 w1 in
    (
      ap (run_prepared sv ls store an (es₁ ++ timeout ∷ []) es₂ r) ready
          ∙ unknown_fails sv ls store an es₁ es₂ r src dest objs j j' v v' filled moved more
              unknown,
      ap (λ x. x.1.status) (some_cancel (sym moved ∙ same)) ∙ status,
    )
