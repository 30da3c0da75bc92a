-- ===== src/Datamover/Collect/Counts.antt =====
-- datamover/pkg/drivers/https/migration.go, `doMigration` and `migrateResult`: what the loops count.
use mathlib.Core.Path.{ap₂}
use multi_cloud.Common.{
  if◌then◌else◌, ◌<◌, ◌||◌, ◌%◌, ℕ, ◌+◌, ◌*◌, ◌/◌, ◌≡◌, ◌∙◌, refl, ap, sym, ◌==◌, ltb, leb, le→leb,
  arith, append_nil, Bool, true, false, List, [], ◌∷◌, ◌++◌, map, length, Option, some, Bool-cases,
  inl, inr,
}
use mathlib.Core.List.{Permᴰ}
use multi_cloud.Common.Int.{ℤ, pos, negsuc}
use multi_cloud.Datamover.Job.{save, Job, JobStore}
use multi_cloud.Datamover.Collect.{
  Event, received, Tally, no_tally, add_capa, is_reported, progress_of, collect_result, report,
  Collected, save_progress, after_report, collect, after_collect, do_migration,
}

-- How many of the numbers are sizes, and their sum.
abbrev pub passed_of : ℤ → ℕ
passed_of (pos c) = 1
passed_of (negsuc c) = 0

abbrev pub size_of : ℤ → ℕ
size_of (pos c) = c
size_of (negsuc c) = 0

abbrev pub passed_in : List ℤ → ℕ
passed_in [] = 0
passed_in (c ∷ cs) = passed_in cs + passed_of c

abbrev pub capacity_in : List ℤ → ℕ
capacity_in [] = 0
capacity_in (c ∷ cs) = capacity_in cs + size_of c

-- The tally of some numbers, added to another.
abbrev pub tally_on : Tally → List ℤ → Tally
tally_on t cs = record {
  count = t.count + length cs;
  passed_count = t.passed_count + passed_in cs;
  capacity = t.capacity + capacity_in cs;
}

tally_on-cons : (t : Tally) (c : ℤ) (cs : List ℤ) → tally_on (add_capa c t) cs ≡ tally_on t (c ∷ cs)
unfolding add_capa
tally_on-cons t (pos n) cs = ground arith
tally_on-cons t (negsuc n) cs = ground arith

add_capa-count : (t : Tally) (c : ℤ) → (add_capa c t).count ≡ t.count + 1
unfolding add_capa
add_capa-count t (pos n) = refl
add_capa-count t (negsuc n) = refl

tally_on-nil : (t : Tally) → tally_on t [] ≡ t
tally_on-nil t = ground arith

pub collect_result-all :
    (total : ℕ) (c : ℤ) (cs : List ℤ) (es : List Event) (t : Tally)
    → t.count + length (c ∷ cs) ≡ total
    → collect_result total (map received (c ∷ cs) ++ es) t ≡ some (tally_on t (c ∷ cs))
unfolding collect_result
collect_result-all total c [] es t e =
    rw (le→leb total (add_capa c t).count (omega (arith, add_capa-count t c, e)))
      (ap some (sym (tally_on-nil (add_capa c t)) ∙ tally_on-cons t c []))
collect_result-all total c (d ∷ cs) es t e = rw (more) (
    collect_result-all total d cs es (add_capa c t) (omega (arith, add_capa-count t c, e))
    ∙ ap some (tally_on-cons t c (d ∷ cs)))
  where
    more : leb total (add_capa c t).count ≡ false
    more = ground (arith, add_capa-count t c, e)

-- The job with a tally.
abbrev with_tally : Tally → Job → Job
with_tally t j = record j {
  passed_count = t.passed_count;
  passed_capacity = t.capacity;
  progress = t.capacity * 100 / j.total_capacity;
}

-- The job after a number was received.
abbrev reported : ℕ → Tally → Job → Job
reported total t j = if is_reported total t.count then with_tally t j else j

reported-with_tally :
    (total : ℕ) (t : Tally) (j : Job) (u : Tally)
    → (with_tally u (reported total t j) ≡ with_tally u j)
      × ((reported total t j).total_capacity ≡ j.total_capacity)
reported-with_tally total t j u = elim (Bool-cases (is_reported total t.count)) [
  | inl y ↦ rw (y) (refl, refl)
  | inr n ↦ rw (n) (refl, refl)
]

reported-last :
    (total : ℕ) (t : Tally) (j : Job) → t.count ≡ total → reported total t j ≡ with_tally t j
unfolding is_reported
reported-last total t j e = rw (last) refl
  where
    last : (ltb total 100 || t.count == total || t.count % (total / 10) == 0) ≡ true
    last = ground (arith, e)

module _ {W : Type 0} (store : JobStore W) where
  collected :
      {w : W} {j j' : Job} {t t' : Tally}
      → j ≡ j'
      → t ≡ t'
      → ◌≡◌ {A = Option (Collected W)} (some (w, j, some t)) (some (w, j', some t'))
  collected {w} a b = ap₂ (λ j t. some (w, j, some t)) a b

  report-reported :
      (total : ℕ) (t : Tally) (j : Job) (w : W)
      → 0 < j.total_capacity
      → (w' : W) × (report store total t j w ≡ (w', some (reported total t j)))
  unfolding report progress_of save_progress
  report-reported total t j w filled = elim (Bool-cases (is_reported total t.count)) [
    | inl y ↦ (save store (with_tally t j) w, rw (y, some_capacity) refl)
    | inr n ↦ (w, rw (n) refl)
  ]
    where
      some_capacity : (j.total_capacity == 0) ≡ false
      some_capacity = ground (arith, filled)

  collect-all :
      (total : ℕ) (c : ℤ) (cs : List ℤ) (es : List Event) (t : Tally) (j : Job) (w : W)
      → t.count + length (c ∷ cs) ≡ total
      → 0 < j.total_capacity
      → (w' : W) × (collect store total (map received (c ∷ cs) ++ es) t j w
          ≡ some (w', with_tally (tally_on t (c ∷ cs)) j, some (tally_on t (c ∷ cs))))
  unfolding collect after_report
  collect-all total c [] es t j w e filled =
      let t' = add_capa c t in
      let full : t' ≡ tally_on t (c ∷ []) = sym (tally_on-nil t') ∙ tally_on-cons t c [] in
      let (w', ran) = report-reported total t' j w filled in
      (
        w',
        ap (after_report (collect store total es t') total t' j) ran
            ∙ rw (le→leb total t'.count (omega (arith, add_capa-count t c, e))) (
                collected
                  (reported-last total t' j (omega (arith, add_capa-count t c, e))
                    ∙ ap (λ u. with_tally u j) full)
                  full),
      )
  collect-all total c (d ∷ cs) es t j w e filled =
      let t' = add_capa c t in
      let j1 = reported total t' j in
      let (w1, ran) = report-reported total t' j w filled in
      let (same_job, same_total) = reported-with_tally total t' j (tally_on t' (d ∷ cs)) in
      let (w2, same) =
        collect-all total d cs es t' j1 w1 (omega (arith, add_capa-count t c, e))
          (omega (arith, same_total, filled)) in
      let full = tally_on-cons t c (d ∷ cs) in
      (
        w2,
        ap (after_report (collect store total (map received (d ∷ cs) ++ es) t') total t' j) ran
            ∙ rw (more) (same ∙ collected (same_job ∙ ap (λ u. with_tally u j) full) full),
      )
    where
      more : leb total (add_capa c t).count ≡ false
      more = ground (arith, add_capa-count t c, e)

-- The messages of a migration whose moves all report: the job that `doMigration` leaves and whether
-- it returns an error are told by the number of sizes among them and by their sum.
abbrev pub outcome_of : Job → ℕ → ℕ → Job
outcome_of j passed capacity = record j {
  passed_count = passed;
  passed_capacity = capacity;
  progress = capacity * 100 / j.total_capacity;
}

abbrev pub outcome : Job → List ℤ → Job × Bool
outcome j cs = (outcome_of j (passed_in cs) (capacity_in cs), ltb (passed_in cs) j.total_count)

pub tally_on-none :
    (cs : List ℤ)
    → tally_on no_tally cs
      ≡ record { count = length cs; passed_count = passed_in cs; capacity = capacity_in cs }
tally_on-none cs = ground arith

-- When every move reports, `doMigration` ends: the job has the number of the sizes received and
-- their sum, its progress is the sum's share of the total capacity, which is not 0, in per cent, and
-- there is an error exactly if a move sent -1. What comes later and the errors of the database change nothing of this.
pub do_migration-counts :
    {W : Type 0} (store : JobStore W) (c : ℤ) (cs : List ℤ) (es : List Event) (j : Job) (w : W)
    → j.total_count ≡ length (c ∷ cs)
    → 0 < j.total_capacity
    → (w' : W) × (do_migration store (map received (c ∷ cs) ++ es) j w
        ≡ some (w', (outcome j (c ∷ cs)).0, some ((outcome j (c ∷ cs)).1)))
unfolding do_migration after_collect
do_migration-counts store c cs es j w e filled =
    let (w', same) =
      collect-all store j.total_count c cs es no_tally j w (omega (arith, e)) filled in
    (
      w',
      ap (λ o. after_collect j.total_count o) same
          ∙ ap (λ t. after_collect j.total_count (some (w', with_tally t j, some t)))
              (tally_on-none (c ∷ cs)),
    )

passed_in-Permᴰ : {xs ys : List ℤ} → Permᴰ xs ys → passed_in xs ≡ passed_in ys
passed_in-Permᴰ Permᴰ.nil = refl
passed_in-Permᴰ (Permᴰ.cons e p) = omega (arith, ap passed_of e, passed_in-Permᴰ p)
passed_in-Permᴰ (Permᴰ.swap e f) = omega (arith, ap passed_of e, ap passed_of f)
passed_in-Permᴰ (Permᴰ.trans p q) = passed_in-Permᴰ p ∙ passed_in-Permᴰ q

capacity_in-Permᴰ : {xs ys : List ℤ} → Permᴰ xs ys → capacity_in xs ≡ capacity_in ys
capacity_in-Permᴰ Permᴰ.nil = refl
capacity_in-Permᴰ (Permᴰ.cons e p) = omega (arith, ap size_of e, capacity_in-Permᴰ p)
capacity_in-Permᴰ (Permᴰ.swap e f) = omega (arith, ap size_of e, ap size_of f)
capacity_in-Permᴰ (Permᴰ.trans p q) = capacity_in-Permᴰ p ∙ capacity_in-Permᴰ q

-- The order in which the moves report makes no difference to the job and to the error that a
-- migration ends with, if the total capacity is not 0.
pub do_migration-order :
    {W : Type 0} (store : JobStore W) (c d : ℤ) (cs ds : List ℤ) (j : Job) (w : W)
    → j.total_count ≡ length (c ∷ cs)
    → j.total_count ≡ length (d ∷ ds)
    → 0 < j.total_capacity
    → Permᴰ (c ∷ cs) (d ∷ ds)
    → (w₁ w₂ : W) × (o : Job × Bool) × (do_migration store (map received (c ∷ cs)) j w
        ≡ some (w₁, o.0, some o.1))
      × (do_migration store (map received (d ∷ ds)) j w ≡ some (w₂, o.0, some o.1))
do_migration-order store c d cs ds j w e f filled p =
    let (w₁, same₁) = do_migration-counts store c cs [] j w e filled in
    let (w₂, same₂) = do_migration-counts store d ds [] j w f filled in
    let passed = passed_in-Permᴰ p in
    let capacity = capacity_in-Permᴰ p in
    (
      w₁,
      w₂,
      outcome j (c ∷ cs),
      ap (λ es. do_migration store es j w) (sym (append_nil _)) ∙ same₁,
      ap (λ es. do_migration store es j w) (sym (append_nil _))
          ∙ same₂
          ∙ ap₂ (λ a b. some (w₂, outcome_of j a b, some (ltb a j.total_count))) (sym passed)
              (sym capacity),
    )
