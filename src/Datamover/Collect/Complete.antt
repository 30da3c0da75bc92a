-- ===== src/Datamover/Collect/Complete.antt =====
-- datamover/pkg/drivers/https/migration.go: a migration that is complete, and the counts of a result.
use multi_cloud.Common.{
  ℕ, suc, ◌*◌, ◌/◌, ◌<◌, ◌≡◌, ◌∙◌, refl, ap, sym, ltb, arith, append_nil, false, List, [], ◌∷◌,
  ◌++◌, map, length, some, if◌then◌else◌, codes,
}
use native.Mathlib.Nat.{mul-div_cancel_left}
use multi_cloud.Common.Int.{ℤ, pos}
use multi_cloud.Datamover.Job.{Job, JobStore, update_job, succeed, failed_status}
use multi_cloud.Datamover.Collect.{
  Event, received, no_tally, do_migration, after_result, migrate_result,
}
use multi_cloud.Datamover.Collect.Counts.{
  passed_in, capacity_in, outcome, tally_on-none, collect_result-all, do_migration-counts,
}

length-sizes : (ns : List ℕ) → length (map pos ns) ≡ length ns
length-sizes [] = refl
length-sizes (n ∷ ns) = ap suc (length-sizes ns)

passed_in-sizes : (ns : List ℕ) → passed_in (map pos ns) ≡ length ns
passed_in-sizes [] = refl
passed_in-sizes (n ∷ ns) = omega (arith, passed_in-sizes ns)

-- If every object reports its size, and these are the sizes that the job was told, then a migration
-- ends without an error and with a progress of 100 per cent.
pub do_migration_complete :
    {W : Type 0} (store : JobStore W) (n : ℕ) (ns : List ℕ) (j : Job) (w : W)
    → j.total_count ≡ length (n ∷ ns)
    → j.total_capacity ≡ capacity_in (map pos (n ∷ ns))
    → 0 < j.total_capacity
    → (w' : W) × (j' : Job) × (do_migration store (map received (map pos (n ∷ ns))) j w
        ≡ some (w', j', some false))
      × (j'.passed_count ≡ j.total_count)
      × (j'.passed_capacity ≡ j.total_capacity)
      × (j'.progress ≡ 100)
do_migration_complete store n ns j w counted summed filled =
    let passed = passed_in-sizes (n ∷ ns) in
    let (w', same) =
      do_migration-counts store (pos n) (map pos ns) [] j w (counted ∙ sym (length-sizes (n ∷ ns)))
        filled in
    (
      w',
      (outcome j (pos n ∷ map pos ns)).0,
      ap (λ es. do_migration store es j w) (sym (append_nil _))
          ∙ same
          ∙ ap (λ b. some (w', (outcome j (pos n ∷ map pos ns)).0, some b))
              (ground (arith, passed, counted)),
      passed ∙ sym counted,
      sym summed,
      ap (λ k. k * 100 / j.total_capacity) (sym summed) ∙ mul-div_cancel_left 100 filled,
    )

-- When every move of a result reports, `migrateResult` ends: the job is written as failed if a move
-- sent -1 and as succeeded otherwise, with the same text of success in both cases.
pub migrate_result-counts :
    {W : Type 0} (store : JobStore W) (c : ℤ) (cs : List ℤ) (es : List Event) (j : Job) (w : W)
    → migrate_result store (length (c ∷ cs)) (map received (c ∷ cs) ++ es) j w
      ≡ some (
          update_job store
            (if ltb (passed_in (c ∷ cs)) (length (c ∷ cs)) then failed_status else succeed)
            (codes "migrate successfully.")
            j
            w)
unfolding migrate_result after_result
migrate_result-counts store c cs es j w = ap (after_result store (length (c ∷ cs)) j w) (
    collect_result-all (length (c ∷ cs)) c cs es no_tally (omega arith)
    ∙ ap some (tally_on-none (c ∷ cs)))
