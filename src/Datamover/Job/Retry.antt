-- ===== src/Datamover/Job/Retry.antt =====
-- datamover/pkg/drivers/https/migration.go, `updateJob`: the tries to write the job.
use multi_cloud.Common.{
  ℕ, zero, suc, ◌<◌, ◌≡◌, refl, arith, Text, none, some, ◌⊎◌, inl, inr, Option-cases,
}
use multi_cloud.Datamover.Job.{Job, JobStore, save, try_update, next_step, update_job}

module _ {W : Type 0} (store : JobStore W) (j : Job) where
  -- The world after `k` writes of the job.
  abbrev pub written : ℕ → W → W
  written zero w = w
  written (suc k) w = written k (save store j w)

  -- The first `k` writes have an error.
  abbrev pub AllFail : ℕ → W → Type 0
  AllFail zero w = Unit
  AllFail (suc k) w = ((e : Text) × ((store.update j w).1 ≡ some e)) × AllFail k (save store j w)

  -- The `k`-th write is the first without an error.
  abbrev pub WritesAt : ℕ → W → Type 0
  WritesAt k w = AllFail k w × ((store.update j (written k w)).1 ≡ none)

  try_update-cases :
      (n : ℕ) (w : W)
      → ((k : ℕ) × (k < n) × WritesAt k w × (try_update store n j w ≡ written (suc k) w))
        ⊎ (AllFail n w × (try_update store n j w ≡ written n w))
  unfolding try_update
  try_update-cases zero w = inr (tt, refl)
  try_update-cases (suc n) w = elim (Option-cases ((store.update j w).1)) [
    | inl fine ↦ inl (0, omega arith, (tt, fine), rw (fine, try_update) refl)
    | inr (e, bad) ↦ elim (try_update-cases n (save store j w)) [
      | inl (k, less, at, same) ↦
          inl (suc k, omega (arith, less), (((e, bad), at.0), at.1), rw (bad, try_update) same)
      | inr (all, same) ↦ inr (((e, bad), all), rw (bad, try_update) same)
    ]
  ]

-- `updateJob` writes the job with the new step until a write has no error, and three times at most:
-- the world it leaves is the one after the first write without an error, or after three writes that
-- all failed.
pub update_job-retries :
    {W : Type 0} (store : JobStore W) (status step : Text) (j : Job) (w : W)
    → let j' = (update_job store status step j w).1 in
      ((k : ℕ) × (k < 3)
        × WritesAt store j' k w
        × ((update_job store status step j w).0 ≡ written store j' (suc k) w))
      ⊎ (AllFail store j' 3 w × ((update_job store status step j w).0 ≡ written store j' 3 w))
unfolding update_job
update_job-retries store status step j w =
    try_update-cases store (next_step (store.now w) (store.stamp w) status step j) 3 w
