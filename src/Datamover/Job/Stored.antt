-- ===== src/Datamover/Job/Stored.antt =====
-- datamover/pkg/db/drivers/mongo/mongo.go, `UpdateJob`: what the stored job is after several writes.
use multi_cloud.Common.{ℕ, ◌≡◌, refl, arith, Text, [], ◌∷◌}
use multi_cloud.Datamover.Job.{Job, merge_job, or_old, or_old_text}

or_old-merge : (a b c : ℕ) → or_old (or_old a b) c ≡ or_old a (or_old b c)
or_old-merge a b c = ground arith

or_old_text-merge :
    (a b c : Text) → or_old_text (or_old_text a b) c ≡ or_old_text a (or_old_text b c)
or_old_text-merge a [] [] = refl
or_old_text-merge a (x ∷ b) [] = refl
or_old_text-merge a b (y ∷ c) = refl

-- Two writes of a job, one after the other, leave the stored job as one write of the two merged: a
-- write that failed is made up for by the next one, except for a field that the next one has at zero.
pub merge_job-merge :
    (newer older stored : Job)
    → merge_job newer (merge_job older stored) ≡ merge_job (merge_job newer older) stored
unfolding merge_job
merge_job-merge newer older stored = λ i. record {
  id = stored.id;
  start_time = or_old-merge stored.start_time older.start_time newer.start_time i;
  end_time = or_old-merge stored.end_time older.end_time newer.end_time i;
  total_capacity = or_old-merge stored.total_capacity older.total_capacity newer.total_capacity i;
  total_count = or_old-merge stored.total_count older.total_count newer.total_count i;
  passed_count = or_old-merge stored.passed_count older.passed_count newer.passed_count i;
  passed_capacity =
      or_old-merge stored.passed_capacity older.passed_capacity newer.passed_capacity i;
  status = or_old_text-merge stored.status older.status newer.status i;
  progress = or_old-merge stored.progress older.progress newer.progress i;
  step_desc = or_old_text-merge stored.step_desc older.step_desc newer.step_desc i;
}
