-- ===== src/Datamover/Tests/Jobs.antt =====
-- datamover: the theorems on jobs and goroutines at concrete numbers.
use mathlib.Core.List.Permᴰ
use multi_cloud.Common.{
  ◌+◌, ◌≤◌, ◌≡◌, ◌⊎◌, refl, arith, Bool, true, false, codes, List, [], ◌∷◌, ◌++◌, map, length, none,
  some, if◌then◌else◌, ltb,
}
use multi_cloud.Common.Int.{pos, negsuc}
use multi_cloud.Datamover.Job.{Job, JobStore, running}
use multi_cloud.Datamover.Collect.{received, timeout, do_migration}
use multi_cloud.Datamover.Collect.Counts.{do_migration-counts, do_migration-order}
use multi_cloud.Datamover.Routines.{
  Routines, runs, crashed, begin, Step, started, start, Reach, here, after,
}
use multi_cloud.Datamover.Routines.Bounds.{work, steps_of, running-not_stuck, running-ends}
use multi_cloud.Datamover.Routines.Crash.{last_token-crashes}

-- A database that keeps every job it is sent, and refuses the first two.
abbrev log : JobStore (List Job)
log = record {
  update = λ j w. (j ∷ w, if ltb (length w) 2 then some (codes "no connection") else none);
  now = λ w. 7;
  stamp = λ w. codes "[now] ";
}

abbrev three_objects : Job
three_objects = record {
  id = codes "5b";
  start_time = 1;
  end_time = 0;
  total_capacity = 30;
  total_count = 3;
  passed_count = 0;
  passed_capacity = 0;
  status = running;
  progress = 0;
  step_desc = [];
}

two_of_three :
    (w : List Job) × (do_migration log
        (map received (pos 10 ∷ negsuc 0 ∷ pos 5 ∷ []) ++ timeout ∷ [])
        three_objects
        []
      ≡ some (
        w,
        record three_objects { passed_count = 2; passed_capacity = 15; progress = 50 },
        some true,
      ))
two_of_three =
    do_migration-counts log (pos 10) (negsuc 0 ∷ pos 5 ∷ []) (timeout ∷ []) three_objects [] refl
      (omega arith)

in_either_order :
    (w₁ w₂ : List Job) × (o : Job × Bool) × (do_migration log
        (map received (pos 10 ∷ negsuc 0 ∷ pos 5 ∷ []))
        three_objects
        []
      ≡ some (w₁, o.0, some o.1))
    × (do_migration log (map received (negsuc 0 ∷ pos 10 ∷ pos 5 ∷ [])) three_objects []
        ≡ some (w₂, o.0, some o.1))
in_either_order =
    do_migration-order log (pos 10) (negsuc 0) (negsuc 0 ∷ pos 5 ∷ []) (pos 10 ∷ pos 5 ∷ [])
      three_objects [] refl refl (omega arith) (Permᴰ.swap refl refl)

one_started : Reach 10 2 (runs (started 1 (begin 2)))
unfolding begin
one_started = after here (start (begin 2) 1 refl refl)

one_goes_on :
    (r : Routines) × Step 10 (runs (started 1 (begin 2))) (runs r)
    × (r.closed ≡ false ⊎ (2 ≤ r.count))
unfolding begin
one_goes_on =
    running-not_stuck 10 2 (started 1 (begin 2)) (omega arith) (omega arith) one_started refl

one_of_fourteen : steps_of 10 2 one_started + work (runs (started 1 (begin 2))) ≤ 14
one_of_fourteen = running-ends 10 2 one_started

three_can_crash : Reach 10 3 crashed
three_can_crash = last_token-crashes 10 3 (omega arith) (omega arith)
