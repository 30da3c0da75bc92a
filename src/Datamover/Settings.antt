-- ===== src/Datamover/Settings.antt =====
-- datamover/pkg/drivers/https/migration.go: the numbers it reads from the environment.
use multi_cloud.Common.{ℕ, ◌*◌, ◌&&◌, ◌||◌, ltb, leb, Text, none, some, if◌then◌else◌}
use multi_cloud.Common.Int.{pos, negsuc}
use multi_cloud.Common.Strconv.{atoi}

-- `PART_SIZE` after the test of the environment's `PARTSIZE`, in MiB.
unfoldable pub set_part_size : Text → ℕ → ℕ
unfolding atoi
set_part_size partsize part_size = elim (atoi partsize) [
  | none ↦ part_size
  | some n ↦ elim n [
    | pos k ↦ if leb 5 k && leb k 100 then k * 1024 * 1024 else part_size
    | negsuc k ↦ part_size
  ]
]

-- The seconds that the calls of a job may take, by the environment's `JOB_MAX_RUN_TIME`.
unfoldable pub run_time : Text → ℕ
unfolding atoi
run_time job_max_run_time = elim (atoi job_max_run_time) [
  | none ↦ 86400
  | some n ↦ elim n [ pos k ↦ if ltb k 60 || ltb 2592000 k then 86400 else k | negsuc k ↦ 86400 ]
]
