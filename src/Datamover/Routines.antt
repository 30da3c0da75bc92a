-- ===== src/Datamover/Routines.antt =====
-- datamover/pkg/drivers/https/migration.go: the goroutines of a migration. `doMove` starts one for
-- each object and puts a token in the channel `th` after it; a `move` sends a number on `capa` when
-- it is through and then takes a token; the loop of `doMigration` or `migrateResult` receives the
-- numbers, and closes both channels after the last one or after a timeout.
pub mod Bounds
pub mod Crash
use multi_cloud.Common.{ℕ, suc, ◌+◌, ◌≤◌, ◌<◌, ◌≡◌, leb, Bool, true, false}

-- `to_start` objects wait; with `owed`, a goroutine is started and its token is not in `th` yet;
-- `moving` goroutines have not sent their number and `leaving` ones have.
pub record Routines : Type 0 where
  pub to_start : ℕ
  pub owed : Bool
  pub tokens : ℕ
  pub moving : ℕ
  pub leaving : ℕ
  pub count : ℕ
  pub total : ℕ
  pub closed : Bool

-- The process: a send on a closed channel panics, which ends it.
pub data Process : Type 0 where
  runs : Routines → Process
  crashed : Process

unfoldable pub begin : ℕ → Routines
begin n = record {
  to_start = n;
  owed = false;
  tokens = 0;
  moving = 0;
  leaving = 0;
  count = 0;
  total = n;
  closed = false;
}

abbrev pub started : ℕ → Routines → Routines
started n r = record r { to_start = n; owed = true; moving = r.moving + 1 }

abbrev pub produced : Routines → Routines
produced r = record r { owed = false; tokens = r.tokens + 1 }

abbrev pub sent : ℕ → Routines → Routines
sent m r = record r {
  moving = m;
  leaving = r.leaving + 1;
  count = r.count + 1;
  closed = leb r.total (r.count + 1);
}

abbrev pub consumed : ℕ → ℕ → Routines → Routines
consumed l k r = record r { leaving = l; tokens = k }

abbrev pub past_close : ℕ → Routines → Routines
past_close l r = record r { leaving = l }

abbrev pub stopped : Routines → Routines
stopped r = record r { closed = true }

-- One step, with `cap` the capacity of `th`.
pub data Step (cap : ℕ) : Process → Process → Type 0 where
  -- `go move(...)`
  start :
      (r : Routines) (n : ℕ)
      → r.owed ≡ false
      → r.to_start ≡ suc n
      → Step cap (runs r) (runs (started n r))
  -- `th <- 1`, blocked while `th` is full
  produce :
      (r : Routines)
      → r.owed ≡ true
      → r.closed ≡ false
      → r.tokens < cap
      → Step cap (runs r) (runs (produced r))
  produce_closed : (r : Routines) → r.owed ≡ true → r.closed ≡ true → Step cap (runs r) crashed
  -- `capa <- ...`, received by the loop at once
  send :
      (r : Routines) (m : ℕ)
      → r.moving ≡ suc m
      → r.closed ≡ false
      → Step cap (runs r) (runs (sent m r))
  send_closed :
      (r : Routines) (m : ℕ) → r.moving ≡ suc m → r.closed ≡ true → Step cap (runs r) crashed
  -- `t := <-th`, which gets a zero at once from a channel that is closed and empty
  consume :
      (r : Routines) (l k : ℕ)
      → r.leaving ≡ suc l
      → r.tokens ≡ suc k
      → Step cap (runs r) (runs (consumed l k r))
  consume_closed :
      (r : Routines) (l : ℕ)
      → r.leaving ≡ suc l
      → r.tokens ≡ 0
      → r.closed ≡ true
      → Step cap (runs r) (runs (past_close l r))
  -- the timer of `JOB_RUN_TIME_MAX`
  time_out : (r : Routines) → r.closed ≡ false → Step cap (runs r) (runs (stopped r))

pub data Reach (cap n : ℕ) : Process → Type 0 where
  here : Reach cap n (runs (begin n))
  after : {p q : Process} → Reach cap n p → Step cap p q → Reach cap n q
