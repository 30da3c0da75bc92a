-- ===== src/Dataflow/Lock/Race.antt =====
-- dataflow/pkg/db/drivers/mongo/mongo.go, `lock`: two schedulers at the same plan, each call of the
-- collection and of the clock by itself. The row of the plan is there with its time, or not. Time passes
-- between the calls; the database has no other errors than a row that is there or is not.
use multi_cloud.Common.{ℕ, suc, arith, some_cancel, ◌+◌, ◌<◌, ◌≤◌, ◌≡◌, refl, Option, none, some}

-- Where a scheduler is in `lock`: before it reads the clock, before the first `Insert` of its row, before
-- `Find`, with the row that it has found, before `unlock`, before the second `Insert`, with the lock, or
-- without it. A row bears the time that was read at the start.
pub data Stage : Type 0 where
  starting : Stage
  inserting : (time : ℕ) → Stage
  finding : (time : ℕ) → Stage
  comparing : (time since : ℕ) → Stage
  removing : (time : ℕ) → Stage
  inserting_again : (time : ℕ) → Stage
  holding : Stage
  given_up : Stage

-- One call of a scheduler at the time `now`, on the row.
pub data Call (max now : ℕ) : Option ℕ → Stage → Option ℕ → Stage → Type 0 where
  reads_clock : (r : Option ℕ) → Call max now r starting r (inserting now)
  inserts : (t : ℕ) → Call max now none (inserting t) (some t) holding
  insert_fails : (t s : ℕ) → Call max now (some s) (inserting t) (some s) (finding t)
  finds : (t s : ℕ) → Call max now (some s) (finding t) (some s) (comparing t s)
  finds_none : (t : ℕ) → Call max now none (finding t) none given_up
  is_old : (r : Option ℕ) (t s : ℕ) → s + max < now → Call max now r (comparing t s) r (removing t)
  is_new : (r : Option ℕ) (t s : ℕ) → now ≤ s + max → Call max now r (comparing t s) r given_up
  removes : (t s : ℕ) → Call max now (some s) (removing t) none (inserting_again t)
  remove_fails : (t : ℕ) → Call max now none (removing t) none given_up
  inserts_again : (t : ℕ) → Call max now none (inserting_again t) (some t) holding
  insert_again_fails : (t s : ℕ) → Call max now (some s) (inserting_again t) (some s) given_up

pub record Schedulers : Type 0 where
  pub row : Option ℕ
  pub first : Stage
  pub second : Stage

-- The calls of the two in some order, from the time `now` until another.
pub data Runs (max : ℕ) : ℕ → Schedulers → ℕ → Schedulers → Type 0 where
  still : (now : ℕ) (s : Schedulers) → Runs max now s now s
  passes :
      {now until : ℕ} {s t : Schedulers} → Runs max (suc now) s until t → Runs max now s until t
  first_calls :
      {now until : ℕ} {r : Option ℕ} {a : Stage} (s : Schedulers) {t : Schedulers}
      → Call max now s.row s.first r a
      → Runs max now (record s { row = r; first = a }) until t
      → Runs max now s until t
  second_calls :
      {now until : ℕ} {r : Option ℕ} {b : Stage} (s : Schedulers) {t : Schedulers}
      → Call max now s.row s.second r b
      → Runs max now (record s { row = r; second = b }) until t
      → Runs max now s until t

-- Whatever the limit is, two schedulers that both find a lock older than it can both come to hold the
-- plan: the second one removes the lock that the first one has just taken in its place.
pub stale_lock-both_hold :
    (max now t : ℕ)
    → t + max < now
    → Runs max now
        (record { row = some t; first = starting; second = starting })
        now
        (record { row = some now; first = holding; second = holding })
stale_lock-both_hold max now t old = first_calls _ (reads_clock _) (
    second_calls _ (reads_clock _) (
      first_calls _ (insert_fails now t) (
        second_calls _ (insert_fails now t) (
          first_calls _ (finds now t) (
            second_calls _ (finds now t) (
              first_calls _ (is_old _ now t old) (
                second_calls _ (is_old _ now t old) (
                  first_calls _ (removes now t) (
                    first_calls _ (inserts_again now) (
                      second_calls _ (removes now now)
                        (second_calls _ (inserts_again now) (still _ _))))))))))))

Runs-later : {max now until : ℕ} {s t : Schedulers} → Runs max now s until t → now ≤ until
Runs-later (still now s) = omega arith
Runs-later (passes rest) = omega (arith, Runs-later rest)
Runs-later (first_calls s c rest) = Runs-later rest
Runs-later (second_calls s c rest) = Runs-later rest

abbrev holders : Stage → ℕ
holders holding = 1
holders _ = 0

abbrev rows : Option ℕ → ℕ
rows none = 0
rows (some t) = 1

-- A scheduler that takes no lock over, and whose row, if it comes to write one, is not too old until then.
abbrev IsPatient : ℕ → ℕ → Stage → Type 0
IsPatient max until (inserting t) = until ≤ t + max
IsPatient max until (comparing t s) = until ≤ s + max
IsPatient max until (removing t) = 1 ≤ 0
IsPatient max until (inserting_again t) = 1 ≤ 0
IsPatient max until starting = Unit
IsPatient max until (finding t) = Unit
IsPatient max until holding = Unit
IsPatient max until given_up = Unit

-- No lock gets too old, nobody takes one over, and who holds the plan has its row.
record IsFair (max until : ℕ) (r : Option ℕ) (a b : Stage) : Type 0 where
  young : (t : ℕ) → r ≡ some t → until ≤ t + max
  patient : IsPatient max until a
  other_patient : IsPatient max until b
  rowed : holders a + holders b ≤ rows r

module _ (max until : ℕ) where
  Call-IsFair :
      (now : ℕ) {r r' : Option ℕ} {a a' : Stage} (b : Stage)
      → now ≤ until
      → until ≤ now + max
      → Call max now r a r' a'
      → IsFair max until r a b
      → IsFair max until r' a' b
  Call-IsFair now b later short (reads_clock r) f = record {
    young = f.young;
    patient = short;
    other_patient = f.other_patient;
    rowed = f.rowed;
  }
  Call-IsFair now b later short (inserts t) f = record {
    young = λ s e. ground (arith, some_cancel e, f.patient);
    patient = tt;
    other_patient = f.other_patient;
    rowed = omega (arith, f.rowed);
  }
  Call-IsFair now b later short (insert_fails t s) f = record {
    young = f.young;
    patient = tt;
    other_patient = f.other_patient;
    rowed = f.rowed;
  }
  Call-IsFair now b later short (finds t s) f = record {
    young = f.young;
    patient = f.young s refl;
    other_patient = f.other_patient;
    rowed = f.rowed;
  }
  Call-IsFair now b later short (finds_none t) f = record {
    young = f.young;
    patient = tt;
    other_patient = f.other_patient;
    rowed = f.rowed;
  }
  Call-IsFair now b later short (is_old r t s old) f = absurd (omega (arith, old, later, f.patient))
  Call-IsFair now b later short (is_new r t s new) f = record {
    young = f.young;
    patient = tt;
    other_patient = f.other_patient;
    rowed = f.rowed;
  }
  Call-IsFair now b later short (removes t s) f = absurd (omega (arith, f.patient))
  Call-IsFair now b later short (remove_fails t) f = absurd (omega (arith, f.patient))
  Call-IsFair now b later short (inserts_again t) f = absurd (omega (arith, f.patient))
  Call-IsFair now b later short (insert_again_fails t s) f = absurd (omega (arith, f.patient))

  swap-IsFair : (r : Option ℕ) (a b : Stage) → IsFair max until r a b → IsFair max until r b a
  swap-IsFair r a b f = record {
    young = f.young;
    patient = f.other_patient;
    other_patient = f.patient;
    rowed = omega (arith, f.rowed);
  }

Runs-IsFair :
    {max now until : ℕ} {s t : Schedulers}
    → until ≤ now + max
    → Runs max now s until t
    → IsFair max until s.row s.first s.second
    → IsFair max until t.row t.first t.second
Runs-IsFair short (still now s) f = f
Runs-IsFair short (passes rest) f = Runs-IsFair (omega (arith, short)) rest f
Runs-IsFair {max} {now} {until} short (first_calls s c rest) f =
    Runs-IsFair short rest (Call-IsFair max until now s.second (Runs-later rest) short c f)
Runs-IsFair {max} {now} {until} short (second_calls {r = r} {b = b} s c rest) f =
    Runs-IsFair short rest (
      swap-IsFair max until _ _ _ (
        Call-IsFair max until now s.first (Runs-later rest) short c
          (swap-IsFair max until _ _ _ f)))

-- From a row that is free, or whose lock does not get older than the limit before the run ends, no order
-- of the calls of the two schedulers leads to both holding the plan, if the run does not take longer
-- than the limit. The time passes between the calls in any way.
pub fresh_lock-one_holds :
    (max now until : ℕ) (row : Option ℕ) {t : Schedulers}
    → ((since : ℕ) → row ≡ some since → until ≤ since + max)
    → until ≤ now + max
    → Runs max now (record { row = row; first = starting; second = starting }) until t
    → ¬ ((t.first ≡ holding) × (t.second ≡ holding))
fresh_lock-one_holds max now until row young short runs both =
    let f =
      Runs-IsFair short runs
        (record { young = young; patient = tt; other_patient = tt; rowed = omega arith }) in
    absurd (ground (arith, f.rowed, both))
