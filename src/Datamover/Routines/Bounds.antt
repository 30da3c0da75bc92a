-- ===== src/Datamover/Routines/Bounds.antt =====
-- datamover/pkg/drivers/https/migration.go: how many goroutines run, and that they do not block each
-- other.
use multi_cloud.Common.{
  ℕ, zero, suc, ◌+◌, ◌*◌, ◌≤◌, ◌<◌, ◌≡◌, refl, arith, Bool, false, not, ◌⊎◌, inl, inr, leb,
  if◌then◌else◌, Bool-cases,
}
use multi_cloud.Datamover.Routines.{
  Routines, Process, runs, crashed, begin, started, produced, sent, consumed, Step, start, produce,
  produce_closed, send, send_closed, consume, consume_closed, time_out, Reach, here, after,
}

abbrev pub bit : Bool → ℕ
bit b = if b then 1 else 0

-- Every started goroutine has a token in `th`, or is the one whose token is owed; every object waits,
-- moves or is counted; the loop goes on while numbers are missing.
pub record IsBalanced (cap n : ℕ) (r : Routines) : Type 0 where
  pub total_is : r.total ≡ n
  pub capped : r.tokens ≤ cap
  pub at_most : r.moving + r.leaving ≤ r.tokens + bit r.owed
  pub exactly : r.closed ≡ false → r.moving + r.leaving ≡ r.tokens + bit r.owed
  pub all_there : r.to_start + r.moving + r.count ≡ n
  pub open_until : r.closed ≡ false → r.count < n

abbrev pub Balanced : ℕ → ℕ → Process → Type 0
Balanced cap n (runs r) = IsBalanced cap n r
Balanced cap n crashed = Unit

begin-IsBalanced : (cap n : ℕ) → 0 < n → IsBalanced cap n (begin n)
unfolding begin
begin-IsBalanced cap n pos = record {
  total_is = refl;
  capped = omega arith;
  at_most = omega arith;
  exactly = λ e. omega arith;
  all_there = omega arith;
  open_until = λ e. pos;
}

Balanced-Step : (cap n : ℕ) {p q : Process} → Step cap p q → Balanced cap n p → Balanced cap n q
Balanced-Step cap n (start r k e f) b = ground (arith, e, f)
Balanced-Step cap n (produce r e f l) b = ground (arith, e, f, l)
Balanced-Step cap n (produce_closed r e f) b = tt
Balanced-Step cap n (send r m e f) b = ground (arith, e, f)
Balanced-Step cap n (send_closed r m e f) b = tt
Balanced-Step cap n (consume r l k e f) b = ground (arith, e, f)
Balanced-Step cap n (consume_closed r l e f g) b = ground (arith, e, f, g)
Balanced-Step cap n (time_out r e) b = ground (arith, e)

Reach-Balanced : (cap n : ℕ) {p : Process} → 0 < n → Reach cap n p → Balanced cap n p
Reach-Balanced cap n pos here = begin-IsBalanced cap n pos
Reach-Balanced cap n pos (after before step) =
    Balanced-Step cap n step (Reach-Balanced cap n pos before)

-- Whatever the order of the steps, at most `cap + 1` goroutines run at a time: one more than the
-- capacity of `th`, since a goroutine is started before its token is put there.
pub running-bounded :
    (cap n : ℕ) (r : Routines) → 0 < n → Reach cap n (runs r) → r.moving + r.leaving ≤ cap + 1
running-bounded cap n r pos reach =
    let b = Reach-Balanced cap n pos reach in ground (arith, b.at_most, b.capped)

zero_or_suc : (k : ℕ) → (k ≡ 0) ⊎ ((m : ℕ) × (k ≡ suc m))
zero_or_suc zero = inl refl
zero_or_suc (suc k) = inr (k, refl)

last_or_more : (total count n : ℕ) → total ≡ n → (leb total count ≡ false) ⊎ (n ≤ count)
last_or_more total count n e = elim (Bool-cases (leb total count)) [
  | inl full ↦ inr (ground (arith, full, e))
  | inr more ↦ inl more
]

-- The goroutines do not block each other: while the loop waits for a number, one of the steps other
-- than a panic or the timeout can be made, if `th` has a capacity.
pub running-not_stuck :
    (cap n : ℕ) (r : Routines)
    → 0 < cap
    → 0 < n
    → Reach cap n (runs r)
    → r.closed ≡ false
    → (r' : Routines) × Step cap (runs r) (runs r') × (r'.closed ≡ false ⊎ (n ≤ r'.count))
running-not_stuck cap n r room pos reach waits =
    let b = Reach-Balanced cap n pos reach in
    elim (zero_or_suc r.moving) [
      | inr (m, e) ↦ (sent m r, send r m e waits, last_or_more r.total (r.count + 1) n b.total_is)
      | inl idle ↦ elim (Bool-cases r.owed) [
        | inl owes ↦ elim (zero_or_suc r.tokens) [
          | inl none_yet ↦
              (produced r, produce r owes waits (omega (arith, none_yet, room)), inl waits)
          | inr (k, e) ↦ elim (zero_or_suc r.leaving) [
            | inr (l, f) ↦ (consumed l k r, consume r l k f e, inl waits)
            | inl gone ↦ absurd (ground (arith, b.exactly waits, idle, gone, e))
          ]
        ]
        | inr free ↦ elim (zero_or_suc r.to_start) [
          | inr (k, e) ↦ (started k r, start r k free e, inl waits)
          | inl all ↦ absurd (omega (arith, b.all_there, b.open_until waits, idle, all))
        ]
      ]
    ]

-- What is left to do.
abbrev pub work : Process → ℕ
work (runs r) = 6 * r.to_start + bit r.owed + 4 * r.moving + 2 * r.leaving + bit (not r.closed) + 1
work crashed = 0

Step-ends : (cap : ℕ) {p q : Process} → Step cap p q → work q < work p
Step-ends cap (start r k e f) = ground (arith, e, f)
Step-ends cap (produce r e f l) = ground (arith, e, f)
Step-ends cap (produce_closed r e f) = omega arith
Step-ends cap (send r m e f) = ground (arith, e, f)
Step-ends cap (send_closed r m e f) = omega arith
Step-ends cap (consume r l k e f) = ground (arith, e, f)
Step-ends cap (consume_closed r l e f g) = ground (arith, e, f, g)
Step-ends cap (time_out r e) = ground (arith, e)

abbrev pub steps_of : (cap n : ℕ) {p : Process} → Reach cap n p → ℕ
steps_of cap n here = 0
steps_of cap n (after before step) = suc (steps_of cap n before)

-- A migration of `n` objects is through after `6 * n + 2` steps at most, whatever the order of the
-- steps: a run has no more steps than that, and each step takes some of the work that is left.
pub running-ends :
    (cap n : ℕ) {p : Process} (run : Reach cap n p) → steps_of cap n run + work p ≤ 6 * n + 2
unfolding begin
running-ends cap n here = omega arith
running-ends cap n (after before step) =
    omega (arith, running-ends cap n before, Step-ends cap step)
