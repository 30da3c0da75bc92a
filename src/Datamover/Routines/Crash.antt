-- ===== src/Datamover/Routines/Crash.antt =====
-- datamover/pkg/drivers/https/migration.go: when the process of the data mover panics.
use mathlib.Core.Path.{subst}
use multi_cloud.Common.{ℕ, zero, suc, ◌+◌, ◌<◌, ◌≡◌, refl, arith, true, false, le→leb}
use multi_cloud.Datamover.Routines.{
  Routines, runs, crashed, begin, started, produced, sent, consumed, start, produce, produce_closed,
  send, consume, Reach, here, after,
}

-- `k` objects are through, and the others have not been started.
abbrev through : ℕ → ℕ → Routines
through k n = record {
  to_start = n;
  owed = false;
  tokens = 0;
  moving = 0;
  leaving = 0;
  count = k;
  total = k + n;
  closed = false;
}

-- One object: started, its token put, its number sent, the token taken.
one_through :
    (cap k n : ℕ) {total : ℕ}
    → 0 < cap
    → Reach cap total (runs (through k (suc (suc n))))
    → Reach cap total (runs (through (suc k) (suc n)))
one_through cap k n {total} room reach =
    subst (λ r. Reach cap total (runs r)) same
      (after
        (after (after (after reach (start r₀ (suc n) refl refl)) (produce r₁ refl refl room))
          (send r₂ 0 refl refl))
        (consume r₃ 0 0 refl refl))
  where
    r₀ : Routines
    r₀ = through k (suc (suc n))

    r₁ : Routines
    r₁ = started (suc n) r₀

    r₂ : Routines
    r₂ = produced r₁

    r₃ : Routines
    r₃ = sent 0 r₂

    same : consumed 0 0 r₃ ≡ through (suc k) (suc n)
    same = ground arith

all_but_one :
    (cap k n : ℕ) {total : ℕ}
    → 0 < cap
    → Reach cap total (runs (through k (suc n)))
    → Reach cap total (runs (through (k + n) 1))
all_but_one cap k zero {total} room reach =
    subst (λ r. Reach cap total (runs r)) (ground arith) reach
all_but_one cap k (suc n) {total} room reach =
    subst (λ r. Reach cap total (runs r)) (ground arith)
      (all_but_one cap (suc k) n room (one_through cap k n room reach))

-- Whatever the number of objects, the process can panic with no timeout and no error: if the last
-- object is moved before `doMove` puts its token, the loop has closed `th` and the send panics.
pub last_token-crashes : (cap n : ℕ) → 0 < cap → 0 < n → Reach cap n crashed
unfolding begin
last_token-crashes cap zero room pos = absurd (omega (arith, pos))
last_token-crashes cap (suc n) room pos =
    after
      (after (after (all_but_one cap 0 n room start_of) (start r₀ 0 refl refl))
        (send r₁ 0 refl refl))
      (produce_closed r₂ refl full)
  where
    r₀ : Routines
    r₀ = through (0 + n) 1

    r₁ : Routines
    r₁ = started 0 r₀

    r₂ : Routines
    r₂ = sent 0 r₁

    full : r₂.closed ≡ true
    full = le→leb (0 + n + 1) (0 + n + 1) (omega arith)

    start_of : Reach cap (suc n) (runs (through 0 (suc n)))
    start_of = subst (λ r. Reach cap (suc n) (runs r)) (ground arith) here
