-- ===== src/Common/Outcomes.antt =====
-- What a Go function does that may panic, or that may not return: `out_of_fuel` is a call that has
-- used up the number of nested calls it was given.
use mathlib.Core.Path.{◌≡◌, refl, ap}

pub data Outcome {ℓ} (A : Type ℓ) : Type ℓ where
  ok : A → Outcome A
  panic : Outcome A
  out_of_fuel : Outcome A

infixl 5 ◌>>=◌
abbrev pub ◌>>=◌ {ℓ κ} : {X : Type ℓ} {Y : Type κ} → Outcome X → (X → Outcome Y) → Outcome Y
panic >>= rest = panic
out_of_fuel >>= rest = out_of_fuel
ok x >>= rest = rest x

-- A block returns only if its first call does.
pub bind-eq-ok {ℓ κ} :
    {X : Type ℓ} {Y : Type κ} (call : Outcome X) (rest : X → Outcome Y) {y : Y}
    → (call >>= rest) ≡ ok y
    → (x : X) × (call ≡ ok x) × (rest x ≡ ok y)
bind-eq-ok panic rest returned = cc
bind-eq-ok out_of_fuel rest returned = cc
bind-eq-ok (ok x) rest returned = (x, refl, returned)

abbrev from_ok {ℓ} : {A : Type ℓ} → A → Outcome A → A
from_ok a (ok b) = b
from_ok a panic = a
from_ok a out_of_fuel = a

pub ok-injective {ℓ} : {A : Type ℓ} {a b : A} → ok a ≡ ok b → a ≡ b
ok-injective {a} h = ap (from_ok a) h
