-- ===== src/Datamover/Parts/Sizes.antt =====
-- datamover/pkg/drivers/https/migration.go, `multipartMoveObj`: the number of parts, and where each
-- part starts and ends.
use native.Mathlib.Nat.{mod-lt, div-add-mod, mul-le-mul_left}
use multi_cloud.Common.{
  ℕ, suc, ◌+◌, ◌-◌, ◌*◌, ◌/◌, ◌%◌, ◌≤◌, ◌<◌, ◌≡◌, ◌==◌, arith, if◌then◌else◌, leb, Bool-cases, inl,
  inr, Bool, true, false, ap, refl, zero,
}
use multi_cloud.Datamover.Parts.{part_count}

covers_tested :
    (ps size : ℕ) (b : Bool)
    → 0 < ps
    → (b ≡ true → size % ps ≡ 0)
    → size ≤ (if b then size / ps else size / ps + 1) * ps
covers_tested ps size true pos even = omega (arith, div-add-mod size ps, even refl)
covers_tested ps size false pos even = omega (arith, div-add-mod size ps, mod-lt size pos)

-- The parts cover the object.
pub part_count-covers : (ps size : ℕ) → 0 < ps → size ≤ part_count ps size * ps
unfolding part_count
part_count-covers ps size pos = covers_tested ps size (size % ps == 0) pos (λ e. ground arith)

has_factor : (n k size : ℕ) → 0 < size → size ≤ n * k → 0 < n
has_factor zero k size pos h = omega (arith, pos, h)
has_factor (suc n) k size pos h = omega arith

pub part_count-positive : (ps size : ℕ) → 0 < ps → 0 < size → 0 < part_count ps size
part_count-positive ps size pos filled =
    has_factor (part_count ps size) ps size filled (part_count-covers ps size pos)

whole_part : (ps size i : ℕ) → 0 < ps → i < size / ps → i * ps < size
whole_part ps size i pos h = omega (arith, div-add-mod size ps, mul-le-mul_left {m = suc i} ps h)

last_part : (ps size i : ℕ) → 0 < size % ps → i ≤ size / ps → i * ps < size
last_part ps size i pos h = omega (arith, div-add-mod size ps, mul-le-mul_left {m = i} ps h)

-- A part starts inside the object.
pub part_count-inside : (ps size i : ℕ) → 0 < ps → i < part_count ps size → i * ps < size
unfolding part_count
part_count-inside ps size i pos h = ground (arith, whole_part ps size i, last_part ps size i)

-- Where part `i` starts; past the last part, the end.
abbrev pub reached : ℕ → ℕ → ℕ → ℕ
reached ps size i = if leb size (i * ps) then size else i * ps

-- The number of bytes of part `i`.
abbrev pub part_len : ℕ → ℕ → ℕ → ℕ
part_len ps size i = if i + 1 == part_count ps size then size - i * ps else ps

pub reached-inside : (ps size i : ℕ) → 0 < ps → i < part_count ps size → reached ps size i ≡ i * ps
reached-inside ps size i pos h = ground (arith, part_count-inside ps size i pos h)

-- A part ends where the next one starts.
pub reached-next :
    (ps size i : ℕ)
    → 0 < ps
    → i < part_count ps size
    → i * ps + part_len ps size i ≡ reached ps size (i + 1)
reached-next ps size i pos h = elim (Bool-cases (i + 1 == part_count ps size)) [
  | inl last ↦ ground (
    arith,
    part_count-inside ps size i pos h,
    part_count-covers ps size pos,
    last_covers ps size i pos,
  )
  | inr more ↦ ground (arith, part_count-inside ps size (i + 1) pos)
]
  where
    last_covers : (ps size i : ℕ) → 0 < ps → i + 1 ≡ part_count ps size → size ≤ (i + 1) * ps
    last_covers ps size i pos e = omega (arith, ap (λ n. n * ps) e, part_count-covers ps size pos)

pub part_len-positive : (ps size i : ℕ) → 0 < ps → i < part_count ps size → 0 < part_len ps size i
part_len-positive ps size i pos h = ground (arith, part_count-inside ps size i pos h)

pub reached-end : (ps size : ℕ) → 0 < ps → reached ps size (part_count ps size) ≡ size
reached-end ps size pos = ground (arith, part_count-covers ps size pos)
