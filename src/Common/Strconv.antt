-- ===== src/Common/Strconv.antt =====
-- The numbers that `strconv` reads from a text.
use Prim.Native.Nat.{ℕ, zero, suc, ◌+◌, ◌-◌, ◌*◌, ◌^◌}
use mathlib.Core.Bool.{◌&&◌}
use mathlib.Core.List.{[], ◌∷◌}
use mathlib.Core.Option.{Option, none, some}
use multi_cloud.Common.Tests.{ltb, leb, ◌==◌, if◌then◌else◌}
use multi_cloud.Common.Texts.{Text}
use multi_cloud.Common.Int.{ℤ, pos, negsuc}

-- The digits of a text, read on from `n`.
unfoldable pub digits_from : ℕ → Text → Option ℕ
digits_from n [] = some n
digits_from n (c ∷ s) =
    let rest = digits_from (n * 10 + (c - b'0')) s in
    if leb b'0' c && leb c b'9' then rest else none

-- The digits of a number, at least one.
unfoldable pub unsigned : Text → Option ℕ
unfolding digits_from
unsigned [] = none
unsigned (c ∷ s) = digits_from 0 (c ∷ s)

-- `-n`.
unfoldable pub negated : ℕ → ℤ
negated zero = pos zero
negated (suc n) = negsuc n

-- An int64 is in range.
unfoldable pub positive : Option ℕ → Option ℤ
positive none = none
positive (some n) = if ltb n (2 ^ 63) then some (pos n) else none

unfoldable pub negative : Option ℕ → Option ℤ
unfolding negated
negative none = none
negative (some n) = if leb n (2 ^ 63) then some (negated n) else none

-- `strconv.Atoi`, and `strconv.ParseInt` to the base 10 with 64 bits, `none` for their errors.
unfoldable pub atoi : Text → Option ℤ
unfolding unsigned positive negative
atoi [] = none
atoi (c ∷ s) =
    if c == b'-'
    then negative (unsigned s)
    else if c == b'+'
    then positive (unsigned s)
    else positive (unsigned (c ∷ s))
