-- ===== src/Common/Int.antt =====
-- Signed integers over the native numbers, for a Go int64 that can be negative.
use Prim.Native.Nat.{ℕ, ◌-◌, ◌%◌, ◌^◌}
use mathlib.Core.Bool.{Bool, true, false}
use multi_cloud.Common.Tests.{ltb, if◌then◌else◌}

-- `negsuc n` is -(n + 1).
pub data ℤ : Type 0 where
  pos : ℕ → ℤ
  negsuc : ℕ → ℤ

-- A request to list: a negative limit or offset is refused.
unfoldable pub page_error : ℤ → ℤ → Bool
page_error (pos limit) (pos offset) = false
page_error (negsuc limit) offset = true
page_error (pos limit) (negsuc offset) = true

-- `int(in.Limit)`, for one that is not negative.
unfoldable pub to_int : ℤ → ℕ
to_int (pos n) = n
to_int (negsuc n) = 0

-- The int32 of a remainder modulo `2 ^ 32`.
unfoldable pub signed32 : ℕ → ℤ
signed32 m = if ltb m (2 ^ 31) then pos m else negsuc (2 ^ 32 - 1 - m)

-- `int32(v)`.
unfoldable pub int32 : ℤ → ℤ
unfolding signed32
int32 (pos n) = signed32 (n % 2 ^ 32)
int32 (negsuc n) = signed32 (2 ^ 32 - 1 - n % 2 ^ 32)

-- `a > b`.
unfoldable pub gt : ℤ → ℤ → Bool
gt (pos a) (pos b) = ltb b a
gt (pos a) (negsuc b) = true
gt (negsuc a) (pos b) = false
gt (negsuc a) (negsuc b) = ltb a b

-- An int32 addition.
unfoldable pub wrap32 : ℕ → ℤ
unfolding signed32
wrap32 n = signed32 (n % 2 ^ 32)
