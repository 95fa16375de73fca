-- ===== src/Prelude/Ints.antt =====
-- Signed integers over the native numbers, under the library's names.
use Prim.Native.Nat.{ℕ, ◌-◌, ◌%◌, ◌^◌}
use mathlib.Core.Bool.{Bool, true, false}
use lpr_refactored.Prelude.Bools.{ltb, if◌then◌else◌}

-- `negsuc n` is -(n + 1).
pub data ℤ : Type 0 where
  pos : ℕ → ℤ
  negsuc : ℕ → ℤ

abbrev pub pos_part : ℤ → ℕ
pos_part (pos n) = n
pos_part (negsuc n) = 0

abbrev pub is_nonneg : ℤ → Bool
is_nonneg (pos n) = true
is_nonneg (negsuc n) = false

-- The conversion of a wider integer to a 32-bit int.
abbrev pub wrap_word : ℤ → ℕ
wrap_word (pos n) = n % 2 ^ 32
wrap_word (negsuc n) = 2 ^ 32 - 1 - n % 2 ^ 32

abbrev pub to_int : ℤ → ℤ
to_int z = let w = wrap_word z in if ltb w (2 ^ 31) then pos w else negsuc (2 ^ 32 - 1 - w)
