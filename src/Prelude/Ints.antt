-- ===== src/Prelude/Ints.antt =====
-- Signed integers over the native numbers, and printf of an int.
use Prim.Native.Nat.{ℕ, ◌+◌, ◌-◌, ◌%◌, ◌^◌}
use mathlib.Core.Bool.{Bool, false}
use mathlib.Core.List.{◌∷◌}
use deviceatlas_cloud_c.Prelude.Tests.{ltb, if◌then◌else◌}
use deviceatlas_cloud_c.Prelude.Texts.{Bytes, print_ulong}

-- `negsuc n` is -(n + 1).
pub data ℤ : Type 0 where
  pos : ℕ → ℤ
  negsuc : ℕ → ℤ

-- The bit pattern of a long.
unfoldable pub word64 : ℤ → ℕ
word64 (pos n) = n % 2 ^ 64
word64 (negsuc n) = 2 ^ 64 - 1 - n % 2 ^ 64

-- The int whose bit pattern is the lower half of a word.
unfoldable pub signed32 : ℕ → ℤ
signed32 w = let low = w % 2 ^ 32 in if ltb low (2 ^ 31) then pos low else negsuc (2 ^ 32 - 1 - low)

-- (int)l for a long
unfoldable pub to_int : ℤ → ℤ
unfolding word64 signed32
to_int l = signed32 (word64 l)

-- l > 0
unfoldable pub is_positive : ℤ → Bool
is_positive (pos n) = ltb 0 n
is_positive (negsuc n) = false

-- printf("%d", i)
unfoldable pub print_int : ℤ → Bytes
print_int (pos n) = print_ulong n
print_int (negsuc n) = b'-' ∷ print_ulong (n + 1)
