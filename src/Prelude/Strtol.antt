-- ===== src/Prelude/Strtol.antt =====
-- strtol of the C library, in base ten and the C locale.
use Prim.Native.Nat.{ℕ, zero, suc, ◌+◌, ◌-◌, ◌*◌, ◌^◌}
use mathlib.Core.Bool.{Bool, ◌&&◌, ◌||◌}
use mathlib.Core.List.{[], ◌∷◌}
use deviceatlas_cloud_c.Prelude.Tests.{◌==◌, leb, if◌then◌else◌}
use deviceatlas_cloud_c.Prelude.Texts.{Bytes}
use deviceatlas_cloud_c.Prelude.Ints.{ℤ, pos, negsuc}

is_space : ℕ → Bool
is_space c = c == 32 || (leb 9 c && leb c 13)

is_digit : ℕ → Bool
is_digit c = leb 48 c && leb c 57

skip_spaces : Bytes → Bytes
unfolding is_space
skip_spaces [] = []
skip_spaces (c ∷ cs) = if is_space c then skip_spaces cs else c ∷ cs

leading_number : ℕ → Bytes → ℕ
unfolding is_digit
leading_number n [] = n
leading_number n (c ∷ cs) = if is_digit c then leading_number (n * 10 + (c - 48)) cs else n

in_long : ℕ → ℤ
in_long n = if leb (2 ^ 63) n then pos (2 ^ 63 - 1) else pos n

minus_in_long : ℕ → ℤ
minus_in_long zero = pos 0
minus_in_long (suc n) = if leb (2 ^ 63) n then negsuc (2 ^ 63 - 1) else negsuc n

signed_number : Bytes → ℤ
unfolding leading_number in_long minus_in_long
signed_number [] = pos 0
signed_number (c ∷ cs) =
    if c == b'-'
    then minus_in_long (leading_number 0 cs)
    else if c == b'+'
    then in_long (leading_number 0 cs)
    else in_long (leading_number 0 (c ∷ cs))

-- strtol in base ten: the sign, the leading digits, and the ends of the range of a long beyond it.
unfoldable pub strtol : Bytes → ℤ
unfolding skip_spaces signed_number
strtol text = signed_number (skip_spaces text)
