-- ===== src/Property/Printing.antt =====
-- How dacloud_header_property.c prints a property of type long: through an int.
use deviceatlas_cloud_c.Prelude.{
  ℕ, ◌+◌, ◌-◌, ◌≤◌, ◌<◌, ◌^◌, ◌≡◌, ap, ◌∙◌, ◌∷◌, arith, ℤ, pos, negsuc, to_int, print_int,
  print_ulong,
}
use deviceatlas_cloud_c.Property.{num, long_type, print_value}

-- The numbers that an int holds.
pub data FitsInt : ℤ → Type 0 where
  pos_fits : {n : ℕ} → n < 2 ^ 31 → FitsInt (pos n)
  neg_fits : {n : ℕ} → n < 2 ^ 31 → FitsInt (negsuc n)

to_int_fits : {z : ℤ} → FitsInt z → to_int z ≡ z
unfolding to_int
to_int_fits (pos_fits h) = ground arith
to_int_fits (neg_fits h) = ground arith

-- A long that an int holds is printed as it is.
pub print_value_fits : (z : ℤ) → FitsInt z → print_value long_type (num z) ≡ print_int z
unfolding print_value
print_value_fits z f = ap print_int (to_int_fits f)

to_int_wraps : (n : ℕ) → 2 ^ 31 ≤ n → n < 2 ^ 32 → to_int (pos n) ≡ negsuc (2 ^ 32 - 1 - n)
unfolding to_int
to_int_wraps n lo hi = ground arith

-- A long from 2 ^ 31 up to below 2 ^ 32 is printed as the negative number 2 ^ 32 below it.
pub print_value_wraps :
    (n : ℕ)
    → 2 ^ 31 ≤ n
    → n < 2 ^ 32
    → print_value long_type (num (pos n)) ≡ b'-' ∷ print_ulong (2 ^ 32 - n)
unfolding print_value print_int
print_value_wraps n lo hi =
    let whole : 2 ^ 32 - 1 - n + 1 ≡ 2 ^ 32 - n = omega arith in
    ap print_int (to_int_wraps n lo hi) ∙ ap (λ k. b'-' ∷ print_ulong k) whole
