-- ===== src/Prelude/Texts.antt =====
-- C strings as lists of bytes, without their terminator, and the library functions that the
-- program calls on them: strcmp, strcasecmp, and printf of an unsigned long.
use Prim.Native.Nat.{ℕ, zero, suc, ◌+◌, ◌-◌, ◌*◌, ◌/◌, ◌%◌, ◌^◌, ◌≤◌, ◌<◌}
use Prim.Native.Char.{code}
use Prim.Native.String.{String}
use mathlib.Core.Path.{◌≡◌, refl, sym, ap, ◌∙◌}
use mathlib.Core.Logic.{inl, inr}
use mathlib.Core.Bool.{Bool, true, false, ◌&&◌}
use mathlib.Core.List.{List, [], ◌∷◌, map}
use native.Mathlib.Nat.{pow-suc}
use native.Mathlib.Omega.{arith}
use deviceatlas_cloud_c.Prelude.Tests.{◌==◌, leb, ltb, Bool-cases, if◌then◌else◌}
use deviceatlas_cloud_c.Prelude.Lists.{length}

abbrev pub Bytes : Type 0
Bytes = List ℕ

-- The bytes of an ASCII literal.
abbrev pub codes : String → Bytes
codes String.[] = []
codes (String.◌∷◌ c s) = code c ∷ codes s

-- The text up to the first zero byte.
unfoldable pub c_text : Bytes → Bytes
c_text [] = []
c_text (c ∷ cs) = if c == 0 then [] else c ∷ c_text cs

-- strcmp(a, b) == 0
unfoldable pub same_text : Bytes → Bytes → Bool
same_text [] [] = true
same_text [] (b ∷ bs) = false
same_text (a ∷ as') [] = false
same_text (a ∷ as') (b ∷ bs) = a == b && same_text as' bs

pub same_text_refl : (a : Bytes) → same_text a a ≡ true
unfolding same_text
same_text_refl [] = refl
same_text_refl (x ∷ xs) = ground (arith, same_text_refl xs)

pub same_text→eq : (a b : Bytes) → same_text a b ≡ true → a ≡ b
unfolding same_text
same_text→eq [] [] h = refl
same_text→eq [] (b ∷ bs) h = absurd (cc)
same_text→eq (a ∷ as') [] h = absurd (cc)
same_text→eq (a ∷ as') (b ∷ bs) h = ground (arith, same_text→eq as' bs)

-- tolower in the C locale
unfoldable pub to_lower : ℕ → ℕ
to_lower c = if leb 65 c && leb c 90 then c + 32 else c

-- strcasecmp(a, b) == 0
unfoldable pub same_text_nocase : Bytes → Bytes → Bool
unfolding to_lower same_text
same_text_nocase a b = same_text (map to_lower a) (map to_lower b)

-- The decimal digits of a number below 10 ^ fuel, in front of those already written.
unfoldable pub digits_onto : ℕ → ℕ → Bytes → Bytes
digits_onto zero n acc = acc
digits_onto (suc fuel) n acc =
    let rest = digits_onto fuel (n / 10) ((48 + n % 10) ∷ acc) in
    if ltb n 10 then (48 + n) ∷ acc else rest

-- printf("%lu", n): a number below 2 ^ 64 has at most twenty digits.
unfoldable pub print_ulong : ℕ → Bytes
unfolding digits_onto
print_ulong n = digits_onto 20 n []

-- The number that digits stand for, behind those already read.
unfoldable pub read_onto : ℕ → Bytes → ℕ
read_onto acc [] = acc
read_onto acc (c ∷ cs) = read_onto (acc * 10 + (c - 48)) cs

read-digits_onto :
    (fuel n : ℕ) (acc : Bytes)
    → n < 10 ^ fuel
    → read_onto 0 (digits_onto fuel n acc) ≡ read_onto n acc
unfolding digits_onto read_onto
read-digits_onto zero n acc h = let z : n ≡ 0 = omega arith in ap (λ k. read_onto k acc) (sym z)
read-digits_onto (suc fuel) n acc h = elim (Bool-cases (ltb n 10)) [
  | inl few ↦ rw few (ap (λ k. read_onto k acc) (omega arith))
  | inr many ↦
      let below : n / 10 < 10 ^ fuel = omega (arith, pow-suc 10 fuel) in
      rw many (
        read-digits_onto fuel (n / 10) ((48 + n % 10) ∷ acc) below
        ∙ ap (λ k. read_onto k acc) (omega arith))
]

-- Reading back what was printed.
pub read-print_ulong : (n : ℕ) → n < 2 ^ 64 → read_onto 0 (print_ulong n) ≡ n
unfolding print_ulong read_onto
read-print_ulong n h = read-digits_onto 20 n [] (omega arith)

length-digits_onto :
    (fuel n : ℕ) (acc : Bytes) → length (digits_onto fuel n acc) ≤ fuel + length acc
unfolding digits_onto
length-digits_onto zero n acc = omega arith
length-digits_onto (suc fuel) n acc =
    ground (arith, length-digits_onto fuel (n / 10) ((48 + n % 10) ∷ acc))

pub length-print_ulong : (n : ℕ) → length (print_ulong n) ≤ 20
unfolding print_ulong
length-print_ulong n = length-digits_onto 20 n []
