-- ===== src/Cache/CryptKey.antt =====
-- `da_cloud_crypt_key` of dacloud_cache.c: a key in hexadecimal digits.
use deviceatlas_cloud_c.Prelude.{
  ℕ, zero, suc, ◌+◌, ◌-◌, ◌*◌, ◌/◌, ◌%◌, ◌≤◌, ◌<◌, ◌≡◌, ◌⊎◌, inl, inr, Bool-cases, ◌^◌, refl, ap,
  [], ◌∷◌, if◌then◌else◌, ltb, leb, take, length, All, arith, Bytes, Outcome, returns, crashes,
  ◌>>=◌, Returns, Returns-cases,
}

-- The array `a`, "0123456789abcdef", at an index below 16.
unfoldable pub hex_digit : ℕ → ℕ
hex_digit n = if ltb n 10 then 48 + n else 87 + n

-- The loop, with the bytes of the digest from `p` on; behind its end a byte is read that is not there.
unfoldable pub hex_each : ℕ → Bytes → Outcome Bytes
unfolding hex_digit
hex_each zero digest = returns []
hex_each (suc resultlen) [] = crashes
hex_each (suc resultlen) (b ∷ p) = do
  rest ← hex_each resultlen p
  returns (hex_digit (b / 16) ∷ hex_digit (b % 16) ∷ rest)

-- `*result = 0` behind the digits, in an array of `resultlen` bytes.
unfoldable pub terminate : ℕ → Bytes → Outcome Bytes
terminate resultlen text = if ltb (length text) resultlen then returns text else crashes

-- The text written to `result`, an array of `resultlen` bytes. `sha256` is the one of OpenSSL.
unfoldable pub crypt_key : (Bytes → Bytes) → Bytes → ℕ → ℕ → Outcome Bytes
unfolding hex_each terminate
crypt_key sha256 source sourcelen resultlen = do
  text ← hex_each (resultlen / 2) (sha256 (take sourcelen source))
  terminate resultlen text

-- The number that a digit stands for.
abbrev digit_value : ℕ → ℕ
digit_value c = if leb c 57 then c - 48 else c - 87

-- The bytes that pairs of digits stand for.
abbrev pub unhex : Bytes → Bytes
unhex [] = []
unhex (c ∷ []) = []
unhex (c ∷ d ∷ cs) = (digit_value c * 16 + digit_value d) ∷ unhex cs

-- One of 0 to 9 and a to f.
abbrev pub IsHexDigit : ℕ → Type 0
IsHexDigit c = ((48 ≤ c) × (c ≤ 57)) ⊎ ((97 ≤ c) × (c ≤ 102))

digit_value-hex_digit : (n : ℕ) → n < 16 → digit_value (hex_digit n) ≡ n
unfolding hex_digit
digit_value-hex_digit n h = ground arith

hex_digit-IsHexDigit : (n : ℕ) → n < 16 → IsHexDigit (hex_digit n)
unfolding hex_digit
hex_digit-IsHexDigit n h = ground arith

-- The text of the first `n` bytes.
pub record Hex (n : ℕ) (digest text : Bytes) : Type 0 where
  pub digits : length text ≡ n * 2
  pub lower : All IsHexDigit text
  pub decodes : unhex text ≡ take n digest

abbrev pub AreBytes : Bytes → Type 0
AreBytes = All (λ b. b < 2 ^ 8)

Hex-cons :
    (n b : ℕ) (p rest : Bytes)
    → b < 2 ^ 8
    → Hex n p rest
    → Hex (suc n) (b ∷ p) (hex_digit (b / 16) ∷ hex_digit (b % 16) ∷ rest)
Hex-cons n b p rest h v =
    let high = digit_value-hex_digit (b / 16) (omega arith) in
    let low = digit_value-hex_digit (b % 16) (omega arith) in
    record {
      digits = omega (arith, v.digits);
      lower = (
        hex_digit-IsHexDigit (b / 16) (omega arith),
        (hex_digit-IsHexDigit (b % 16) (omega arith), v.lower),
      );
      decodes = rw (high, low, v.decodes) (ap (λ k. k ∷ take n p) (omega arith));
    }

hex_each-Hex :
    (n : ℕ) (digest : Bytes)
    → n ≤ length digest
    → AreBytes digest
    → Returns (Hex n digest) (hex_each n digest)
unfolding hex_each
hex_each-Hex zero digest h k = record { digits = refl; lower = tt; decodes = refl }
hex_each-Hex (suc n) [] h k = absurd (omega arith)
hex_each-Hex (suc n) (b ∷ p) h k =
    let (rest, ran, v) = Returns-cases (Hex n p) _ (hex_each-Hex n p (omega arith) k.1) in
    rw (hex_each, ran) (Hex-cons n b p rest k.0 v)

hex_each_short : (n : ℕ) (digest : Bytes) → length digest < n → hex_each n digest ≡ crashes
unfolding hex_each
hex_each_short zero digest h = absurd (omega arith)
hex_each_short (suc n) [] h = refl
hex_each_short (suc n) (b ∷ p) h = rw (hex_each, hex_each_short n p (omega arith)) refl

-- What SHA256 gives: 32 bytes.
pub record IsDigest (digest : Bytes) : Type 0 where
  pub size : length digest ≡ 32
  pub bytes : AreBytes digest

-- With a SHA256 that gives 32 bytes, for a result of an odd number of bytes below 66
-- da_cloud_crypt_key returns and writes lower-case hexadecimal digits, two for each of the first
-- half of so many bytes of the digest, which decode to those bytes; for an even number it writes
-- the terminator behind the result, and for 66 bytes or more it reads behind the digest.
pub crypt_key-Hex :
    (sha256 : Bytes → Bytes) (source : Bytes) (sourcelen resultlen : ℕ)
    → ((text : Bytes) → IsDigest (sha256 text))
    → ((resultlen < 66)
        × (resultlen % 2 ≡ 1)
        × Returns
            (Hex (resultlen / 2) (sha256 (take sourcelen source)))
            (crypt_key sha256 source sourcelen resultlen))
      ⊎ ((66 ≤ resultlen ⊎ (resultlen % 2 ≡ 0))
          × (crypt_key sha256 source sourcelen resultlen ≡ crashes))
unfolding crypt_key terminate
crypt_key-Hex sha256 source sourcelen resultlen law =
    let v = law (take sourcelen source) in
    elim (Bool-cases (ltb resultlen 66)) [
      | inl fits ↦
          let n = resultlen / 2 in
          let (text, ran, hex) =
            Returns-cases (Hex n (sha256 (take sourcelen source))) _
              (hex_each-Hex n _ (ground (arith, fits, v.size)) v.bytes) in
          elim (Bool-cases (ltb (length text) resultlen)) [
            | inl room ↦ inl (
              ground (arith, fits),
              ground (arith, room, hex.digits),
              rw (crypt_key, ran, room, terminate) hex,
            )
            | inr none_left ↦ inr (
              inr (ground (arith, none_left, hex.digits)),
              rw (crypt_key, ran, none_left, terminate) refl,
            )
          ]
      | inr long ↦ inr (
        inl (ground (arith, long)),
        rw
            (
              crypt_key,
              hex_each_short (resultlen / 2) (sha256 (take sourcelen source))
                  (ground (arith, long, v.size)),
            )
            refl,
      )
    ]
