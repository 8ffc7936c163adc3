-- ===== src/Tests/Keys.antt =====
-- The theorem on da_cloud_crypt_key with a digest of zeros.
use deviceatlas_cloud_c.Prelude.{
  ◌<◌, ◌≤◌, ◌≡◌, refl, ◌⊎◌, arith, Bytes, codes, replicate, crashes, Returns, ◌/◌, ◌%◌,
}
use deviceatlas_cloud_c.Cache.CryptKey.{crypt_key, Hex, crypt_key-Hex, IsDigest}

abbrev zeros : Bytes → Bytes
zeros text = replicate 32 0

zeros-IsDigest : (text : Bytes) → IsDigest (zeros text)
zeros-IsDigest text = record { size = refl; bytes = ground arith }

crypt_key-Hex_example :
    ((9 < 66)
      × (9 % 2 ≡ 1)
      × Returns (Hex (9 / 2) (zeros (codes "ab"))) (crypt_key zeros (codes "abc") 2 9))
    ⊎ ((66 ≤ 9 ⊎ (9 % 2 ≡ 0)) × (crypt_key zeros (codes "abc") 2 9 ≡ crashes))
crypt_key-Hex_example = crypt_key-Hex zeros (codes "abc") 2 9 zeros-IsDigest
