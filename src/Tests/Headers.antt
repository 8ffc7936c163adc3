-- ===== src/Tests/Headers.antt =====
-- The theorems on headers and cache keys at concrete headers.
use deviceatlas_cloud_c.Prelude.{◌≡◌, refl, [], ◌∷◌, replicate, arith, codes, Ensures}
use deviceatlas_cloud_c.Header.{Header, cachekey_of, header_add}
use deviceatlas_cloud_c.Header.CacheKey.{cachekey_of-collision}
use deviceatlas_cloud_c.Header.Adding.{Adds, header_add-Adds}
use deviceatlas_cloud_c.Header.Invariant.{IsValid, header_add_each, header_add_each-IsValid}
use deviceatlas_cloud_c.Tests.Samples.{bump, bump_lawful, fresh_heap, no_headers, sum_bytes}

abbrev agent : Header
agent = record {
  orig_key = codes "User-Agent";
  key = codes "X-DA-User-Agent";
  value = codes "Lynx";
}

abbrev language : Header
language = record {
  orig_key = codes "Accept-Language";
  key = codes "X-DA-Accept-Language";
  value = codes "de";
}

-- The two headers above in one.
abbrev joined : Header
joined = record {
  orig_key = codes "User-Agent";
  key = codes "X-DA-User-Agent";
  value = codes "LynxX-DA-Accept-Languagede";
}

abbrev oversized : Header
oversized = record {
  orig_key = codes "Client-Properties";
  key = codes "X-DA-Client-Properties";
  value = replicate 1024 48;
}

cachekey_of-collision_example :
    cachekey_of sum_bytes (agent ∷ language ∷ []) ≡ cachekey_of sum_bytes (joined ∷ [])
cachekey_of-collision_example =
    cachekey_of-collision sum_bytes agent language joined [] (omega arith) refl refl

header_add-Adds_example :
    Adds bump sum_bytes fresh_heap no_headers
      (codes "User-Agent")
      (codes "Lynx")
      (header_add bump sum_bytes fresh_heap no_headers (codes "User-Agent") (codes "Lynx"))
header_add-Adds_example =
    header_add-Adds bump bump_lawful sum_bytes fresh_heap no_headers (codes "User-Agent")
      (codes "Lynx") (record { nonempty = omega arith; bounded = omega arith }) (omega arith)
      (omega arith)

header_add_each-IsValid_example :
    Ensures
      (λ r. IsValid sum_bytes r.0)
      (header_add_each bump sum_bytes fresh_heap no_headers
        ((codes "User-Agent", codes "Lynx") ∷ (codes "User-Agent", codes "") ∷ []))
header_add_each-IsValid_example =
    header_add_each-IsValid bump bump_lawful sum_bytes fresh_heap no_headers
      ((codes "User-Agent", codes "Lynx") ∷ (codes "User-Agent", codes "") ∷ [])
      (record {
        distinct = tt;
        prefixed = tt;
        keyed = refl;
        usable = record { nonempty = omega arith; bounded = omega arith };
      })
      ((omega arith, omega arith), ((omega arith, omega arith), tt))
