-- ===== src/Header/CacheKey.antt =====
-- The cache key of a list of headers (dacloud_header_property.c): what it depends on.
use deviceatlas_cloud_c.Prelude.{
  ℕ, ◌+◌, ◌≤◌, ◌<◌, ◌^◌, ◌≡◌, sym, ap, ◌∙◌, List, [], ◌∷◌, ◌++◌, length, length-append, arith,
  Bytes, take, lt→ltb, take_all, print_ulong, length-print_ulong, read_onto, read-print_ulong,
}
use mathlib.Core.List.{foldl, append-nil, append_assoc}
use deviceatlas_cloud_c.Header.{
  Header, append_header, fill_cachekeybuf, padded, hash_of, cachekey_of, sizeof_cachekeybuf,
}

append_header_bound :
    (buf : Bytes) (h : Header)
    → length buf < sizeof_cachekeybuf
    → length (append_header buf h) < sizeof_cachekeybuf
unfolding append_header
append_header_bound buf h b = ground (
  arith,
  length-append buf h.key,
  length-append h.key h.value,
  length-append (buf ++ h.key) h.value,
)

fill_from_bound :
    (buf : Bytes) (hs : List Header)
    → length buf < sizeof_cachekeybuf
    → length (foldl append_header buf hs) < sizeof_cachekeybuf
fill_from_bound buf [] b = b
fill_from_bound buf (h ∷ hs) b =
    fill_from_bound (append_header buf h) hs (append_header_bound buf h b)

-- Whatever the headers, the text and its terminator stay inside the array of 1024 bytes.
pub fill_cachekeybuf_bound : (hs : List Header) → length (fill_cachekeybuf hs) < sizeof_cachekeybuf
unfolding fill_cachekeybuf
fill_cachekeybuf_bound hs = fill_from_bound [] hs (omega arith)

-- A header that alone fills the array leaves no trace in the text.
pub append_header_oversize :
    (buf : Bytes) (h : Header)
    → sizeof_cachekeybuf ≤ length h.key + length h.value
    → append_header buf h ≡ buf
unfolding append_header
append_header_oversize buf h big = ground arith

append_header_fits :
    (buf : Bytes) (h : Header)
    → length buf + (length h.key + length h.value) < sizeof_cachekeybuf
    → append_header buf h ≡ buf ++ (h.key ++ h.value)
unfolding append_header
append_header_fits [] h fits =
    rw (lt→ltb (length h.key + length h.value) sizeof_cachekeybuf (omega arith))
append_header_fits (c ∷ buf) h fits = ground (arith, append_assoc (c ∷ buf) h.key h.value)

-- All names and values, one after the other.
unfoldable pub texts : List Header → Bytes
texts [] = []
texts (h ∷ hs) = (h.key ++ h.value) ++ texts hs

fill_from-texts :
    (buf : Bytes) (hs : List Header)
    → length buf + length (texts hs) < sizeof_cachekeybuf
    → foldl append_header buf hs ≡ buf ++ texts hs
unfolding texts
fill_from-texts buf [] fits = sym (append-nil buf)
fill_from-texts buf (h ∷ hs) fits =
    let parts = length-append (h.key ++ h.value) (texts hs) in
    let pair = length-append h.key h.value in
    let whole = length-append buf (h.key ++ h.value) in
    rw (append_header_fits buf h (omega arith)) (
      fill_from-texts (buf ++ (h.key ++ h.value)) hs (omega arith)
      ∙ append_assoc buf (h.key ++ h.value) (texts hs))

-- Headers whose names and values fit into the array together are all in the text, one after another
-- from the head of the list on.
pub fill_cachekeybuf-texts :
    (hs : List Header) → length (texts hs) < sizeof_cachekeybuf → fill_cachekeybuf hs ≡ texts hs
unfolding fill_cachekeybuf
fill_cachekeybuf-texts hs fits = fill_from-texts [] hs (omega arith)

module _ (xxh64 : Bytes → ℕ → ℕ) where
  -- A new header whose name and value have 1024 bytes or more leaves the cache key of the list as
  -- it was.
  pub cachekey_of-oversize :
      (h : Header) (hs : List Header)
      → sizeof_cachekeybuf ≤ length h.key + length h.value
      → cachekey_of xxh64 (h ∷ hs) ≡ cachekey_of xxh64 hs
  unfolding cachekey_of
  cachekey_of-oversize h hs big = rw (append_header_oversize [] h big)

  -- Two headers at the head of a list that fit into the array, and one that has the name of the
  -- first and whose value goes on with the name and the value of the second, give the same cache
  -- key.
  pub cachekey_of-collision :
      (a b c : Header) (hs : List Header)
      → length a.key + length a.value + (length b.key + length b.value) < sizeof_cachekeybuf
      → c.key ≡ a.key
      → c.value ≡ a.value ++ (b.key ++ b.value)
      → cachekey_of xxh64 (a ∷ b ∷ hs) ≡ cachekey_of xxh64 (c ∷ hs)
  unfolding cachekey_of
  cachekey_of-collision a b c hs fits same_key joined = ap from two_as_one
    where
      from : Bytes → Bytes
      from buf = take 64 (print_ulong (xxh64 (padded (foldl append_header buf hs)) 0))

      two_as_one : append_header (append_header [] a) b ≡ append_header [] c
      two_as_one =
          let la = length-append a.key a.value in
          let lb = length-append b.key b.value in
          let lc = length-append a.value (b.key ++ b.value) in
          let lk = ap length same_key in
          let lv = ap length joined in
          rw
            (
              append_header_fits [] a (omega arith),
              append_header_fits (a.key ++ a.value) b (omega arith),
              append_header_fits [] c (omega arith),
              same_key,
              joined,
            )
            (append_assoc a.key a.value (b.key ++ b.value))

  -- For a hash of 64 bits, lists of headers with the same cache key have the same hash: printing
  -- loses nothing.
  pub hash_of-cachekey :
      (xs ys : List Header)
      → ((buf : Bytes) (seed : ℕ) → xxh64 buf seed < 2 ^ 64)
      → cachekey_of xxh64 xs ≡ cachekey_of xxh64 ys
      → hash_of xxh64 xs ≡ hash_of xxh64 ys
  unfolding cachekey_of
  hash_of-cachekey xs ys range same = sym (reads xs) ∙ ap (read_onto 0) same ∙ reads ys
    where
      reads :
          (hs : List Header)
          → read_onto 0 (take 64 (print_ulong (hash_of xxh64 hs))) ≡ hash_of xxh64 hs
      reads hs =
          ap (read_onto 0) (take_all 64 _ (omega (arith, length-print_ulong (hash_of xxh64 hs))))
          ∙ read-print_ulong (hash_of xxh64 hs) (range _ 0)
