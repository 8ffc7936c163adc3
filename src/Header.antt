-- ===== src/Header.antt =====
-- dacloud_header_property.c, the request headers: `struct da_cloud_header_head`, a list of headers
-- with the key under which a response to them is cached.
-- Texts that the pool holds are read as their bytes; the pool itself is the one of `Membuf`.
pub mod CacheKey
pub mod Adding
pub mod Blocks
pub mod Invariant
use mathlib.Core.List.{foldl}
use deviceatlas_cloud_c.Prelude.{
  ℕ, ◌+◌, ◌-◌, ◌*◌, Option, none, some, List, [], ◌∷◌, ◌++◌, Bool, true, false, ◌||◌, ltb, ◌==◌,
  if◌then◌else◌, length, take, drop, replicate, Bytes, codes, same_text, print_ulong, Status, done,
  failed, Outcome, returns, crashes, ◌>>=◌,
}
use deviceatlas_cloud_c.Mem.{Allocator}
use deviceatlas_cloud_c.Membuf.{
  Pool, Grant, membuf_create, membuf_fill, membuf_copy, membuf_free, nodes,
}

-- CLOUD_HEADER_PREFIX and its sizeof, which counts the terminator.
abbrev pub header_prefix : Bytes
header_prefix = codes "X-DA-"

abbrev pub sizeof_prefix : ℕ
sizeof_prefix = 6

abbrev pub sizeof_header : ℕ
sizeof_header = 32

-- struct da_cloud_header: `orig_key` points into `key`, behind the prefix.
pub record Header : Type 0 where
  pub orig_key : Bytes
  pub key : Bytes
  pub value : Bytes

-- struct da_cloud_header_head: `root` and `dcm` are the two ends of the pool.
pub record HeaderHead : Type 0 where
  pub cachekey : Bytes
  pub hash : ℕ
  pub pool : Pool
  pub list : List Header

-- strncpy of the prefix, strncat of the name, and the terminator at `keylen`.
unfoldable pub full_key : Bytes → Bytes
full_key key =
    let keylen = length key + sizeof_prefix in take keylen (header_prefix ++ take keylen key)

unfoldable pub make_header : Bytes → Bytes → Header
unfolding full_key
make_header key value = record {
  orig_key = drop (sizeof_prefix - 1) (full_key key);
  key = full_key key;
  value = value;
}

-- The first loop: is the key in the list?
unfoldable pub has_key : Bytes → List Header → Bool
has_key key [] = false
has_key key (ddh ∷ rest) = same_text ddh.key key || has_key key rest

-- da_cloud_print_header, onto what a stream holds; `none` is a null stream.
unfoldable pub print_header : Option Bytes → Header → Option Bytes
print_header none h = none
print_header (some out) h = some (out ++ h.orig_key ++ codes " => " ++ h.value ++ 10 ∷ [])

abbrev pub sizeof_cachekeybuf : ℕ
sizeof_cachekeybuf = 1024

-- One round of the second loop, on the text in `cachekeybuf`.
unfoldable pub append_header : Bytes → Header → Bytes
append_header cachekeybuf h =
    let cachekeybuflen = length cachekeybuf in
    if ltb (length h.key + length h.value) (sizeof_cachekeybuf - cachekeybuflen)
    then (if cachekeybuflen == 0 then h.key else cachekeybuf ++ h.key) ++ h.value
    else cachekeybuf

unfoldable pub fill_cachekeybuf : List Header → Bytes
unfolding append_header
fill_cachekeybuf = foldl append_header []

-- The whole array, with the zeros behind the text.
unfoldable pub padded : Bytes → Bytes
padded text = text ++ replicate (sizeof_cachekeybuf - length text) 0

-- `xxh64 buffer seed` is XXH64 of the vendored import/xxhash.h.
module _ (xxh64 : Bytes → ℕ → ℕ) where
  unfoldable pub hash_of : List Header → ℕ
  unfolding fill_cachekeybuf padded
  hash_of list = xxh64 (padded (fill_cachekeybuf list)) 0

  -- snprintf into 65 bytes
  unfoldable pub cachekey_of : List Header → Bytes
  unfolding hash_of
  cachekey_of list = take 64 (print_ulong (hash_of list))

  -- SLIST_INSERT_HEAD, and the new cache key.
  unfoldable pub link_header : HeaderHead → Header → HeaderHead
  link_header head dh = record head {
    list = dh ∷ head.list;
    hash = hash_of (dh ∷ head.list);
    cachekey = cachekey_of (dh ∷ head.list);
  }

-- The head and the status that a call leaves, and the allocator's state.
pub record Added (A : Allocator) : Type 0 where
  pub status : Status
  pub head : HeaderHead
  pub heap : A.State

-- Fuel for one call of `membuf_alloc` on a new block, which is made with room for the request.
abbrev pub pool_fuel : ℕ
pool_fuel = 2

abbrev pub pool_size : ℕ
pool_size = 65 + 1024 * 4

module _ (A : Allocator) where
  open A use {State}

  -- `none` is the return of -1, with no pool.
  unfoldable pub header_init : State → Option HeaderHead × State
  header_init s =
      let (dcm, s') = membuf_create A s pool_size in
      elim dcm [
        | none ↦ (none, s')
        | some d ↦ (
          some (record {
            cachekey = [];
            hash = 0;
            pool = record { before = []; dcm = d };
            list = [];
          }),
          s',
        )
      ]

  -- The list lives in the pool, which is freed from its root.
  unfoldable pub header_free : State → HeaderHead → State
  header_free s head = membuf_free A s (nodes head.pool)

module _ (A : Allocator) (xxh64 : Bytes → ℕ → ℕ) where
  open A use {State}

  -- From the first loop on. `value` is null if the pool had no room for its copy: then the second
  -- loop takes the length of a null pointer.
  unfoldable pub link_new : HeaderHead → Header → Grant A → Outcome (Added A)
  link_new head dh value =
      let head' = record head { pool = value.pool } in
      if has_key dh.key head.list
      then returns (record { status = failed; head = head'; heap = value.heap })
      else elim value.region [
        | none ↦ crashes
        | some _ ↦
            returns (record { status = done; head = link_header xxh64 head' dh; heap = value.heap })
      ]

  -- The key is written through its pointer, which is not tested.
  unfoldable pub fill_header : HeaderHead → Bytes → Bytes → Grant A → Outcome (Added A)
  unfolding link_new
  fill_header head key value dh = do
    let keylen = length key + sizeof_prefix
    k ← membuf_fill A pool_fuel dh.heap dh.pool (keylen + sizeof_prefix + 1)
    elim k.region [
      | none ↦ crashes
      | some _ ↦ do
        v ← membuf_copy A pool_fuel k.heap k.pool (length value)
        link_new head (make_header key value) v
    ]

  unfoldable pub header_add : State → HeaderHead → Bytes → Bytes → Outcome (Added A)
  header_add s head key value = do
    dh ← membuf_fill A pool_fuel s head.pool sizeof_header
    elim dh.region [
      | none ↦
          returns
            (record { status = failed; head = record head { pool = dh.pool }; heap = dh.heap })
      | some _ ↦ fill_header head key value dh
    ]

  unfoldable pub clientside_add : State → HeaderHead → Bytes → Outcome (Added A)
  unfolding header_add
  clientside_add s head value = header_add s head (codes "Client-Properties") value

  unfoldable pub useragent_add : State → HeaderHead → Bytes → Outcome (Added A)
  unfolding header_add
  useragent_add s head value = header_add s head (codes "User-Agent") value

  unfoldable pub language_add : State → HeaderHead → Bytes → Outcome (Added A)
  unfolding header_add
  language_add s head value = header_add s head (codes "Accept-Language") value
