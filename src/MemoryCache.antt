-- ===== src/MemoryCache.antt =====
-- memory_cache_provider.c, the version without GLib: a tail queue of entries in a pool, with a
-- count of the entries put in.
pub mod Reads
pub mod Flush
pub mod Refinement
pub mod Blocks
pub mod Life
pub mod Remembering
use mathlib.Core.Option
use deviceatlas_cloud_c.Prelude.{
  ℕ, zero, suc, ◌+◌, ◌-◌, ◌*◌, ◌%◌, ◌^◌, Option, none, some, List, [], ◌∷◌, ◌++◌, Bool, true, false,
  ◌&&◌, ◌||◌, ltb, leb, ◌==◌, if◌then◌else◌, length, Bytes, codes, same_text, pos, negsuc, strtol,
  Status, done, failed, Outcome, returns, ◌>>=◌,
}
use deviceatlas_cloud_c.Mem.{Allocator}
use deviceatlas_cloud_c.Membuf.{
  Pool, Grant, nodes, membuf_create, membuf_alloc, membuf_strdup, membuf_free,
}
use deviceatlas_cloud_c.Header.{pool_fuel}
use deviceatlas_cloud_c.Cache.{CString, Got, Left, CacheOps}

abbrev pub hash_threshold : ℕ
hash_threshold = 4096

abbrev pub hash_min : ℕ
hash_min = 128

abbrev pub int_max : ℕ
int_max = 2 ^ 31 - 1

-- struct memory_cache_entry
pub record Entry : Type 0 where
  pub key : Bytes
  pub value : Bytes

-- struct memory_cache: the entries from the head of the queue on.
pub record MemoryCache : Type 0 where
  pub cnt : ℕ
  pub entries : List Entry

-- The fields of struct da_cloud_cache_cfg that the provider uses; `threshold` is what `data`
-- points to.
pub record Cfg : Type 0 where
  pub cache_obj : Option MemoryCache
  pub threshold : Option ℕ
  pub pool : Option Pool
  pub cache_cfg_str : Option Bytes

-- while (!TAILQ_EMPTY) TAILQ_REMOVE the first; `cnt` stays.
unfoldable pub remove_each : List Entry → List Entry
remove_each [] = []
remove_each (mce ∷ rest) = remove_each rest

unfoldable pub removeall : MemoryCache → MemoryCache
unfolding remove_each
removeall mc = record mc { entries = remove_each mc.entries }

-- The first entry of the key.
unfoldable pub find_entry : Bytes → List Entry → Option Entry
find_entry key [] = none
find_entry key (mce ∷ rest) = if same_text key mce.key then some mce else find_entry key rest

-- temp >= HASH_MIN && temp < INT_MAX
unfoldable pub threshold_of : Option Bytes → ℕ
unfolding strtol
threshold_of none = hash_threshold
threshold_of (some text) = elim (strtol text) [
  | pos temp ↦ if leb hash_min temp && ltb temp int_max then temp else hash_threshold
  | negsuc n ↦ hash_threshold
]

-- TAILQ_INSERT_TAIL and mc->cnt ++
unfoldable pub insert_tail : MemoryCache → Entry → MemoryCache
insert_tail mc mce = record { cnt = (mc.cnt + 1) % 2 ^ 64; entries = mc.entries ++ mce ∷ [] }

abbrev pub sizeof_int : ℕ
sizeof_int = 4

abbrev pub sizeof_memory_cache : ℕ
sizeof_memory_cache = 24

abbrev pub sizeof_entry : ℕ
sizeof_entry = 32

module _ (A : Allocator) where
  open A use {State, strdup}

  -- From the test of the pointer `mc` on. `stale` is the number that stands in the new region where the
  -- field `cnt` is: it is not written to.
  unfoldable pub open_cache : ℕ → Cfg → Grant A → Left State Cfg
  open_cache stale cfg mc = elim mc.region [
    | none ↦ record { status = failed; cfg = record cfg { pool = some mc.pool }; heap = mc.heap }
    | some _ ↦ record {
      status = done;
      cfg = record cfg {
        pool = some mc.pool;
        threshold = some (threshold_of cfg.cache_cfg_str);
        cache_obj = some (record { cnt = stale; entries = [] });
      };
      heap = mc.heap;
    }
  ]

  -- From the test of the pointer `threshold` on.
  unfoldable pub place_cache : ℕ → Cfg → Grant A → Outcome (Left State Cfg)
  place_cache stale cfg t = elim t.region [
    | none ↦
        returns (record { status = failed; cfg = record cfg { pool = some t.pool }; heap = t.heap })
    | some _ ↦ do
      mc ← membuf_alloc A pool_fuel t.heap t.pool sizeof_memory_cache
      returns (open_cache stale cfg mc)
  ]

  unfoldable pub memory_cache_init : ℕ → State → Cfg → Outcome (Left State Cfg)
  unfolding open_cache place_cache
  memory_cache_init stale s old =
      let cfg = record old { cache_obj = none } in
      let (dcm, s') = membuf_create A s (1024 * 4) in
      elim dcm [
        | none ↦ returns (record { status = failed; cfg = record cfg { pool = none }; heap = s' })
        | some d ↦ do
          t ← membuf_alloc A pool_fuel s' (record { before = []; dcm = d }) sizeof_int
          place_cache stale cfg t
      ]

  -- The copy of the entry's value for the caller, or a null pointer.
  unfoldable pub hand_out : State → Cfg → Option (Option CString) → Option Entry → Got State Cfg
  hand_out s cfg value none = record { status = failed; value = value; cfg = cfg; heap = s }
  hand_out s cfg value (some mce) =
      let (p, s') = strdup s (length mce.value) in
      elim p [
        | none ↦ record { status = failed; value = some none; cfg = cfg; heap = s' }
        | some q ↦ record {
          status = done;
          value = some (some (q, mce.value));
          cfg = cfg;
          heap = s';
        }
      ]

  -- The body under `cache_obj != NULL && value != NULL`. It reads the threshold and compares with
  -- HASH_THRESHOLD.
  unfoldable pub get_from :
      State → Cfg → MemoryCache → Bytes → Option (Option CString) → Got State Cfg
  unfolding hand_out removeall
  get_from s cfg mc key value =
      if leb hash_threshold mc.cnt
      then record {
        status = failed;
        value = value;
        cfg = record cfg { cache_obj = some (removeall mc) };
        heap = s;
      }
      else hand_out s cfg value (find_entry key mc.entries)

  unfoldable pub memory_cache_get :
      State → Cfg → Bytes → Option (Option CString) → Outcome (Got State Cfg)
  unfolding get_from
  memory_cache_get s cfg key none =
      returns (record { status = failed; value = none; cfg = cfg; heap = s })
  memory_cache_get s cfg key (some old) = elim cfg.cache_obj [
    | none ↦ returns (record { status = failed; value = some old; cfg = cfg; heap = s })
    | some mc ↦ returns (get_from s cfg mc key (some old))
  ]

  -- The return of -1 for want of memory, with what the pool has become.
  abbrev pub out_of_memory : Cfg → Grant A → Outcome (Left State Cfg)
  out_of_memory cfg g =
      returns (record { status = failed; cfg = record cfg { pool = some g.pool }; heap = g.heap })

  unfoldable pub put_in :
      State → Cfg → Pool → MemoryCache → Bytes → Bytes → Outcome (Left State Cfg)
  unfolding insert_tail
  put_in s cfg pool mc key value = do
    m ← membuf_alloc A pool_fuel s pool sizeof_entry
    elim m.region [
      | none ↦ out_of_memory cfg m
      | some _ ↦ do
        k ← membuf_strdup A pool_fuel m.heap m.pool (length key)
        elim k.region [
          | none ↦ out_of_memory cfg k
          | some _ ↦ do
            v ← membuf_strdup A pool_fuel k.heap k.pool (length value)
            elim v.region [
              | none ↦ out_of_memory cfg v
              | some _ ↦ returns (record {
                status = done;
                cfg = record cfg {
                  pool = some v.pool;
                  cache_obj = some (insert_tail mc (record { key = key; value = value }));
                };
                heap = v.heap;
              })
            ]
        ]
    ]

  -- Without a pool the first allocation gives a null pointer.
  unfoldable pub memory_cache_set : State → Cfg → Bytes → Bytes → Outcome (Left State Cfg)
  unfolding put_in
  memory_cache_set s cfg key value = elim cfg.cache_obj [
    | none ↦ returns (record { status = failed; cfg = cfg; heap = s })
    | some mc ↦ elim cfg.pool [
      | none ↦ returns (record { status = failed; cfg = cfg; heap = s })
      | some pool ↦ put_in s cfg pool mc key value
    ]
  ]

  unfoldable pub memory_cache_fini : State → Cfg → Outcome (Left State Cfg)
  unfolding removeall
  memory_cache_fini s cfg = returns (record {
    status = done;
    cfg = record cfg { cache_obj = Option.map removeall cfg.cache_obj };
    heap = elim cfg.pool [ none ↦ s | some pool ↦ membuf_free A s (nodes pool) ];
  })

  -- The five functions of the provider.
  abbrev pub memory_cache : ℕ → CacheOps A
  memory_cache stale = record {
    Cfg = Cfg;
    id = codes "memory";
    init = memory_cache_init stale;
    get = memory_cache_get;
    set = memory_cache_set;
    fini = memory_cache_fini;
  }
