-- ===== src/GlibCache.antt =====
-- memory_cache_provider.c, the version over GLib: a hash table of texts, with a threshold on the
-- number of its entries. The hash table is the parameter `HashTable`.
pub mod Locked
pub mod Equivalence
use mathlib.Core.Option
use deviceatlas_cloud_c.Prelude.{
  ℕ, ◌*◌, Option, none, some, List, [], Bool, true, false, leb, if◌then◌else◌, length, Bytes, codes,
  Status, done, failed, Outcome, returns, crashes, ◌>>=◌,
}
use deviceatlas_cloud_c.Mem.{Allocator}
use deviceatlas_cloud_c.Membuf.{Pool, Grant, nodes, membuf_create, membuf_alloc, membuf_free}
use deviceatlas_cloud_c.Header.{pool_fuel}
use deviceatlas_cloud_c.Cache.{CString, Got, Left, CacheOps}
use deviceatlas_cloud_c.MemoryCache.{threshold_of, sizeof_int}
use deviceatlas_cloud_c.Mutex.{Mutex, mtx_init, mtx_lock, mtx_unlock, mtx_dispose}

-- What the provider uses of GLib: `new_full` makes an empty table, or gives a null pointer; `insert`
-- is called on a key that the table does not contain. `stray_unlock` is what becomes of the
-- configuration's mutex at the unlock of another one that was never initialised.
pub record HashTable : Type 1 where
  pub Table : Type 0
  pub new_full : Option Table
  pub size : Table → ℕ
  pub remove_all : Table → Table
  pub lookup : Table → Bytes → Option Bytes
  pub contains : Table → Bytes → Bool
  pub insert : Table → Bytes → Bytes → Table
  pub stray_unlock : Mutex → Mutex

module _ (H : HashTable) where
  open H use {Table}

  -- The fields of struct da_cloud_cache_cfg that the provider uses.
  pub record GlibCfg : Type 0 where
    pub cache_obj : Option Table
    pub threshold : Option ℕ
    pub pool : Option Pool
    pub cache_cfg_str : Option Bytes
    pub mtx : Mutex

  -- g_hash_table_insert where the key is not there. Where it is, the copies of the key and the value
  -- are lost.
  unfoldable pub table_put : Table → Bytes → Bytes → Table
  table_put table key value = if H.contains table key then table else H.insert table key value

module _ (A : Allocator) (H : HashTable) (attr_ok mutex_ok : Bool) where
  open A use {State, strdup}
  open H use {Table, new_full, size, remove_all, lookup}

  -- From the test of the pointer `threshold` on. Where the mutex cannot be made it returns -1 with
  -- the table in place.
  unfoldable pub glib_open : GlibCfg H → Grant A → Left State (GlibCfg H)
  unfolding mtx_init
  glib_open old t =
      let cfg = record old { pool = some t.pool } in
      let full = record cfg {
        cache_obj = new_full;
        threshold = some (threshold_of cfg.cache_cfg_str);
      } in
      elim t.region [
        | none ↦ record { status = failed; cfg = cfg; heap = t.heap }
        | some _ ↦ elim new_full [
          | none ↦ record { status = failed; cfg = cfg; heap = t.heap }
          | some hash ↦ elim (mtx_init attr_ok mutex_ok) [
            | none ↦ record { status = failed; cfg = full; heap = t.heap }
            | some m ↦ record { status = done; cfg = record full { mtx = m }; heap = t.heap }
          ]
        ]
      ]

  unfoldable pub glib_cache_init : State → GlibCfg H → Outcome (Left State (GlibCfg H))
  unfolding glib_open
  glib_cache_init h old =
      let cfg = record old { cache_obj = none } in
      let (dcm, h') = membuf_create A h (1024 * 4) in
      elim dcm [
        | none ↦ returns (record { status = failed; cfg = record cfg { pool = none }; heap = h' })
        | some d ↦ do
          t ← membuf_alloc A pool_fuel h' (record { before = []; dcm = d }) sizeof_int
          returns (glib_open cfg t)
      ]

  -- The copy of the value for the caller.
  unfoldable pub glib_hand_out :
      State → GlibCfg H → Option CString → Option Bytes → Got State (GlibCfg H)
  unfolding mtx_unlock
  glib_hand_out h old value none =
      let cfg = record old { mtx = mtx_unlock H.stray_unlock old.mtx } in
      record { status = failed; value = some value; cfg = cfg; heap = h }
  glib_hand_out h old value (some text) =
      let cfg = record old { mtx = mtx_unlock H.stray_unlock old.mtx } in
      let (p, h') = strdup h (length text) in
      elim p [
        | none ↦ record { status = failed; value = some none; cfg = cfg; heap = h' }
        | some q ↦ record { status = done; value = some (some (q, text)); cfg = cfg; heap = h' }
      ]

  -- The body under the lock, with the table and the threshold.
  unfoldable pub glib_read :
      State → GlibCfg H → Table → ℕ → Bytes → Option CString → Got State (GlibCfg H)
  unfolding glib_hand_out
  glib_read h cfg table threshold key value =
      if leb threshold (size table)
      then record {
        status = failed;
        value = some value;
        cfg = record cfg {
          cache_obj = some (remove_all table);
          mtx = mtx_unlock H.stray_unlock cfg.mtx;
        };
        heap = h;
      }
      else glib_hand_out h cfg value (lookup table key)

  -- Without a threshold its pointer is null, and is read.
  unfoldable pub glib_cache_get :
      State → GlibCfg H → Bytes → Option (Option CString) → Outcome (Got State (GlibCfg H))
  unfolding mtx_lock glib_read
  glib_cache_get h cfg key none =
      returns (record { status = failed; value = none; cfg = cfg; heap = h })
  glib_cache_get h cfg key (some old) = elim cfg.cache_obj [
    | none ↦ returns (record { status = failed; value = some old; cfg = cfg; heap = h })
    | some table ↦ do
      m ← mtx_lock cfg.mtx
      elim cfg.threshold [
        | none ↦ crashes
        | some threshold ↦ returns (glib_read h (record cfg { mtx = m }) table threshold key old)
      ]
  ]

  unfoldable pub glib_cache_set :
      State → GlibCfg H → Bytes → Bytes → Outcome (Left State (GlibCfg H))
  unfolding mtx_lock table_put mtx_unlock
  glib_cache_set h cfg key value = elim cfg.cache_obj [
    | none ↦ returns (record { status = failed; cfg = cfg; heap = h })
    | some table ↦ do
      m ← mtx_lock cfg.mtx
      returns (record {
        status = done;
        cfg = record cfg {
          cache_obj = some (table_put H table key value);
          mtx = mtx_unlock H.stray_unlock m;
        };
        heap = h;
      })
  ]

  -- g_hash_table_destroy where there is a table; `cache_obj` keeps its pointer.
  unfoldable pub glib_cache_fini : State → GlibCfg H → Outcome (Left State (GlibCfg H))
  unfolding mtx_dispose
  glib_cache_fini h cfg = returns (record {
    status = done;
    cfg = record cfg { cache_obj = Option.map remove_all cfg.cache_obj; mtx = mtx_dispose cfg.mtx };
    heap = elim cfg.pool [ none ↦ h | some pool ↦ membuf_free A h (nodes pool) ];
  })

  -- The five functions of the provider.
  abbrev pub glib_cache : CacheOps A
  glib_cache = record {
    Cfg = GlibCfg H;
    id = codes "memory";
    init = glib_cache_init;
    get = glib_cache_get;
    set = glib_cache_set;
    fini = glib_cache_fini;
  }
