-- ===== src/Memcached.antt =====
-- memcached_cache_provider.c: a provider over libmemcached, which is the parameter
-- `Memcached`.
pub mod Clients
use deviceatlas_cloud_c.Prelude.{
  ℕ, ◌+◌, Option, none, some, Bool, true, false, if◌then◌else◌, Bytes, codes, Status, done, failed,
  Outcome, returns,
}
use deviceatlas_cloud_c.Mem.{Allocator}
use deviceatlas_cloud_c.Cache.{CString, Got, Left, CacheOps}

-- What the provider uses of libmemcached, of the clock and of the number of processors. A result of
-- `none` is a null pointer, and a Boolean whether the code is MEMCACHED_SUCCESS. `pop` and `push`
-- take a client out of a pool and put it back.
pub record Memcached : Type 1 where
  pub World : Type 0
  pub Handle : Type 0
  pub ServerList : Type 0
  pub Clients : Type 0
  pub Client : Type 0
  pub create : World → Option Handle × World
  pub servers_parse : World → Option Bytes → Option ServerList × World
  pub server_push : World → Handle → ServerList → World
  pub pool_create : World → Handle → ℕ → ℕ → Option Clients × World
  pub server_free : World → ServerList → World
  pub pool_pop : World → Clients → Option Client × Bool × World
  pub pool_push : World → Clients → Option Client → World
  pub get : World → Option Client → Bytes → Option CString × Bool × World
  pub set : World → Option Client → Bytes → Bytes → ℕ → Bool × World
  pub mc_free : World → Handle → World
  pub pool_destroy : World → Clients → World
  pub time : World → ℕ
  pub num_cores : World → ℕ

module _ (M : Memcached) where
  open M use {World, Handle, ServerList, Clients, Client}

  -- The fields of struct da_cloud_cache_cfg that the provider uses, and the world outside.
  pub record MemcachedCfg : Type 0 where
    pub memc : Option Handle
    pub cache_obj : Option Clients
    pub cache_cfg_str : Option Bytes
    pub expiration : ℕ
    pub world : World

  -- ret == MEMCACHED_SUCCESS ? 0 : -1
  abbrev pub status_of : Bool → Status
  status_of true = done
  status_of false = failed

module _ (A : Allocator) (M : Memcached) where
  open A use {State}
  open M use {World, Handle, ServerList, Clients, Client}

  -- The branch with a list of servers: `pool_create` is not tested.
  unfoldable pub connect : MemcachedCfg M → World → Handle → ServerList → MemcachedCfg M
  connect cfg w handle servers =
      let num_cores = M.num_cores w in
      let (pool, w') = M.pool_create (M.server_push w handle servers) handle 1 num_cores in
      record cfg { cache_obj = pool; world = M.server_free w' servers }

  -- `memc`, the field `data` of the source, keeps its pointer where it was freed.
  unfoldable pub memcached_cache_init :
      State → MemcachedCfg M → Outcome (Left State (MemcachedCfg M))
  unfolding connect
  memcached_cache_init h old =
      let (handle, w) = M.create old.world in
      let cfg = record old { cache_obj = none; memc = handle; world = w } in
      let (servers, w') = M.servers_parse w cfg.cache_cfg_str in
      elim handle [
        | none ↦ returns (record { status = failed; cfg = cfg; heap = h })
        | some d ↦ elim servers [
          | none ↦
              returns
                (record { status = failed; cfg = record cfg { world = M.mc_free w' d }; heap = h })
          | some l ↦ returns (record { status = done; cfg = connect cfg w' d l; heap = h })
        ]
      ]

  -- The client goes back to the pool, whatever came before.
  abbrev pub give_client : MemcachedCfg M → World → Clients → Option Client → MemcachedCfg M
  give_client cfg w pool client = record cfg { world = M.pool_push w pool client }

  -- The body where there is a pool and somewhere to put the value.
  unfoldable pub memcached_read :
      State → MemcachedCfg M → Clients → Bytes → Option CString → Got State (MemcachedCfg M)
  memcached_read h cfg pool key old =
      let (client, popped, w) = M.pool_pop cfg.world pool in
      let (value, found, w') = M.get w client key in
      elim popped [
        | false ↦ record {
          status = failed;
          value = some old;
          cfg = give_client cfg w pool client;
          heap = h;
        }
        | true ↦ record {
          status = status_of M found;
          value = some value;
          cfg = give_client cfg w' pool client;
          heap = h;
        }
      ]

  unfoldable pub memcached_cache_get :
      State
      → MemcachedCfg M
      → Bytes
      → Option (Option CString)
      → Outcome (Got State (MemcachedCfg M))
  unfolding memcached_read
  memcached_cache_get h cfg key none =
      returns (record { status = failed; value = none; cfg = cfg; heap = h })
  memcached_cache_get h cfg key (some old) = elim cfg.cache_obj [
    | none ↦ returns (record { status = failed; value = some old; cfg = cfg; heap = h })
    | some pool ↦ returns (memcached_read h cfg pool key old)
  ]

  -- The body where there is a pool.
  unfoldable pub memcached_write :
      State → MemcachedCfg M → Clients → Bytes → Bytes → Left State (MemcachedCfg M)
  memcached_write h cfg pool key value =
      let (client, popped, w) = M.pool_pop cfg.world pool in
      let (stored, w') = M.set w client key value (M.time w + cfg.expiration) in
      elim popped [
        | false ↦ record { status = failed; cfg = give_client cfg w pool client; heap = h }
        | true ↦ record {
          status = status_of M stored;
          cfg = give_client cfg w' pool client;
          heap = h;
        }
      ]

  unfoldable pub memcached_cache_set :
      State → MemcachedCfg M → Bytes → Bytes → Outcome (Left State (MemcachedCfg M))
  unfolding memcached_write
  memcached_cache_set h cfg key value = elim cfg.cache_obj [
    | none ↦ returns (record { status = failed; cfg = cfg; heap = h })
    | some pool ↦ returns (memcached_write h cfg pool key value)
  ]

  -- The handle is freed before the pool that was made of it; without a handle `memcached_free` of a
  -- null pointer does nothing.
  unfoldable pub memcached_cache_fini :
      State → MemcachedCfg M → Outcome (Left State (MemcachedCfg M))
  memcached_cache_fini h cfg =
      let w : World = elim cfg.memc [ none ↦ cfg.world | some d ↦ M.mc_free cfg.world d ] in
      elim cfg.cache_obj [
        | none ↦ returns (record { status = done; cfg = cfg; heap = h })
        | some pool ↦
            returns (record {
              status = done;
              cfg = record cfg { world = M.pool_destroy w pool };
              heap = h;
            })
      ]

  -- The five functions of the provider.
  abbrev pub memcached_cache : CacheOps A
  memcached_cache = record {
    Cfg = MemcachedCfg M;
    id = codes "memcached";
    init = memcached_cache_init;
    get = memcached_cache_get;
    set = memcached_cache_set;
    fini = memcached_cache_fini;
  }
