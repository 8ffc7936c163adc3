-- ===== src/Client.antt =====
-- dacloud.c, the life of a client: `da_cloud_init` reads a configuration file, opens the cache and
-- ranks the servers, and `da_cloud_fini` gives all of it back. What is logged is left out.
pub mod Identity
pub mod Balance
pub mod Ranked
pub mod Life
pub mod Closing
use deviceatlas_cloud_c.Prelude.{
  ℕ, ◌+◌, ◌*◌, ◌%◌, Option, none, some, List, [], ◌∷◌, ◌++◌, Bool, true, false, ◌&&◌, ◌||◌, leb,
  ◌==◌, if◌then◌else◌, length, map, Bytes, codes, same_text, ℤ, pos, negsuc, Status, done, failed,
  Outcome, returns, crashes, hangs, ◌>>=◌,
}
use deviceatlas_cloud_c.Mem.{Allocator}
use deviceatlas_cloud_c.Cache.{CString, Left, CacheOps, Provider, mock, Ops, cache_set, cache_id}
use deviceatlas_cloud_c.Server.{Server, ServerHead}
use deviceatlas_cloud_c.Ranking.{Probes, Fired, unreached, servers_fireup}
use deviceatlas_cloud_c.Config.{
  Element, LoadedServers, Platform, Plugin, Settings, Stream, cache_expiration, efp_of,
  free_pointer, free_servers, load_servers, ranking_of, sizeof_server_head, stderr, use_defaults,
}

module _ (A : Allocator) (plugins : Provider → Plugin A) (have_memcached : Bool) (P : Platform)
    (W : Probes) (qsort : (Server → Server → ℤ) → List Server → List Server) where
  open A use {State, alloc, realloc, strdup, free}
  open W use {Net}

  abbrev pub ops_of : Provider → CacheOps A
  ops_of p = (plugins p).ops

  -- struct da_cloud_config. `provider` is the one that the functions init, get, set and fini of
  -- `cops` belong to, and `cache_cfg` is its data.
  pub record Config : Type 0 where
    pub shead : ServerHead
    pub efp : Stream
    pub licence_key : Option CString
    pub manual_ranking : Bool
    pub cops : Ops
    pub provider : Provider
    pub cache_cfg : (ops_of provider).Cfg

  -- What da_cloud_init returns and leaves.
  pub record Inited : Type 0 where
    pub status : Status
    pub config : Config
    pub net : Net
    pub heap : State

  abbrev pub fail_with : Config → Net → State → Outcome (Option Inited)
  fail_with config net s =
      returns (some (record { status = failed; config = config; net = net; heap = s }))

  -- The head of servers as it is, and the ranking.
  unfoldable pub rank_servers : Config → Net → ServerHead × State → Outcome (Option Inited)
  rank_servers config net (head, s) =
      let r = servers_fireup W qsort net config.manual_ranking head.servers in
      returns (
        some (record {
          status = r.status;
          config = record config { shead = record head { servers = r.servers } };
          net = r.net;
          heap = s;
        }))

  -- From `noservers` on, behind the loop.
  unfoldable pub finish_servers : Config → Net → LoadedServers A → Outcome (Option Inited)
  unfolding use_defaults rank_servers
  finish_servers config net r = elim r.complete [
    | false ↦ fail_with (record config { shead = r.head }) net r.heap
    | true ↦ do h ← use_defaults A r.heap r.head; rank_servers config net h
  ]

  abbrev pub elements_of : Option (List Element) → List Element
  elements_of none = []
  elements_of (some l) = l

  -- From the lookup of "servers" on.
  unfoldable pub init_servers : Settings → Config → Net → State → Outcome (Option Inited)
  unfolding load_servers finish_servers
  init_servers conf config net s = do
    r ← load_servers A s config.shead (elements_of conf.servers)
    finish_servers config net r

  -- Behind the provider's init: the text is freed either way.
  unfoldable pub after_init :
      Settings
      → Config
      → Net
      → Ops
      → (p : Provider) → Option ℕ
      → Left State (ops_of p).Cfg
      → Outcome (Option Inited)
  unfolding init_servers
  after_init conf config net cops p text left =
      let config' = record config { cops = cops; provider = p; cache_cfg = left.cfg } in
      elim left.status [
        | failed ↦ fail_with config' net (free_pointer A left.heap text)
        | done ↦ init_servers conf config' net (free_pointer A left.heap text)
      ]

  -- The init of the provider that was chosen.
  unfoldable pub open_provider :
      Settings
      → Config
      → Net
      → State
      → Ops
      → Option Provider
      → Option CString
      → Outcome (Option Inited)
  unfolding after_init
  open_provider conf config net s cops none text = crashes
  open_provider conf config net s cops (some p) none = do
    left ← (ops_of p).init s ((plugins p).zeroed none cache_expiration)
    after_init conf config net cops p none left
  open_provider conf config net s cops (some p) (some (q, t)) = do
    left ← (ops_of p).init s ((plugins p).zeroed (some t) cache_expiration)
    after_init conf config net cops p (some q) left

  -- g_allocator.strdup of a setting that is there; a null pointer where it fails.
  unfoldable pub dup_setting : State → Option Bytes → Option CString × State
  dup_setting s none = (none, s)
  dup_setting s (some t) =
      let (p, s') = strdup s (length t) in elim p [ none ↦ (none, s') | some q ↦ (some (q, t), s') ]

  -- From `cache_name != NULL` on; an unknown name ends the process in errx, which is `none`.
  unfoldable pub init_cache : Settings → Config → Net → State → Outcome (Option Inited)
  unfolding dup_setting open_provider init_servers
  init_cache conf config net s = elim conf.cache_type [
    | none ↦ init_servers conf config net s
    | some cache_name ↦
        let (text, s') = dup_setting s conf.cache_config in
        elim (cache_set have_memcached config.cops cache_name) [
          | none ↦ returns none
          | some cops ↦ open_provider conf config net s' cops cops.init text
        ]
  ]

  -- From the lookup of "user.error_path" on. Without a licence key an uninitialised pointer is
  -- copied.
  unfoldable pub read_settings : Settings → Config → Net → State → Outcome (Option Inited)
  unfolding efp_of ranking_of dup_setting init_cache
  read_settings conf config net s = elim conf.licence_key [
    | none ↦ crashes
    | some key ↦
        let (licence_key, s') = dup_setting s (some key) in
        init_cache conf
          (record config {
            efp = efp_of P conf.error_path;
            licence_key = licence_key;
            manual_ranking = ranking_of config.manual_ranking conf.manual_ranking;
          })
          net s'
  ]

  -- The functions of the mock provider, and the `id` that was there before.
  abbrev pub mock_ops : Option Provider → Ops
  mock_ops id = record {
    id = id;
    init = some mock;
    get = some mock;
    set = some mock;
    fini = some mock;
  }

  -- `old_id` and `old_ranking` are what the caller's struct held. The head of servers is zeroed
  -- before its pointer is tested.
  unfoldable pub init : State → Net → Option Provider → Bool → Bytes → Outcome (Option Inited)
  unfolding read_settings
  init s net old_id old_ranking confpath =
      let (shead, s') = alloc s sizeof_server_head in
      elim shead [
        | none ↦ crashes
        | some p ↦
            let config : Config = record {
              shead = record { self = p; array = none; servers = []; dservers = false };
              efp = stderr;
              licence_key = none;
              manual_ranking = old_ranking;
              cops = mock_ops old_id;
              provider = mock;
              cache_cfg = (plugins mock).zeroed none cache_expiration;
            } in
            elim (P.read_file confpath) [
              | none ↦ fail_with config net s'
              | some conf ↦ read_settings conf config net s'
            ]
      ]

  -- The servers that are not static, the array and the head.
  unfoldable pub free_head : State → ServerHead → State
  unfolding free_servers
  free_head s head =
      let s' = elim head.dservers as (λ _. State) [
        | true ↦ s
        | false ↦ free_servers A s head.servers
      ] in
      free (free_pointer A s' head.array) head.self

  abbrev pub pointer_of : Option CString → Option ℕ
  pointer_of none = none
  pointer_of (some (p, t)) = some p

  -- What is left is the allocator's state; the streams and libcurl are closed without a result.
  unfoldable pub fini : State → Config → Outcome State
  unfolding free_head
  fini s config = do
    left ← (ops_of config.provider).fini (free_head s config.shead) config.cache_cfg
    returns (free_pointer A left.heap (pointer_of config.licence_key))

  -- da_cloud_cache_id: the call of a function pointer that may not be set.
  unfoldable pub config_cache_id : Config → Outcome Bytes
  config_cache_id config = elim config.cops.id [ none ↦ crashes | some p ↦ returns (cache_id p) ]
