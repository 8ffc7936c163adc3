-- ===== src/CppWrapper.antt =====
-- cppwrapper/dacloud.cpp and cppwrapper/dacloud.hpp: the classes DaCloudHeaders, DaCloud and
-- DaCloudDetect. A constructor gives the object, and a destructor what is left of the heap; `c_text`
-- is what C reads of the method c_str.
pub mod Detecting
pub mod Lookup
use deviceatlas_cloud_c.Prelude.{
  ℕ, c_text, Option, none, some, List, [], ◌∷◌, Bool, true, false, if◌then◌else◌, Bytes, codes,
  same_text, ℤ, Status, done, failed, Outcome, returns, crashes, ◌>>=◌,
}
use deviceatlas_cloud_c.Mem.{Allocator}
use deviceatlas_cloud_c.Property.{Property, PropertyHead, properties_free}
use deviceatlas_cloud_c.Header.{
  HeaderHead, Added, header_init, header_add, clientside_add, useragent_add, header_free,
}
use deviceatlas_cloud_c.Cache.{Provider}
use deviceatlas_cloud_c.Server.{Server}
use deviceatlas_cloud_c.Ranking.{Probes}
use deviceatlas_cloud_c.Config.{Platform, Plugin}
use deviceatlas_cloud_c.Client.{Config, Inited, init, fini, config_cache_id}
use deviceatlas_cloud_c.Detect.{Services, Detected, detect}

-- DaCloudProperties, a map by name: the pairs in the order in which they went in.
abbrev pub Properties : Type 0
Properties = List (Bytes × Property)

unfoldable pub lookup : Bytes → Properties → Option Property
lookup pname [] = none
lookup pname ((name, p) ∷ rest) = if same_text pname name then some p else lookup pname rest

-- std::map::insert, which leaves a key that is there as it is.
unfoldable pub insert : Properties → Bytes → Property → Properties
unfolding lookup
insert props pname p = elim (lookup pname props) [ none ↦ (pname, p) ∷ props | some old ↦ props ]

-- The loop over the properties.
unfoldable pub insert_each : Properties → List Property → Properties
unfolding insert
insert_each props [] = props
insert_each props (p ∷ rest) = insert_each (insert props p.name p) rest

-- DaCloudHeaders: `set` and the head, which only an object that is set has.
abbrev pub DaCloudHeaders : Type 0
DaCloudHeaders = Option HeaderHead

module _ (A : Allocator) (xxh64 : Bytes → ℕ → ℕ) where
  open A use {State}

  unfoldable pub make_headers : State → DaCloudHeaders × State
  unfolding header_init
  make_headers s = header_init A s

  unfoldable pub destroy_headers : State → DaCloudHeaders → State
  destroy_headers s none = s
  destroy_headers s (some hhead) = header_free A s hhead

  -- What a call of a method returns and leaves.
  pub record HeadersResult : Type 0 where
    pub status : Status
    pub headers : DaCloudHeaders
    pub heap : State

  abbrev pub not_set : State → Outcome HeadersResult
  not_set s = returns (record { status = failed; headers = none; heap = s })

  abbrev pub result_of : Added A → Outcome HeadersResult
  result_of r = returns (record { status = r.status; headers = some r.head; heap = r.heap })

  unfoldable pub add : State → DaCloudHeaders → Bytes → Bytes → Outcome HeadersResult
  unfolding header_add
  add s none key value = not_set s
  add s (some hhead) key value = do
    r ← header_add A xxh64 s hhead (c_text key) (c_text value)
    result_of r

  unfoldable pub add_client_side : State → DaCloudHeaders → Bytes → Outcome HeadersResult
  unfolding clientside_add
  add_client_side s none value = not_set s
  add_client_side s (some hhead) value = do
    r ← clientside_add A xxh64 s hhead (c_text value)
    result_of r

  unfoldable pub add_user_agent : State → DaCloudHeaders → Bytes → Outcome HeadersResult
  unfolding useragent_add
  add_user_agent s none value = not_set s
  add_user_agent s (some hhead) value = do
    r ← useragent_add A xxh64 s hhead (c_text value)
    result_of r

module _ (A : Allocator) (plugins : Provider → Plugin A) (have_memcached : Bool) (P : Platform)
    (W : Probes) (qsort : (Server → Server → ℤ) → List Server → List Server) where
  open A use {State}

  abbrev pub Client : Type 0
  Client = Config A plugins have_memcached P W qsort

  -- DaCloud: `cfg` is what da_cloud_init left.
  pub record DaCloud : Type 0 where
    pub set : Bool
    pub cfg : Client
    pub cache_id : Bytes

  pub record MadeCloud : Type 0 where
    pub cloud : DaCloud
    pub net : W.Net
    pub heap : State

  -- Behind da_cloud_init; `none` is the end of the process in errx.
  unfoldable pub keep_cloud :
      Option (Inited A plugins have_memcached P W qsort) → Outcome (Option MadeCloud)
  unfolding config_cache_id
  keep_cloud none = returns none
  keep_cloud (some r) = elim r.status [
    | failed ↦ returns (
        some (record {
          cloud = record { set = false; cfg = r.config; cache_id = codes "none" };
          net = r.net;
          heap = r.heap;
        }))
    | done ↦ do
      cache_id ← config_cache_id A plugins have_memcached P W qsort r.config
      returns (
          some (record {
            cloud = record { set = true; cfg = r.config; cache_id = cache_id };
            net = r.net;
            heap = r.heap;
          }))
  ]

  -- The member `cfg` is not initialised: `old_id` and `old_ranking` are what its memory held.
  unfoldable pub make_cloud :
      State → W.Net → Option Provider → Bool → Bytes → Outcome (Option MadeCloud)
  unfolding init keep_cloud
  make_cloud s net old_id old_ranking configpath = do
    r ← init A plugins have_memcached P W qsort s net old_id old_ranking (c_text configpath)
    keep_cloud r

  unfoldable pub destroy_cloud : State → DaCloud → Outcome State
  unfolding fini
  destroy_cloud s cloud = elim cloud.set as (λ _. Outcome State) [
    | false ↦ returns s
    | true ↦ fini A plugins have_memcached P W qsort s cloud.cfg
  ]
