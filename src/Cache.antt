-- ===== src/Cache.antt =====
-- dacloud_cache.c and dacloud_cache.h: the interface of a cache provider, the mock provider, and
-- the choice of a provider by its name.
pub mod Choice
pub mod Blocks
pub mod CryptKey
pub mod Remembering
use deviceatlas_cloud_c.Prelude.{
  ℕ, Option, none, some, Bool, true, false, ◌&&◌, if◌then◌else◌, Bytes, codes, same_text_nocase,
  Status, done, Outcome, returns,
}
use deviceatlas_cloud_c.Mem.{Allocator}

-- A char pointer that is not null: its address and the text there.
abbrev pub CString : Type 0
CString = ℕ × Bytes

-- What a `get` leaves: its status, `*value` (`none` for a null pointer `value`), the provider's
-- data and the allocator's state.
pub record Got (H C : Type 0) : Type 0 where
  pub status : Status
  pub value : Option (Option CString)
  pub cfg : C
  pub heap : H

-- What an `init` or a `set` leaves.
pub record Left (H C : Type 0) : Type 0 where
  pub status : Status
  pub cfg : C
  pub heap : H

-- struct da_cloud_cache_ops over the data that the provider keeps in struct da_cloud_cache_cfg.
pub record CacheOps (A : Allocator) : Type 1 where
  pub Cfg : Type 0
  pub id : Bytes
  pub init : A.State → Cfg → Outcome (Left A.State Cfg)
  pub get : A.State → Cfg → Bytes → Option (Option CString) → Outcome (Got A.State Cfg)
  pub set : A.State → Cfg → Bytes → Bytes → Outcome (Left A.State Cfg)
  pub fini : A.State → Cfg → Outcome (Left A.State Cfg)

module _ (A : Allocator) where
  open A use {State}

  unfoldable pub mock_cache_get :
      State → Unit {0} → Bytes → Option (Option CString) → Outcome (Got State (Unit {0}))
  mock_cache_get h cfg key value =
      returns (record { status = done; value = value; cfg = cfg; heap = h })

  unfoldable pub mock_cache_set : State → Unit {0} → Bytes → Bytes → Outcome (Left State (Unit {0}))
  mock_cache_set h cfg key value = returns (record { status = done; cfg = cfg; heap = h })

  -- The five functions of the mock provider; it keeps nothing.
  abbrev pub mock_cache : CacheOps A
  mock_cache = record {
    Cfg = Unit {0};
    id = codes "mock";
    init = λ h cfg. returns (record { status = done; cfg = cfg; heap = h });
    get = mock_cache_get;
    set = mock_cache_set;
    fini = λ h cfg. returns (record { status = done; cfg = cfg; heap = h });
  }

pub data Provider : Type 0 where
  file memcached memory mock : Provider

-- struct da_cloud_cache_ops: whose function each field points to, `none` where nothing was stored.
pub record Ops : Type 0 where
  pub id : Option Provider
  pub init : Option Provider
  pub get : Option Provider
  pub set : Option Provider
  pub fini : Option Provider

-- CACHE_SET
unfoldable pub all_of : Provider → Ops
all_of p = record { id = some p; init = some p; get = some p; set = some p; fini = some p }

-- `none` is the exit of errx. `have_memcached` is the build's HAVE_MEMCACHED.
unfoldable pub cache_set : Bool → Ops → Bytes → Option Ops
unfolding all_of
cache_set have_memcached cops cache_name =
    if same_text_nocase cache_name (codes "file")
    then some (all_of file)
    else if have_memcached && same_text_nocase cache_name (codes "memcached")
    then some (all_of memcached)
    else if same_text_nocase cache_name (codes "memory")
    then some (all_of memory)
    else if same_text_nocase cache_name (codes "mock")
    then some (all_of mock)
    else none

-- The texts that the functions `id` return.
unfoldable pub cache_id : Provider → Bytes
cache_id file = codes "file"
cache_id memcached = codes "memcached"
cache_id memory = codes "memory"
cache_id mock = codes "mock"
