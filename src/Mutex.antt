-- ===== src/Mutex.antt =====
-- dacloud_cache.h, the macros MTX_INIT, MTX_LOCK, MTX_UNLOCK and MTX_DISPOSE of the providers.
use deviceatlas_cloud_c.Prelude.{
  Option, none, some, Bool, ◌&&◌, if◌then◌else◌, Outcome, returns, crashes, hangs,
}

-- The field `mtx` of struct da_cloud_cache_cfg.
pub data Mutex : Type 0 where
  unset unlocked locked : Mutex

-- MTX_INIT: `none` is the return of -1. The arguments say whether pthread_mutexattr_init and
-- pthread_mutex_init succeed.
unfoldable pub mtx_init : Bool → Bool → Option Mutex
mtx_init attr_ok mutex_ok = if attr_ok && mutex_ok then some unlocked else none

-- MTX_LOCK: a mutex of the type PTHREAD_MUTEX_NORMAL that is locked already blocks for ever.
unfoldable pub mtx_lock : Mutex → Outcome Mutex
mtx_lock unset = crashes
mtx_lock unlocked = returns locked
mtx_lock locked = hangs

-- MTX_UNLOCK: it unlocks the local variable `mtx` of the function, which was never initialised, and
-- not `cfg->mtx`. POSIX leaves undefined what that does; `stray_unlock` is what becomes of `cfg->mtx`.
unfoldable pub mtx_unlock : (Mutex → Mutex) → Mutex → Mutex
mtx_unlock stray_unlock m = stray_unlock m

-- MTX_DISPOSE
unfoldable pub mtx_dispose : Mutex → Mutex
mtx_dispose m = unset
