-- ===== src/FileCache/Locked.antt =====
-- file_cache_provider.c, what MTX_LOCK and MTX_UNLOCK do to the calls that follow.
use deviceatlas_cloud_c.Prelude.{
  ◌≡◌, refl, Option, some, Bool, arith, Bytes, returns, hangs, ◌∙◌, subst, Returns, Returns-returns,
}
use deviceatlas_cloud_c.Mem.{Allocator}
use deviceatlas_cloud_c.Cache.{CString, Got, Left}
use deviceatlas_cloud_c.Mutex.{Mutex, unlocked, locked, mtx_lock, mtx_unlock}
use deviceatlas_cloud_c.FileCache.{
  Files, FileCfg, path_of, read_cache, read_opened, read_locked, file_cache_get, write_cache,
  write_opened, file_cache_set,
}

module _ (A : Allocator) (F : Files) (attr_ok mutex_ok : Bool) where
  open A use {State}

  -- The cache is open, in a directory, and its mutex is in the given state.
  abbrev pub Open : Bytes → Mutex → FileCfg F → Type 0
  Open dir m cfg = (cfg.cache_obj ≡ some dir) × (cfg.mtx ≡ m)

  -- A call of the provider that returns.
  pub data Call (cfg cfg' : FileCfg F) : Type 0 where
    gets :
        (h : State) (key : Bytes) (old : Option CString) (g : Got State (FileCfg F))
        → file_cache_get A F attr_ok mutex_ok h cfg key (some old) ≡ returns g
        → g.cfg ≡ cfg'
        → Call cfg cfg'
    sets :
        (h : State) (key value : Bytes) (left : Left State (FileCfg F))
        → file_cache_set A F attr_ok mutex_ok h cfg key value ≡ returns left
        → left.cfg ≡ cfg'
        → Call cfg cfg'

module _ (A : Allocator) (F : Files) (attr_ok mutex_ok : Bool)
    (keeps : (m : Mutex) → F.stray_unlock m ≡ m) where
  open A use {State}

  read_cache-kept :
      (h : State) (cfg : FileCfg F) (dir : Bytes) (old : Option CString)
      → let c = (read_cache A F attr_ok mutex_ok h cfg dir old).cfg in
        (c.cache_obj ≡ cfg.cache_obj) × (c.mtx ≡ cfg.mtx)
  unfolding read_cache read_opened read_locked mtx_unlock
  read_cache-kept h cfg dir old = ground (arith, keeps cfg.mtx)

  write_cache-kept :
      (h : State) (cfg : FileCfg F) (dir key value : Bytes)
      → let c = (write_cache A F attr_ok mutex_ok h cfg dir key value).cfg in
        (c.cache_obj ≡ cfg.cache_obj) × (c.mtx ≡ cfg.mtx)
  unfolding write_cache write_opened mtx_unlock
  write_cache-kept h cfg dir key value = ground (arith, keeps cfg.mtx)

  get-Open :
      (dir : Bytes) (cfg : FileCfg F) (h : State) (key : Bytes) (old : Option CString)
      → Open A F attr_ok mutex_ok dir unlocked cfg
      → Returns
          (λ g. Open A F attr_ok mutex_ok dir locked g.cfg)
          (file_cache_get A F attr_ok mutex_ok h cfg key (some old))
  unfolding file_cache_get mtx_lock
  get-Open dir cfg h key old (e, m) =
      let (same, held) = read_cache-kept h (record cfg { mtx = locked }) (path_of dir key) old in
      rw (e, file_cache_get, m, mtx_lock) (same ∙ e, held)

  set-Open :
      (dir : Bytes) (cfg : FileCfg F) (h : State) (key value : Bytes)
      → Open A F attr_ok mutex_ok dir unlocked cfg
      → Returns
          (λ left. Open A F attr_ok mutex_ok dir locked left.cfg)
          (file_cache_set A F attr_ok mutex_ok h cfg key value)
  unfolding file_cache_set mtx_lock
  set-Open dir cfg h key value (e, m) =
      let (same, held) = write_cache-kept h (record cfg { mtx = locked }) dir key value in
      rw (e, file_cache_set, m, mtx_lock) (same ∙ e, held)

  Call-Open :
      (dir : Bytes) (cfg cfg' : FileCfg F)
      → Open A F attr_ok mutex_ok dir unlocked cfg
      → Call A F attr_ok mutex_ok cfg cfg'
      → Open A F attr_ok mutex_ok dir locked cfg'
  Call-Open dir cfg cfg' o (gets h key old g ran same) =
      subst (Open A F attr_ok mutex_ok dir locked) same (
        Returns-returns (λ r. Open A F attr_ok mutex_ok dir locked r.cfg) _ g ran
          (get-Open dir cfg h key old o))
  Call-Open dir cfg cfg' o (sets h key value left ran same) =
      subst (Open A F attr_ok mutex_ok dir locked) same (
        Returns-returns (λ r. Open A F attr_ok mutex_ok dir locked r.cfg) _ left ran
          (set-Open dir cfg h key value o))

  -- Where the unlock of a mutex that was never initialised leaves the others as they were: after one
  -- call of file_cache_get or file_cache_set that returned on an open cache, whichever way it ended,
  -- no call of file_cache_set and none of file_cache_get with somewhere to put the value returns on
  -- that configuration, since the unlock is not that of the mutex that was locked.
  pub file_cache_stuck :
      (dir : Bytes) (cfg cfg' : FileCfg F)
      → Open A F attr_ok mutex_ok dir unlocked cfg
      → Call A F attr_ok mutex_ok cfg cfg'
      → ((h : State) (key : Bytes) (old : Option CString)
          → file_cache_get A F attr_ok mutex_ok h cfg' key (some old) ≡ hangs)
        × ((h : State) (key value : Bytes)
            → file_cache_set A F attr_ok mutex_ok h cfg' key value ≡ hangs)
  unfolding file_cache_get file_cache_set mtx_lock
  file_cache_stuck dir cfg cfg' o call =
      let (e, m) = Call-Open dir cfg cfg' o call in
      (
        λ h key old. rw (e, file_cache_get, m, mtx_lock) refl,
        λ h key value. rw (e, file_cache_set, m, mtx_lock) refl,
      )
