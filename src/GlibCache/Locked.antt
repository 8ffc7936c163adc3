-- ===== src/GlibCache/Locked.antt =====
-- memory_cache_provider.c over GLib, what MTX_LOCK and MTX_UNLOCK do to the calls that follow.
use deviceatlas_cloud_c.Prelude.{
  ℕ, ◌≡◌, refl, ◌∙◌, subst, Option, none, some, Bool, Bool-cases, inl, inr, leb, arith, Bytes,
  returns, hangs, Returns, Returns-returns,
}
use deviceatlas_cloud_c.Mem.{Allocator}
use deviceatlas_cloud_c.Cache.{CString, Got, Left}
use deviceatlas_cloud_c.Mutex.{Mutex, unlocked, locked, mtx_lock, mtx_unlock}
use deviceatlas_cloud_c.GlibCache.{
  HashTable, GlibCfg, glib_read, glib_hand_out, glib_cache_get, glib_cache_set, table_put,
}

module _ (A : Allocator) (H : HashTable) (attr_ok mutex_ok : Bool) where
  open A use {State}

  -- The cache has a table and a threshold, and its mutex is in the given state.
  abbrev pub Ready : Mutex → GlibCfg H → Type 0
  Ready m cfg =
      ((table : H.Table) × (cfg.cache_obj ≡ some table))
      × ((n : ℕ) × (cfg.threshold ≡ some n))
      × (cfg.mtx ≡ m)

  -- A call of the provider that returns.
  pub data Call (cfg cfg' : GlibCfg H) : Type 0 where
    gets :
        (h : State) (key : Bytes) (old : Option CString) (g : Got State (GlibCfg H))
        → glib_cache_get A H attr_ok mutex_ok h cfg key (some old) ≡ returns g
        → g.cfg ≡ cfg'
        → Call cfg cfg'
    sets :
        (h : State) (key value : Bytes) (left : Left State (GlibCfg H))
        → glib_cache_set A H attr_ok mutex_ok h cfg key value ≡ returns left
        → left.cfg ≡ cfg'
        → Call cfg cfg'

module _ (A : Allocator) (H : HashTable) (attr_ok mutex_ok : Bool)
    (keeps : (m : Mutex) → H.stray_unlock m ≡ m) where
  open A use {State}

  glib_hand_out-kept :
      (h : State) (cfg : GlibCfg H) (old : Option CString) (text : Option Bytes)
      → let c = (glib_hand_out A H attr_ok mutex_ok h cfg old text).cfg in
        (c.cache_obj ≡ cfg.cache_obj) × (c.threshold ≡ cfg.threshold) × (c.mtx ≡ cfg.mtx)
  unfolding glib_hand_out mtx_unlock
  glib_hand_out-kept h cfg old none = (refl, refl, keeps cfg.mtx)
  glib_hand_out-kept h cfg old (some text) = ground (arith, keeps cfg.mtx)

  glib_read-Ready :
      (h : State) (cfg : GlibCfg H) (table : H.Table) (n : ℕ) (key : Bytes) (old : Option CString)
      → cfg.cache_obj ≡ some table
      → cfg.threshold ≡ some n
      → cfg.mtx ≡ locked
      → Ready A H attr_ok mutex_ok locked (glib_read A H attr_ok mutex_ok h cfg table n key old).cfg
  unfolding glib_read mtx_unlock
  glib_read-Ready h cfg table n key old e k m = elim (Bool-cases (leb n (H.size table))) [
    | inl full ↦ rw (full, glib_read) ((H.remove_all table, refl), (n, k), keeps cfg.mtx ∙ m)
    | inr room ↦
        let (same, still, held) = glib_hand_out-kept h cfg old (H.lookup table key) in
        rw (room, glib_read) ((table, same ∙ e), (n, still ∙ k), held ∙ m)
  ]

  get-Ready :
      (cfg : GlibCfg H) (h : State) (key : Bytes) (old : Option CString)
      → Ready A H attr_ok mutex_ok unlocked cfg
      → Returns
          (λ g. Ready A H attr_ok mutex_ok locked g.cfg)
          (glib_cache_get A H attr_ok mutex_ok h cfg key (some old))
  unfolding glib_cache_get mtx_lock
  get-Ready cfg h key old ((table, e), (n, k), m) =
      let held : GlibCfg H = record cfg { mtx = locked } in
      let ready = glib_read-Ready h held table n key old e k refl in
      rw (e, glib_cache_get, m, mtx_lock, k) ready

  set-Ready :
      (cfg : GlibCfg H) (h : State) (key value : Bytes)
      → Ready A H attr_ok mutex_ok unlocked cfg
      → Returns
          (λ left. Ready A H attr_ok mutex_ok locked left.cfg)
          (glib_cache_set A H attr_ok mutex_ok h cfg key value)
  unfolding glib_cache_set mtx_lock mtx_unlock
  set-Ready cfg h key value ((table, e), (n, k), m) =
      rw (e, glib_cache_set, m, mtx_lock)
        ((table_put H table key value, refl), (n, k), keeps locked)

  Call-Ready :
      (cfg cfg' : GlibCfg H)
      → Ready A H attr_ok mutex_ok unlocked cfg
      → Call A H attr_ok mutex_ok cfg cfg'
      → Ready A H attr_ok mutex_ok locked cfg'
  Call-Ready cfg cfg' o (gets h key old g ran same) =
      subst (Ready A H attr_ok mutex_ok locked) same (
        Returns-returns (λ r. Ready A H attr_ok mutex_ok locked r.cfg) _ g ran
          (get-Ready cfg h key old o))
  Call-Ready cfg cfg' o (sets h key value left ran same) =
      subst (Ready A H attr_ok mutex_ok locked) same (
        Returns-returns (λ r. Ready A H attr_ok mutex_ok locked r.cfg) _ left ran
          (set-Ready cfg h key value o))

  -- Where the unlock of a mutex that was never initialised leaves the others as they were: after one
  -- call of the GLib version's get or set that returned on a cache with a table, a threshold and a free
  -- mutex, no call of set and none of get with somewhere to put the value returns on that
  -- configuration.
  pub glib_cache_stuck :
      (cfg cfg' : GlibCfg H)
      → Ready A H attr_ok mutex_ok unlocked cfg
      → Call A H attr_ok mutex_ok cfg cfg'
      → ((h : State) (key : Bytes) (old : Option CString)
          → glib_cache_get A H attr_ok mutex_ok h cfg' key (some old) ≡ hangs)
        × ((h : State) (key value : Bytes)
            → glib_cache_set A H attr_ok mutex_ok h cfg' key value ≡ hangs)
  unfolding glib_cache_get glib_cache_set mtx_lock
  glib_cache_stuck cfg cfg' o call =
      let ((table, e), _, m) = Call-Ready cfg cfg' o call in
      (
        λ h key old. rw (e, glib_cache_get, m, mtx_lock) refl,
        λ h key value. rw (e, glib_cache_set, m, mtx_lock) refl,
      )
