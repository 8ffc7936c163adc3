-- ===== src/FileCache/Opening.antt =====
-- file_cache_provider.c, what `file_cache_init` accepts.
use deviceatlas_cloud_c.Prelude.{
  ◌*◌, ◌-◌, ◌<◌, ◌≡◌, none, some, [], Bool, true, Bool-cases, Option-cases, inl, inr, not, ◌||◌,
  leb, ◌==◌, length, arith, Bytes, done, returns, Ensures, Ensures-bind, Ensures-mono,
  Ensures-returns,
}
use deviceatlas_cloud_c.Mem.{Allocator}
use deviceatlas_cloud_c.Membuf.{Grant, membuf_create, membuf_alloc}
use deviceatlas_cloud_c.Header.{pool_fuel}
use deviceatlas_cloud_c.Cache.{Left}
use deviceatlas_cloud_c.Mutex.{unlocked, mtx_init}
use deviceatlas_cloud_c.FileCache.{
  Files, FileCfg, path_max, is_usable_dir, keep_dir, open_dir, file_cache_init,
}
use deviceatlas_cloud_c.FileCache.Locked.{Open}

module _ (A : Allocator) (F : Files) (attr_ok mutex_ok : Bool) where
  open A use {State}

  -- Where the call returned 0, the cache is open on the directory, which is usable and whose path is
  -- not empty and short enough.
  abbrev Opened : FileCfg F → Bytes → Left State (FileCfg F) → Type 0
  Opened old dir left =
      left.status ≡ done
      → Open A F attr_ok mutex_ok dir unlocked left.cfg
        × (0 < length dir)
        × (length dir < path_max - 67)
        × (is_usable_dir (F.stat old.fs dir) ≡ true)

  keep_dir-Opened :
      (cfg : FileCfg F) (text : Bytes) (g : Grant A)
      → Ensures
          (λ left. left.status ≡ done → Open A F attr_ok mutex_ok text unlocked left.cfg)
          (keep_dir A F attr_ok mutex_ok cfg text g)
  unfolding keep_dir mtx_init
  keep_dir-Opened cfg text g = ground arith

  open_dir-Opened :
      (h : State) (cfg : FileCfg F) (text : Bytes)
      → Ensures
          (λ left. left.status ≡ done → Open A F attr_ok mutex_ok text unlocked left.cfg)
          (open_dir A F attr_ok mutex_ok h cfg text)
  unfolding open_dir
  open_dir-Opened h cfg text = elim (Option-cases (membuf_create A h (1024 * 4)).0) [
    | inl no_pool ↦ rw (no_pool, open_dir) (λ bad. absurd (cc))
    | inr (d, pool) ↦
        rw (pool, open_dir)
          (Ensures-bind _ (membuf_alloc A pool_fuel _ (record { before = []; dcm = d }) path_max)
            (keep_dir A F attr_ok mutex_ok cfg text) (keep_dir-Opened cfg text))
  ]

  if_done :
      (h : State) (old : FileCfg F) (dir : Bytes)
      → old.cache_cfg_str ≡ some dir
      → Ensures (Opened old dir) (file_cache_init A F attr_ok mutex_ok h old)
  unfolding file_cache_init
  if_done h old dir e =
      let cfg = record old { cache_obj = none } in
      let bad =
        length dir == 0
        || leb (path_max - 67) (length dir)
        || not (is_usable_dir (F.stat cfg.fs dir)) in
      elim (Bool-cases bad) [
        | inl refused ↦ rw (e, file_cache_init, refused) (λ no. absurd (cc))
        | inr fine ↦
            let checks : (0 < length dir)
                × (length dir < path_max - 67)
                × (is_usable_dir (F.stat old.fs dir) ≡ true) =
              ground arith in
            rw (e, file_cache_init, fine)
              (Ensures-mono
                (λ left. left.status ≡ done → Open A F attr_ok mutex_ok dir unlocked left.cfg)
                (Opened old dir) _ (λ left open_if ok. (open_if ok, checks.0, checks.1, checks.2))
                (open_dir-Opened h cfg dir))
      ]

  -- Where file_cache_init returned 0 for a configured text, the cache is open on that directory
  -- with a free mutex, the text is not empty and shorter than PATH_MAX - 67, and it names a
  -- directory with a permission to write.
  pub file_cache_init-Open :
      (h : State) (old : FileCfg F) (dir : Bytes) (left : Left State (FileCfg F))
      → old.cache_cfg_str ≡ some dir
      → file_cache_init A F attr_ok mutex_ok h old ≡ returns left
      → left.status ≡ done
      → Open A F attr_ok mutex_ok dir unlocked left.cfg
        × (0 < length dir)
        × (length dir < path_max - 67)
        × (is_usable_dir (F.stat old.fs dir) ≡ true)
  file_cache_init-Open h old dir left e ran ok =
      Ensures-returns (Opened old dir) _ left ran (if_done h old dir e) ok
