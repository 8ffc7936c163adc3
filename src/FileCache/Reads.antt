-- ===== src/FileCache/Reads.antt =====
-- file_cache_provider.c, what a get reads of what a set has written, over a file system that keeps
-- what is written.
use deviceatlas_cloud_c.Prelude.{
  ℕ, suc, ◌+◌, ◌≤◌, ◌<◌, ◌≡◌, ◌≢◌, refl, ◌∙◌, ap, Option, some, [], ◌∷◌, Bool, true, false, leb,
  length, All, arith, Bytes, c_text, done, failed, returns, subst, Returns, Returns-returns,
}
use deviceatlas_cloud_c.Mem.{Allocator}
use deviceatlas_cloud_c.Cache.{CString, Left}
use deviceatlas_cloud_c.Mutex.{unlocked, locked, mtx_lock}
use deviceatlas_cloud_c.FileCache.{
  Files, FileCfg, path_of, first_line, file_cache_attempt, file_cache_mkdir, read_cache,
  read_opened, read_locked, file_cache_get, write_cache, write_opened, file_cache_set,
}
use deviceatlas_cloud_c.FileCache.Locked.{Open}

-- What is relied on: `file` is the text of a path with the time of its last change; what is written
-- to a file that was opened for writing and locked is its text when it is closed; and a file that
-- is opened for reading and locked has its text and its time.
pub record KeepsFiles (F : Files) : Type 0 where
  pub file : F.Fs → Bytes → Option (Bytes × ℕ)
  pub written :
      (fs : F.Fs) (path value : Bytes) (f : F.Handle)
      → (F.fopen fs true path).0 ≡ some f
      → let s = (F.flock (F.fopen fs true path).1 f).1 in
        file (F.fclose (F.funlock (F.fwrite s f value) f) f) path ≡ some (value, F.time s)
  pub read :
      (fs : F.Fs) (path text : Bytes) (t : ℕ) (f : F.Handle)
      → file fs path ≡ some (text, t)
      → (F.fopen fs false path).0 ≡ some f
      → let s = (F.fopen fs false path).1 in
        (F.fstat s f ≡ some t) × (F.time s ≡ F.time fs) × (F.contents (F.flock s f).1 f ≡ text)

-- A text without a zero byte or the end of a line.
abbrev pub IsLine : Bytes → Type 0
IsLine = All (λ c. (c ≢ 0) × (c ≢ 10))

c_text-first_line : (text : Bytes) → IsLine text → c_text (first_line text) ≡ text
unfolding c_text first_line
c_text-first_line [] h = refl
c_text-first_line (c ∷ cs) h = ground (arith, c_text-first_line cs h.1)

attempt_at_once :
    (F : Files) (n : ℕ) (fs : F.Fs) (writes : Bool) (path : Bytes) (f : F.Handle)
    → (F.fopen fs writes path).0 ≡ some f
    → let r = file_cache_attempt F (suc n) fs writes path in
      (r.0 ≡ some f) × (r.1 ≡ (F.fopen fs writes path).1)
unfolding file_cache_attempt
attempt_at_once F n fs writes path f e = rw (e, file_cache_attempt) (refl, refl)

module _ (A : Allocator) (F : Files) (K : KeepsFiles F) (attr_ok mutex_ok : Bool) where
  open A use {State}

  read_opened-text :
      (h : State) (cfg : FileCfg F) (path text : Bytes) (t q : ℕ) (old : Option CString)
      (f : F.Handle)
      → F.fstat cfg.fs f ≡ some t
      → F.time cfg.fs < t + cfg.expiration
      → (F.flock cfg.fs f).0 ≡ true
      → F.contents (F.flock cfg.fs f).1 f ≡ text
      → (A.alloc h (length text + 1)).0 ≡ some q
      → let g = read_opened A F attr_ok mutex_ok h cfg path old f in
        (g.status ≡ done) × (g.value ≡ some (some (q, c_text (first_line text))))
  unfolding read_opened read_locked
  read_opened-text h cfg path text t q old f stat young held bytes got =
      let fresh : leb (t + cfg.expiration) (F.time cfg.fs) ≡ false = ground arith in
      rw (stat, read_opened, fresh, held, read_locked, ap length bytes, got)
        (refl, ap (λ b. some (some (q, c_text (first_line b)))) bytes)

  read_cache-text :
      (h : State) (cfg : FileCfg F) (path text : Bytes) (t q : ℕ) (old : Option CString)
      (f : F.Handle)
      → K.file cfg.fs path ≡ some (text, t)
      → (F.fopen cfg.fs false path).0 ≡ some f
      → (F.flock (F.fopen cfg.fs false path).1 f).0 ≡ true
      → F.time cfg.fs < t + cfg.expiration
      → (A.alloc h (length text + 1)).0 ≡ some q
      → let g = read_cache A F attr_ok mutex_ok h cfg path old in
        (g.status ≡ done) × (g.value ≡ some (some (q, c_text (first_line text))))
  unfolding read_cache
  read_cache-text h cfg path text t q old f there opened held young got =
      let (stat, now, bytes) = K.read cfg.fs path text t f there opened in
      let (first, fs) = attempt_at_once F 9 cfg.fs false path f opened in
      let opened_cfg : FileCfg F = record cfg { fs = (F.fopen cfg.fs false path).1 } in
      rw (first, read_cache, fs)
        (read_opened-text h opened_cfg path text t q old f stat (omega arith) held bytes got)

  write_opened-file :
      (h : State) (cfg : FileCfg F) (fs : F.Fs) (path value : Bytes) (f : F.Handle)
      → cfg.fs ≡ (F.fopen fs true path).1
      → (F.fopen fs true path).0 ≡ some f
      → (F.flock (F.fopen fs true path).1 f).0 ≡ true
      → let left = write_opened A F attr_ok mutex_ok h cfg value f in
        (left.status ≡ done)
        × (K.file left.cfg.fs path ≡ some (value, F.time (F.flock (F.fopen fs true path).1 f).1))
  unfolding write_opened
  write_opened-file h cfg fs path value f same opened held =
      rw (same, write_opened, held, same) (refl, K.written fs path value f opened)

  file_cache_set-file :
      (dir : Bytes) (cfg : FileCfg F) (h : State) (key value : Bytes) (f : F.Handle)
      → Open A F attr_ok mutex_ok dir unlocked cfg
      → let made_dir = file_cache_mkdir F cfg.fs dir key in
        let fs = (F.fopen made_dir.1 true (path_of dir key)).1 in
        made_dir.0 ≡ true
        → (F.fopen made_dir.1 true (path_of dir key)).0 ≡ some f
        → (F.flock fs f).0 ≡ true
        → Returns
            (λ left.
              (left.status ≡ done)
              × (K.file left.cfg.fs (path_of dir key) ≡ some (value, F.time (F.flock fs f).1)))
            (file_cache_set A F attr_ok mutex_ok h cfg key value)
  unfolding file_cache_set mtx_lock write_cache
  file_cache_set-file dir cfg h key value f (e, m) shard opened held =
      let fs = (file_cache_mkdir F cfg.fs dir key).1 in
      let (first, after) = attempt_at_once F 9 fs true (path_of dir key) f opened in
      rw (e, file_cache_set, m, mtx_lock, shard, write_cache, first)
        (write_opened-file h _ fs (path_of dir key) value f after opened held)

  file_cache_get-text :
      (dir : Bytes) (cfg : FileCfg F) (h : State) (key text : Bytes) (t q : ℕ)
      (old : Option CString) (f : F.Handle)
      → Open A F attr_ok mutex_ok dir unlocked cfg
      → let fs = (F.fopen cfg.fs false (path_of dir key)).1 in
        K.file cfg.fs (path_of dir key) ≡ some (text, t)
        → (F.fopen cfg.fs false (path_of dir key)).0 ≡ some f
        → (F.flock fs f).0 ≡ true
        → F.time cfg.fs < t + cfg.expiration
        → (A.alloc h (length text + 1)).0 ≡ some q
        → Returns
            (λ g. (g.status ≡ done) × (g.value ≡ some (some (q, c_text (first_line text)))))
            (file_cache_get A F attr_ok mutex_ok h cfg key (some old))
  unfolding file_cache_get mtx_lock
  file_cache_get-text dir cfg h key text t q old f (e, m) there opened held young got =
      rw (e, file_cache_get, m, mtx_lock)
        (read_cache-text h (record cfg { mtx = locked }) (path_of dir key) text t q old f there
          opened held young got)

  -- Two processes share a directory and each has a fresh mutex. Where one has stored a value
  -- without a zero byte or an end of line, its directory and its file could be made and locked,
  -- and the other opens and locks the file before it expires and has memory, file_cache_get of the
  -- same key returns 0 and hands out exactly that value.
  pub get_after_set :
      (dir : Bytes) (mine yours : FileCfg F) (h h' : State) (key value : Bytes) (f f' : F.Handle)
      (q : ℕ) (old : Option CString) (left : Left State (FileCfg F))
      → Open A F attr_ok mutex_ok dir unlocked mine
      → Open A F attr_ok mutex_ok dir unlocked yours
      → IsLine value
      → let made_dir = file_cache_mkdir F mine.fs dir key in
        let fs = (F.fopen made_dir.1 true (path_of dir key)).1 in
        made_dir.0 ≡ true
        → (F.fopen made_dir.1 true (path_of dir key)).0 ≡ some f
        → (F.flock fs f).0 ≡ true
        → file_cache_set A F attr_ok mutex_ok h mine key value ≡ returns left
        → yours.fs ≡ left.cfg.fs
        → (F.fopen yours.fs false (path_of dir key)).0 ≡ some f'
        → (F.flock (F.fopen yours.fs false (path_of dir key)).1 f').0 ≡ true
        → F.time yours.fs < F.time (F.flock fs f).1 + yours.expiration
        → (A.alloc h' (length value + 1)).0 ≡ some q
        → Returns
            (λ g. (g.status ≡ done) × (g.value ≡ some (some (q, value))))
            (file_cache_get A F attr_ok mutex_ok h' yours key (some old))
  get_after_set dir mine yours h h' key value f f' q old left o o' line shard opened held ran same
        opened' held' young got =
      let (_, there) =
        Returns-returns _ _ left ran
          (file_cache_set-file dir mine h key value f o shard opened held) in
      subst
        (λ text.
          Returns (λ g. (g.status ≡ done) × (g.value ≡ some (some (q, text))))
            (file_cache_get A F attr_ok mutex_ok h' yours key (some old)))
        (c_text-first_line value line)
        (file_cache_get-text dir yours h' key value _ q old f' o'
          (ap (λ s. K.file s (path_of dir key)) same ∙ there) opened' held' young got)

  read_opened-old :
      (h : State) (cfg : FileCfg F) (path : Bytes) (t : ℕ) (old : Option CString) (f : F.Handle)
      → F.fstat cfg.fs f ≡ some t
      → t + cfg.expiration ≤ F.time cfg.fs
      → let g = read_opened A F attr_ok mutex_ok h cfg path old f in
        (g.status ≡ failed)
        × (g.value ≡ some old)
        × (g.heap ≡ h)
        × (g.cfg.fs ≡ (F.unlink (F.fclose cfg.fs f) path).1)
  unfolding read_opened
  read_opened-old h cfg path t old f stat aged =
      let late : leb (t + cfg.expiration) (F.time cfg.fs) ≡ true = ground arith in
      rw (stat, read_opened, late) (refl, refl, refl, refl)

  -- On an open cache with a free mutex, where the file of a key can be opened and is as old as the
  -- expiration or older, file_cache_get returns -1, leaves the caller's pointer and the heap
  -- alone, and closes and unlinks that file.
  pub file_cache_get_expired :
      (dir : Bytes) (cfg : FileCfg F) (h : State) (key text : Bytes) (t : ℕ) (old : Option CString)
      (f : F.Handle)
      → Open A F attr_ok mutex_ok dir unlocked cfg
      → let fs = (F.fopen cfg.fs false (path_of dir key)).1 in
        K.file cfg.fs (path_of dir key) ≡ some (text, t)
        → (F.fopen cfg.fs false (path_of dir key)).0 ≡ some f
        → t + cfg.expiration ≤ F.time cfg.fs
        → Returns
            (λ g.
              (g.status ≡ failed)
              × (g.value ≡ some old)
              × (g.heap ≡ h)
              × (g.cfg.fs ≡ (F.unlink (F.fclose fs f) (path_of dir key)).1))
            (file_cache_get A F attr_ok mutex_ok h cfg key (some old))
  unfolding file_cache_get mtx_lock read_cache
  file_cache_get_expired dir cfg h key text t old f (e, m) there opened aged =
      let (stat, now, bytes) = K.read cfg.fs (path_of dir key) text t f there opened in
      let (first, fs) = attempt_at_once F 9 cfg.fs false (path_of dir key) f opened in
      let opened_cfg : FileCfg F = record cfg {
        mtx = locked;
        fs = (F.fopen cfg.fs false (path_of dir key)).1;
      } in
      rw (e, file_cache_get, m, mtx_lock, first, read_cache, fs)
        (read_opened-old h opened_cfg (path_of dir key) t old f stat (omega arith))
