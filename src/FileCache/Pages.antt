-- ===== src/FileCache/Pages.antt =====
-- file_cache_provider.c as built with FILE_CACHE_MMAP, what a get reads of what a set has written.
use deviceatlas_cloud_c.Prelude.{
  ℕ, ◌+◌, ◌%◌, ◌≡◌, ◌≢◌, refl, ap, ◌∙◌, subst, Option, some, [], ◌∷◌, Bool, true, false, Bool-cases,
  inl, inr, ◌==◌, length, All, arith, Bytes, c_text, done, Outcome, returns, crashes, Returns,
  Returns-returns,
}
use deviceatlas_cloud_c.Mem.{Allocator}
use deviceatlas_cloud_c.Cache.{CString, Got, Left}
use deviceatlas_cloud_c.Mutex.{unlocked, locked, mtx_lock}
use deviceatlas_cloud_c.FileCache.{path_of}
use deviceatlas_cloud_c.FileCache.Mapped.{
  MappedFiles, MappedCfg, mapped_text, mapped_mkdir, copy_mapped, read_mapped, mapped_get,
  write_mapped, mapped_set,
}

-- What is relied on: `file` is the text of a path. What is copied into a mapping of a file of that
-- length is its text, and an open file has the text of its path.
pub record KeepsMapped (F : MappedFiles) : Type 0 where
  pub file : F.Fs → Bytes → Option Bytes
  pub written :
      (fs : F.Fs) (path value : Bytes) (f : F.Handle)
      → (F.open_creat fs path).0 ≡ some f
      → let s = F.ftruncate (F.flock (F.open_creat fs path).1 f).1 f (length value) in
        F.mmap s f (length value) ≡ true
        → file (F.close (F.write_at_start s f value) f) path ≡ some value
  pub read :
      (fs : F.Fs) (path text : Bytes) (f : F.Handle)
      → file fs path ≡ some text
      → (F.open_rdonly fs path).0 ≡ some f
      → F.contents (F.flock (F.open_rdonly fs path).1 f).1 f ≡ text

-- A text without a zero byte.
abbrev pub IsText : Bytes → Type 0
IsText = All (λ c. c ≢ 0)

c_text-IsText : (text : Bytes) → IsText text → c_text text ≡ text
unfolding c_text
c_text-IsText [] h = refl
c_text-IsText (c ∷ cs) h = ground (arith, c_text-IsText cs h.1)

module _ (A : Allocator) (F : MappedFiles) (K : KeepsMapped F) where
  open A use {State}

  -- The cache is open, in a directory, and its mutex is free.
  abbrev pub IsReady : Bytes → MappedCfg F → Type 0
  IsReady dir cfg = (cfg.cache_obj ≡ some dir) × (cfg.mtx ≡ unlocked)

  -- What a get comes to, by whether the text ends with a page.
  abbrev pub ReadsBack : Bool → ℕ → Bytes → Outcome (Got State (MappedCfg F)) → Type 0
  ReadsBack true q value r = r ≡ crashes
  ReadsBack false q value r =
      Returns (λ g. (g.status ≡ done) × (g.value ≡ some (some (q, value)))) r

  mapped_text-full :
      (value : Bytes)
      → IsText value
      → (length value % F.page == 0) ≡ true
      → mapped_text F value ≡ crashes
  unfolding mapped_text
  mapped_text-full value text full =
      let whole = c_text-IsText value text in
      let same : (length value == length value) ≡ true = ground arith in
      rw (mapped_text, whole, full, same) refl

  mapped_text-part :
      (value : Bytes)
      → IsText value
      → (length value % F.page == 0) ≡ false
      → mapped_text F value ≡ returns value
  unfolding mapped_text
  mapped_text-part value text part =
      let whole = c_text-IsText value text in rw (mapped_text, part, whole) refl

  read_mapped-ReadsBack :
      (h : State) (cfg : MappedCfg F) (old : Option CString) (f : F.Handle) (value : Bytes) (q : ℕ)
      → IsText value
      → (F.flock cfg.fs f).0 ≡ true
      → F.contents (F.flock cfg.fs f).1 f ≡ value
      → F.mmap (F.flock cfg.fs f).1 f (length value + 1) ≡ true
      → (A.strdup h (length value)).0 ≡ some q
      → ReadsBack (length value % F.page == 0) q value (read_mapped A F h cfg old f)
  unfolding read_mapped mapped_text copy_mapped
  read_mapped-ReadsBack h cfg old f value q text held bytes mapped got =
      elim (Bool-cases (length value % F.page == 0)) [
        | inl full ↦
            rw
              (
                full,
                held,
                read_mapped,
                bytes,
                mapped,
                ap (mapped_text F) bytes ∙ mapped_text-full value text full,
              )
              refl
        | inr part ↦
            rw
              (
                part,
                held,
                read_mapped,
                bytes,
                mapped,
                ap (mapped_text F) bytes ∙ mapped_text-part value text part,
                copy_mapped,
                got,
              )
              (refl, refl)
      ]

  write_mapped-file :
      (h : State) (cfg : MappedCfg F) (fs : F.Fs) (path value : Bytes) (f : F.Handle)
      → cfg.fs ≡ (F.open_creat fs path).1
      → (F.open_creat fs path).0 ≡ some f
      → (write_mapped A F h cfg value f).status ≡ done
      → K.file (write_mapped A F h cfg value f).cfg.fs path ≡ some value
  unfolding write_mapped
  write_mapped-file h cfg fs path value f same opened ok =
      let s = (F.flock cfg.fs f).1 in
      elim (Bool-cases (F.flock cfg.fs f).0) [
        | inr lost ↦ absurd (cc)
        | inl held ↦ elim (Bool-cases (F.mmap (F.ftruncate s f (length value)) f (length value))) [
          | inr lost ↦ absurd (cc)
          | inl mapped ↦
              rw (held, write_mapped, mapped, same)
                (K.written fs path value f opened (
                  subst
                    (λ t.
                      F.mmap (F.ftruncate (F.flock t f).1 f (length value)) f (length value) ≡ true)
                    same mapped))
        ]
      ]

  set-file :
      (dir : Bytes) (cfg : MappedCfg F) (h : State) (key value : Bytes) (f : F.Handle)
      → IsReady dir cfg
      → let fs = (mapped_mkdir F cfg.fs dir key).1 in
        (mapped_mkdir F cfg.fs dir key).0 ≡ true
        → (F.open_creat fs (path_of dir key)).0 ≡ some f
        → Returns
            (λ left. left.status ≡ done → K.file left.cfg.fs (path_of dir key) ≡ some value)
            (mapped_set A F h cfg key value)
  unfolding mapped_set mtx_lock
  set-file dir cfg h key value f (e, m) shard opened =
      let fs = (mapped_mkdir F cfg.fs dir key).1 in
      let opened_cfg : MappedCfg F = record cfg {
        mtx = locked;
        fs = (F.open_creat fs (path_of dir key)).1;
      } in
      rw (e, mapped_set, m, mtx_lock, shard, opened)
        (write_mapped-file h opened_cfg fs (path_of dir key) value f refl opened)

  -- In the build with FILE_CACHE_MMAP, where one process has stored a text with return value 0 and
  -- another, with a fresh mutex, opens, locks and maps the file and has memory, a get of the same
  -- key hands out exactly that text, unless its length is a multiple of the size of a page: then
  -- the get reads behind the mapping and crashes.
  pub mapped_get-set :
      (dir : Bytes) (mine yours : MappedCfg F) (h h' : State) (key value : Bytes) (f f' : F.Handle)
      (q : ℕ) (old : Option CString) (left : Left State (MappedCfg F))
      → IsReady dir mine
      → IsReady dir yours
      → IsText value
      → (mapped_mkdir F mine.fs dir key).0 ≡ true
      → (F.open_creat (mapped_mkdir F mine.fs dir key).1 (path_of dir key)).0 ≡ some f
      → mapped_set A F h mine key value ≡ returns left
      → left.status ≡ done
      → yours.fs ≡ left.cfg.fs
      → (F.open_rdonly yours.fs (path_of dir key)).0 ≡ some f'
      → let fs = (F.open_rdonly yours.fs (path_of dir key)).1 in
        (F.flock fs f').0 ≡ true
        → F.mmap (F.flock fs f').1 f' (length value + 1) ≡ true
        → (A.strdup h' (length value)).0 ≡ some q
        → ReadsBack (length value % F.page == 0) q value (mapped_get A F h' yours key (some old))
  unfolding mapped_get mtx_lock
  mapped_get-set dir mine yours h h' key value f f' q old left o (e, m) text shard opened ran ok
        same opened' held mapped got =
      let there =
        Returns-returns _ _ left ran (set-file dir mine h key value f o shard opened) ok in
      let bytes =
        K.read yours.fs (path_of dir key) value f'
          (ap (λ s. K.file s (path_of dir key)) same ∙ there) opened' in
      rw (e, mapped_get, m, mtx_lock, opened')
        (read_mapped-ReadsBack h'
          (record yours { mtx = locked; fs = (F.open_rdonly yours.fs (path_of dir key)).1 }) old f'
          value q text held bytes mapped got)
