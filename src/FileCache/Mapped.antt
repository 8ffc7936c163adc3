-- ===== src/FileCache/Mapped.antt =====
-- file_cache_provider.c as built with FILE_CACHE_MMAP: get and set over mapped files. The other three
-- functions are those of the build without it.
use deviceatlas_cloud_c.Prelude.{
  ℕ, ◌+◌, ◌%◌, Option, none, some, Bool, true, false, ◌&&◌, ◌==◌, if◌then◌else◌, length, Bytes,
  c_text, Status, done, failed, Outcome, returns, crashes, ◌>>=◌,
}
use deviceatlas_cloud_c.Mem.{Allocator}
use deviceatlas_cloud_c.Cache.{CString, Got, Left}
use deviceatlas_cloud_c.Mutex.{Mutex, mtx_lock, mtx_unlock}
use deviceatlas_cloud_c.FileCache.{path_of, Made, made, existing, denied, shard_of}

-- What get and set use of the system. `open_rdonly` and `open_creat` are the two calls of open,
-- `mmap` says whether so many bytes could be mapped, `contents` are the bytes of an open file, and
-- `write_at_start` what a memcpy into a shared mapping does to it. A page has `page` bytes;
-- `stray_unlock` is as in `Files`.
pub record MappedFiles : Type 1 where
  pub Fs : Type 0
  pub Handle : Type 0
  pub page : ℕ
  pub mkdir : Fs → Bytes → Made × Fs
  pub open_rdonly : Fs → Bytes → Option Handle × Fs
  pub open_creat : Fs → Bytes → Option Handle × Fs
  pub flock : Fs → Handle → Bool × Fs
  pub contents : Fs → Handle → Bytes
  pub mmap : Fs → Handle → ℕ → Bool
  pub ftruncate : Fs → Handle → ℕ → Fs
  pub write_at_start : Fs → Handle → Bytes → Fs
  pub close : Fs → Handle → Fs
  pub stray_unlock : Mutex → Mutex

module _ (F : MappedFiles) where
  open F use {Fs, mkdir}

  -- The fields of struct da_cloud_cache_cfg that get and set use, and the file system.
  pub record MappedCfg : Type 0 where
    pub cache_obj : Option Bytes
    pub mtx : Mutex
    pub fs : Fs

  -- The text that strdup reads in a mapping of the whole file and one byte more. Behind the file's
  -- last byte the page is full of zeros; where that byte ends a page, there is nothing to read.
  unfoldable pub mapped_text : Bytes → Outcome Bytes
  mapped_text bytes =
      if length bytes % F.page == 0 && length (c_text bytes) == length bytes
      then crashes
      else returns (c_text bytes)

  -- file_cache_mkdir with `creat`.
  unfoldable pub mapped_mkdir : Fs → Bytes → Bytes → Bool × Fs
  unfolding shard_of
  mapped_mkdir fs dir key =
      let (r, fs') = mkdir fs (shard_of dir key) in
      elim r [ made ↦ (true, fs') | existing ↦ (true, fs') | denied ↦ (false, fs') ]

module _ (A : Allocator) (F : MappedFiles) where
  open A use {State, strdup}
  open F use {
    Fs, Handle, open_rdonly, open_creat, flock, contents, mmap, ftruncate, write_at_start, close,
  }

  abbrev pub mapped_miss : State → MappedCfg F → Option CString → Fs → Got State (MappedCfg F)
  mapped_miss h cfg value fs = record {
    status = failed;
    value = some value;
    cfg = record cfg { mtx = mtx_unlock F.stray_unlock cfg.mtx; fs = fs };
    heap = h;
  }

  -- The copy of the mapped text. The mapping stays where there is no memory for it.
  unfoldable pub copy_mapped : State → MappedCfg F → Handle → Bytes → Got State (MappedCfg F)
  unfolding mtx_unlock
  copy_mapped h cfg f text =
      let (p, h') = strdup h (length text) in
      elim p [
        | none ↦ mapped_miss h' cfg none (close cfg.fs f)
        | some q ↦ record {
          status = done;
          value = some (some (q, text));
          cfg = record cfg { mtx = mtx_unlock F.stray_unlock cfg.mtx; fs = close cfg.fs f };
          heap = h';
        }
      ]

  -- From the lock on the file on. The file is closed with its lock, which ends it.
  unfoldable pub read_mapped :
      State → MappedCfg F → Option CString → Handle → Outcome (Got State (MappedCfg F))
  unfolding copy_mapped mapped_text mtx_unlock
  read_mapped h cfg old f =
      let (got, fs) = flock cfg.fs f in
      let bytes = contents fs f in
      elim got [
        | false ↦ returns (mapped_miss h cfg old (close fs f))
        | true ↦ elim (mmap fs f (length bytes + 1)) [
          | false ↦ returns (mapped_miss h cfg old (close fs f))
          | true ↦ do
            text ← mapped_text F bytes
            returns (copy_mapped h (record cfg { fs = fs }) f text)
        ]
      ]

  unfoldable pub mapped_get :
      State → MappedCfg F → Bytes → Option (Option CString) → Outcome (Got State (MappedCfg F))
  unfolding path_of mtx_lock read_mapped mtx_unlock
  mapped_get h cfg key none =
      returns (record { status = failed; value = none; cfg = cfg; heap = h })
  mapped_get h cfg key (some old) = elim cfg.cache_obj [
    | none ↦ returns (record { status = failed; value = some old; cfg = cfg; heap = h })
    | some dir ↦ do
      m ← mtx_lock cfg.mtx
      let (cachefd, fs) = open_rdonly cfg.fs (path_of dir key)
      elim cachefd [
        | none ↦ returns (mapped_miss h (record cfg { mtx = m }) old fs)
        | some f ↦ read_mapped h (record cfg { mtx = m; fs = fs }) old f
      ]
  ]

  abbrev pub mapped_leave : State → MappedCfg F → Status → Fs → Left State (MappedCfg F)
  mapped_leave h cfg status fs = record {
    status = status;
    cfg = record cfg { mtx = mtx_unlock F.stray_unlock cfg.mtx; fs = fs };
    heap = h;
  }

  -- From the lock on the file on.
  unfoldable pub write_mapped : State → MappedCfg F → Bytes → Handle → Left State (MappedCfg F)
  unfolding mtx_unlock
  write_mapped h cfg value f =
      let (got, fs) = flock cfg.fs f in
      let fs' = ftruncate fs f (length value) in
      elim got [
        | false ↦ mapped_leave h cfg failed (close fs f)
        | true ↦ elim (mmap fs' f (length value)) [
          | false ↦ mapped_leave h cfg failed (close fs' f)
          | true ↦ mapped_leave h cfg done (close (write_at_start fs' f value) f)
        ]
      ]

  unfoldable pub mapped_set :
      State → MappedCfg F → Bytes → Bytes → Outcome (Left State (MappedCfg F))
  unfolding path_of mtx_lock mapped_mkdir write_mapped mtx_unlock
  mapped_set h cfg key value = elim cfg.cache_obj [
    | none ↦ returns (record { status = failed; cfg = cfg; heap = h })
    | some dir ↦ do
      m ← mtx_lock cfg.mtx
      let (is_there, fs) = mapped_mkdir F cfg.fs dir key
      let (cachefd, fs') = open_creat fs (path_of dir key)
      elim is_there [
        | false ↦ returns (mapped_leave h (record cfg { mtx = m }) done fs)
        | true ↦ elim cachefd [
          | none ↦ returns (mapped_leave h (record cfg { mtx = m }) failed fs')
          | some f ↦ returns (write_mapped h (record cfg { mtx = m; fs = fs' }) value f)
        ]
      ]
  ]
