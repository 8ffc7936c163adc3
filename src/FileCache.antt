-- ===== src/FileCache.antt =====
-- file_cache_provider.c: a provider that keeps each answer in a file, as built without
-- FILE_CACHE_MMAP. The file system and the clock are the parameter `Files`.
pub mod Paths
pub mod Locked
pub mod Reads
pub mod Opening
pub mod Mapped
pub mod Pages
use deviceatlas_cloud_c.Prelude.{
  ℕ, zero, suc, ◌+◌, ◌-◌, ◌*◌, Option, none, some, List, [], ◌∷◌, ◌++◌, Bool, true, false, ◌&&◌,
  ◌||◌, not, leb, ◌==◌, if◌then◌else◌, length, take, drop, Bytes, codes, c_text, Status, done,
  failed, Outcome, returns, crashes, ◌>>=◌,
}
use deviceatlas_cloud_c.Mem.{Allocator}
use deviceatlas_cloud_c.Membuf.{Pool, Grant, nodes, membuf_create, membuf_alloc, membuf_free}
use deviceatlas_cloud_c.Header.{pool_fuel}
use deviceatlas_cloud_c.Cache.{CString, Got, Left, CacheOps}
use deviceatlas_cloud_c.Mutex.{Mutex, mtx_init, mtx_lock, mtx_unlock, mtx_dispose}

-- st_mode
pub record Mode : Type 0 where
  pub is_dir : Bool
  pub w_usr : Bool
  pub w_grp : Bool
  pub w_oth : Bool

-- What mkdir comes to: done, EEXIST, or another error.
pub data Made : Type 0 where
  made existing denied : Made

-- What the provider uses of the system. `fopen` takes whether it writes, and then empties the file;
-- `fstat` gives the time of the last change; `contents` are the bytes of an open file.
-- `stray_unlock` is what becomes of the configuration's mutex at the unlock of another one that was
-- never initialised.
pub record Files : Type 1 where
  pub Fs : Type 0
  pub Handle : Type 0
  pub time : Fs → ℕ
  pub stat : Fs → Bytes → Option Mode
  pub mkdir : Fs → Bytes → Made × Fs
  pub fopen : Fs → Bool → Bytes → Option Handle × Fs
  pub fstat : Fs → Handle → Option ℕ
  pub flock : Fs → Handle → Bool × Fs
  pub contents : Fs → Handle → Bytes
  pub fwrite : Fs → Handle → Bytes → Fs
  pub funlock : Fs → Handle → Fs
  pub fclose : Fs → Handle → Fs
  pub unlink : Fs → Bytes → Bool × Fs
  pub stray_unlock : Mutex → Mutex

abbrev pub path_max : ℕ
path_max = 4096

-- What file_cache_mkdir leaves in `dir`: the directory, one for the key's first byte, and the rest.
unfoldable pub path_of : Bytes → Bytes → Bytes
path_of dir key = (dir ++ (codes "/" ++ take 1 key)) ++ (codes "/" ++ drop 1 key)

-- The directory that it makes.
unfoldable pub shard_of : Bytes → Bytes → Bytes
shard_of dir key = dir ++ (codes "/" ++ take 1 key)

-- What fgets keeps of a file: up to the end of the first line, that included.
unfoldable pub first_line : Bytes → Bytes
first_line [] = []
first_line (c ∷ cs) = let rest = first_line cs in if c == 10 then c ∷ [] else c ∷ rest

-- S_ISDIR, and one of the three bits for writing.
unfoldable pub is_usable_dir : Option Mode → Bool
is_usable_dir none = false
is_usable_dir (some m) = m.is_dir && (m.w_usr || m.w_grp || m.w_oth)

abbrev pub attempts : ℕ
attempts = 10

module _ (F : Files) where
  open F use {
    Fs, Handle, time, stat, mkdir, fopen, fstat, flock, contents, fwrite, funlock, fclose, unlink,
  }

  -- The fields of struct da_cloud_cache_cfg that the provider uses, and the file system; `cache_obj`
  -- is the text `dir` of struct file_cache_cfg.
  pub record FileCfg : Type 0 where
    pub cache_obj : Option Bytes
    pub pool : Option Pool
    pub cache_cfg_str : Option Bytes
    pub expiration : ℕ
    pub mtx : Mutex
    pub fs : Fs

  -- FILE_CACHE_ATTEMPT, with the attempts that are left.
  unfoldable pub file_cache_attempt : ℕ → Fs → Bool → Bytes → Option Handle × Fs
  file_cache_attempt zero fs writes dir = (none, fs)
  file_cache_attempt (suc i) fs writes dir =
      let (cache, fs') = fopen fs writes dir in
      let again = file_cache_attempt i fs' writes dir in
      elim cache [ some f ↦ (some f, fs') | none ↦ again ]

  -- file_cache_mkdir with `creat`: `false` is the return of -1.
  unfoldable pub file_cache_mkdir : Fs → Bytes → Bytes → Bool × Fs
  unfolding shard_of
  file_cache_mkdir fs dir key =
      let (r, fs') = mkdir fs (shard_of dir key) in
      elim r [ made ↦ (true, fs') | existing ↦ (true, fs') | denied ↦ (false, fs') ]

module _ (A : Allocator) (F : Files) (attr_ok mutex_ok : Bool) where
  open A use {State, alloc}
  open F use {
    Fs, Handle, time, stat, mkdir, fopen, fstat, flock, contents, fwrite, funlock, fclose, unlink,
  }

  abbrev pub refuse : State → FileCfg F → Outcome (Left State (FileCfg F))
  refuse h cfg = returns (record { status = failed; cfg = cfg; heap = h })

  -- From the test of the pointer `fcfg` on.
  unfoldable pub keep_dir : FileCfg F → Bytes → Grant A → Outcome (Left State (FileCfg F))
  unfolding mtx_init
  keep_dir cfg text g = elim g.region [
    | none ↦ refuse g.heap (record cfg { pool = some g.pool })
    | some _ ↦ elim (mtx_init attr_ok mutex_ok) [
      | none ↦ refuse g.heap (record cfg { pool = some g.pool; cache_obj = some text })
      | some m ↦ returns (record {
        status = done;
        cfg = record cfg { pool = some g.pool; cache_obj = some text; mtx = m };
        heap = g.heap;
      })
    ]
  ]

  -- From the creation of the pool on.
  unfoldable pub open_dir : State → FileCfg F → Bytes → Outcome (Left State (FileCfg F))
  unfolding keep_dir
  open_dir h cfg text =
      let (dcm, h') = membuf_create A h (1024 * 4) in
      elim dcm [
        | none ↦ refuse h' (record cfg { pool = none })
        | some d ↦ do
          g ← membuf_alloc A pool_fuel h' (record { before = []; dcm = d }) path_max
          keep_dir cfg text g
      ]

  -- strlen of a null pointer is undefined.
  unfoldable pub file_cache_init : State → FileCfg F → Outcome (Left State (FileCfg F))
  unfolding is_usable_dir open_dir
  file_cache_init h old = elim old.cache_cfg_str [
    | none ↦ crashes
    | some text ↦
        let cfg = record old { cache_obj = none } in
        let opened = open_dir h cfg text in
        if length text == 0
          || leb (path_max - 67) (length text)
          || not (is_usable_dir (stat cfg.fs text))
        then refuse h cfg
        else opened
  ]

  abbrev pub miss : State → FileCfg F → Option CString → Fs → Got State (FileCfg F)
  miss h cfg value fs = record {
    status = failed;
    value = some value;
    cfg = record cfg { mtx = mtx_unlock F.stray_unlock cfg.mtx; fs = fs };
    heap = h;
  }

  -- From the lock on the file on.
  unfoldable pub read_locked : State → FileCfg F → Option CString → Handle → Got State (FileCfg F)
  unfolding first_line mtx_unlock
  read_locked h cfg old f =
      let (got, fs) = flock cfg.fs f in
      let bytes = contents fs f in
      let (p, h') = alloc h (length bytes + 1) in
      elim got [
        | false ↦ miss h cfg old (fclose fs f)
        | true ↦ elim p [
          | none ↦ miss h' cfg none (fclose fs f)
          | some q ↦ record {
            status = done;
            value = some (some (q, c_text (first_line bytes)));
            cfg = record cfg {
              mtx = mtx_unlock F.stray_unlock cfg.mtx;
              fs = fclose (funlock fs f) f;
            };
            heap = h';
          }
        ]
      ]

  -- From fstat on. Times and the expiration are far below 2 ^ 63, where the cast to time_t changes
  -- nothing.
  unfoldable pub read_opened :
      State → FileCfg F → Bytes → Option CString → Handle → Got State (FileCfg F)
  unfolding read_locked
  read_opened h cfg dir old f = elim (fstat cfg.fs f) [
    | none ↦ miss h cfg old (fclose cfg.fs f)
    | some st_mtime ↦
        if leb (st_mtime + cfg.expiration) (time cfg.fs)
        then miss h cfg old (unlink (fclose cfg.fs f) dir).1
        else read_locked h cfg old f
  ]

  -- The body under the lock.
  unfoldable pub read_cache : State → FileCfg F → Bytes → Option CString → Got State (FileCfg F)
  unfolding file_cache_attempt read_opened
  read_cache h cfg dir old =
      let (cache, fs) = file_cache_attempt F attempts cfg.fs false dir in
      elim cache [
        | none ↦ miss h cfg old fs
        | some f ↦ read_opened h (record cfg { fs = fs }) dir old f
      ]

  unfoldable pub file_cache_get :
      State → FileCfg F → Bytes → Option (Option CString) → Outcome (Got State (FileCfg F))
  unfolding path_of mtx_lock read_cache
  file_cache_get h cfg key none =
      returns (record { status = failed; value = none; cfg = cfg; heap = h })
  file_cache_get h cfg key (some old) = elim cfg.cache_obj [
    | none ↦ returns (record { status = failed; value = some old; cfg = cfg; heap = h })
    | some dir ↦ do
      m ← mtx_lock cfg.mtx
      returns (read_cache h (record cfg { mtx = m }) (path_of dir key) old)
  ]

  abbrev pub leave : State → FileCfg F → Status → Fs → Left State (FileCfg F)
  leave h cfg status fs = record {
    status = status;
    cfg = record cfg { mtx = mtx_unlock F.stray_unlock cfg.mtx; fs = fs };
    heap = h;
  }

  -- From the lock on the file on.
  unfoldable pub write_opened : State → FileCfg F → Bytes → Handle → Left State (FileCfg F)
  unfolding mtx_unlock
  write_opened h cfg value f =
      let (got, fs) = flock cfg.fs f in
      elim got [
        | false ↦ leave h cfg failed (fclose fs f)
        | true ↦ leave h cfg done (fclose (funlock (fwrite fs f value) f) f)
      ]

  -- The body under the lock. Where the directory cannot be made it returns 0.
  unfoldable pub write_cache : State → FileCfg F → Bytes → Bytes → Bytes → Left State (FileCfg F)
  unfolding file_cache_mkdir file_cache_attempt path_of write_opened
  write_cache h cfg dir key value =
      let (is_there, fs) = file_cache_mkdir F cfg.fs dir key in
      let (cache, fs') = file_cache_attempt F attempts fs true (path_of dir key) in
      elim is_there [
        | false ↦ leave h cfg done fs
        | true ↦ elim cache [
          | none ↦ leave h cfg failed fs'
          | some f ↦ write_opened h (record cfg { fs = fs' }) value f
        ]
      ]

  unfoldable pub file_cache_set :
      State → FileCfg F → Bytes → Bytes → Outcome (Left State (FileCfg F))
  unfolding mtx_lock write_cache
  file_cache_set h cfg key value = elim cfg.cache_obj [
    | none ↦ returns (record { status = failed; cfg = cfg; heap = h })
    | some dir ↦ do
      m ← mtx_lock cfg.mtx
      returns (write_cache h (record cfg { mtx = m }) dir key value)
  ]

  unfoldable pub file_cache_fini : State → FileCfg F → Outcome (Left State (FileCfg F))
  unfolding mtx_dispose
  file_cache_fini h cfg = returns (record {
    status = done;
    cfg = record cfg { mtx = mtx_dispose cfg.mtx };
    heap = elim cfg.pool [ none ↦ h | some pool ↦ membuf_free A h (nodes pool) ];
  })

  -- The five functions of the provider.
  abbrev pub file_cache : CacheOps A
  file_cache = record {
    Cfg = FileCfg F;
    id = codes "file";
    init = file_cache_init;
    get = file_cache_get;
    set = file_cache_set;
    fini = file_cache_fini;
  }
