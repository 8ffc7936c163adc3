-- ===== src/Tests/Files.antt =====
-- The theorems on the file cache over a small file system.
use deviceatlas_cloud_c.Prelude.{
  ◌-◌, ◌<◌, ◌≡◌, refl, none, some, [], ◌∷◌, Bytes, true, arith, length, codes, done, Returns,
  same_text,
}
use deviceatlas_cloud_c.Mem.{mem_alloc, room, rounded}
use deviceatlas_cloud_c.Membuf.{membuf_create, membuf_alloc, newsize}
use deviceatlas_cloud_c.Cache.{Left}
use deviceatlas_cloud_c.Mutex.{unset, unlocked, locked}
use deviceatlas_cloud_c.FileCache.{
  FileCfg, file_cache_mkdir, path_of, path_max, is_usable_dir, file_cache_init, file_cache_get,
  file_cache_set,
}
use deviceatlas_cloud_c.FileCache.Paths.{path_of_bound}
use deviceatlas_cloud_c.FileCache.Reads.{get_after_set}
use deviceatlas_cloud_c.FileCache.Locked.{Open}
use deviceatlas_cloud_c.FileCache.Opening.{file_cache_init-Open}
use deviceatlas_cloud_c.FileCache.Mapped.{MappedCfg, mapped_mkdir, mapped_get, mapped_set}
use deviceatlas_cloud_c.FileCache.Pages.{mapped_get-set}
use deviceatlas_cloud_c.Tests.Samples.{Heap, bump, fresh_heap, small_pool}
use deviceatlas_cloud_c.Tests.Worlds.{
  Disk, store, disk, disk_keeps, Pages, put_page, mapped_disk, mapped_disk_keeps,
}

path_of_bound_example : length (path_of (codes "/tmp") (codes "ab12")) < path_max
path_of_bound_example = path_of_bound (codes "/tmp") (codes "ab12") (omega arith) (omega arith)

-- Nothing is on the disk at the time 100.
abbrev empty_disk : Disk
empty_disk = (100, λ path. none)

abbrev opened_on : Disk → FileCfg disk
opened_on d = record {
  cache_obj = some (codes "/tmp");
  pool = some small_pool;
  cache_cfg_str = some (codes "/tmp");
  expiration = 60;
  mtx = unlocked;
  fs = d;
}

abbrev key : Bytes
key = codes "ab12"

abbrev answer : Bytes
answer = codes "text"

abbrev written : Disk
written =
    store (store empty_disk (path_of (codes "/tmp") key) []) (path_of (codes "/tmp") key) answer

-- What the first call of set leaves.
abbrev stored : Left Heap (FileCfg disk)
stored = record {
  status = done;
  cfg = record (opened_on empty_disk) { mtx = locked; fs = written };
  heap = fresh_heap;
}

get_after_set_example :
    Returns
      (λ g. (g.status ≡ done) × (g.value ≡ some (some (4096, answer))))
      (file_cache_get bump disk true true fresh_heap (opened_on written) key (some none))
unfolding file_cache_mkdir file_cache_set same_text
get_after_set_example =
    get_after_set bump disk disk_keeps true true (codes "/tmp") (opened_on empty_disk)
      (opened_on written) fresh_heap fresh_heap key answer (path_of (codes "/tmp") key)
      (path_of (codes "/tmp") key) 4096 none stored (refl, refl) (refl, refl) (ground arith) refl
      refl refl refl refl refl refl (omega arith) refl

-- A file that was written at the time 100, at the time 160.
abbrev later : Disk
later = (160, written.1)

-- A cache that is not opened yet.
abbrev unopened : FileCfg disk
unopened = record (opened_on empty_disk) { cache_obj = none; pool = none; mtx = unset }

-- The same after its init: the block for the directory's struct does not fit into the first block
-- of the pool.
abbrev opened : Left Heap (FileCfg disk)
opened = record {
  status = done;
  cfg = record (opened_on empty_disk) {
    pool = some (record {
      before =
          record { node = 4096; block = 4112; p = record { a = 4096; n = 4136; e = 8232 } } ∷ [];
      dcm = record { node = 8232; block = 8248; p = record { a = 10240; n = 12368; e = 18512 } };
    });
  };
  heap = (18512, 8248 ∷ 8232 ∷ 4112 ∷ 4096 ∷ []);
}

file_cache_init-Open_example :
    Open bump disk true true (codes "/tmp") unlocked opened.cfg
    × (0 < length (codes "/tmp"))
    × (length (codes "/tmp") < path_max - 67)
    × (is_usable_dir (disk.stat empty_disk (codes "/tmp")) ≡ true)
unfolding file_cache_init membuf_create membuf_alloc mem_alloc room newsize rounded
file_cache_init-Open_example =
    file_cache_init-Open bump disk true true fresh_heap unopened (codes "/tmp") opened refl refl
      refl

-- A cache of mapped files in a directory that is empty.
abbrev mapped_on : Pages → MappedCfg mapped_disk
mapped_on d = record { cache_obj = some (codes "/tmp"); mtx = unlocked; fs = d }

abbrev mapped_written : Pages
mapped_written = put_page (λ path. none) (path_of (codes "/tmp") key) answer

abbrev mapped_stored : Left Heap (MappedCfg mapped_disk)
mapped_stored = record {
  status = done;
  cfg = record (mapped_on mapped_written) { mtx = locked };
  heap = fresh_heap;
}

mapped_get-set_example :
    Returns
      (λ g. (g.status ≡ done) × (g.value ≡ some (some (4096, answer))))
      (mapped_get bump mapped_disk fresh_heap (mapped_on mapped_written) key (some none))
unfolding mapped_mkdir mapped_set
mapped_get-set_example =
    mapped_get-set bump mapped_disk mapped_disk_keeps (codes "/tmp") (mapped_on (λ path. none))
      (mapped_on mapped_written) fresh_heap fresh_heap key answer (path_of (codes "/tmp") key)
      (path_of (codes "/tmp") key) 4096 none mapped_stored (refl, refl) (refl, refl) (ground arith)
      refl refl refl refl refl refl refl refl refl
