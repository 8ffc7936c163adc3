-- ===== src/Tests/Providers.antt =====
-- The theorems on the memory cache over GLib and on the memcached cache.
use mathlib.Core.List.{foldl}
use deviceatlas_cloud_c.Prelude.{
  ◌≡◌, refl, Option, none, some, [], ◌∷◌, Bytes, codes, done, Returns, same_text,
}
use deviceatlas_cloud_c.Cache.{CString, Left}
use deviceatlas_cloud_c.Mutex.{unlocked, locked}
use deviceatlas_cloud_c.MemoryCache.{Entry, find_entry, insert_tail, hash_threshold}
use deviceatlas_cloud_c.GlibCache.{GlibCfg, table_put}
use deviceatlas_cloud_c.GlibCache.Equivalence.{puts-Agree}
use deviceatlas_cloud_c.MemoryCache.Reads.{value_of}
use deviceatlas_cloud_c.Memcached.{MemcachedCfg, memcached_cache_get, memcached_cache_set}
use deviceatlas_cloud_c.Memcached.Clients.{start, then_sets, Keeps, clients_kept}
use deviceatlas_cloud_c.Tests.Samples.{Heap, bump, fresh_heap, small_pool}
use deviceatlas_cloud_c.Tests.Worlds.{table, table_keeps, empty_servers, clients_count}

abbrev entry : Entry
entry = record { key = codes "k"; value = codes "v" }

abbrev other_entry : Entry
other_entry = record { key = codes "k"; value = codes "w" }

puts-Agree_example :
    value_of (
      find_entry
        (codes "k")
        (foldl insert_tail (record { cnt = 0; entries = [] }) (entry ∷ other_entry ∷ [])).entries)
    ≡ some (codes "v")
unfolding table_put find_entry same_text
puts-Agree_example =
    puts-Agree table table_keeps (entry ∷ other_entry ∷ []) (record { cnt = 0; entries = [] }) []
      (λ key. refl) (codes "k")

-- A new cache, with its table.
abbrev new_cache : GlibCfg table
new_cache = record {
  cache_obj = some [];
  threshold = some hash_threshold;
  pool = some small_pool;
  cache_cfg_str = none;
  mtx = unlocked;
}

-- What the first call of set leaves.
abbrev stored : Left Heap (GlibCfg table)
stored = record {
  status = done;
  cfg = record new_cache { cache_obj = some (entry ∷ []); mtx = locked };
  heap = fresh_heap;
}

-- A cache with four free clients.
abbrev connected : MemcachedCfg empty_servers
connected = record {
  memc = some tt;
  cache_obj = some tt;
  cache_cfg_str = none;
  expiration = 60;
  world = 4;
}

-- After a value was stored.
abbrev after_set : Left Heap (MemcachedCfg empty_servers)
after_set = record { status = done; cfg = connected; heap = fresh_heap }

clients_kept_example :
    Keeps bump empty_servers clients_count tt 4 connected
    × ((h : Heap) (key : Bytes) (old : Option CString)
        → Returns
            (λ g. Keeps bump empty_servers clients_count tt 4 g.cfg)
            (memcached_cache_get bump empty_servers h connected key (some old)))
    × ((h : Heap) (key value : Bytes)
        → Returns
            (λ left. Keeps bump empty_servers clients_count tt 4 left.cfg)
            (memcached_cache_set bump empty_servers h connected key value))
unfolding memcached_cache_set
clients_kept_example =
    clients_kept bump empty_servers clients_count connected connected tt 4 (refl, refl)
      (then_sets fresh_heap (codes "k") (codes "v") after_set start refl refl)
