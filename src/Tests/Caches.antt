-- ===== src/Tests/Caches.antt =====
-- The theorems on cache providers at concrete entries.
use deviceatlas_cloud_c.Prelude.{ℕ, refl, none, some, [], ◌∷◌, codes, done, same_text}
use deviceatlas_cloud_c.Mem.{mem_alloc, room, rounded}
use deviceatlas_cloud_c.Membuf.{membuf_alloc, membuf_strdup}
use deviceatlas_cloud_c.Cache.{Got, Left, Ops}
use deviceatlas_cloud_c.MemoryCache.{
  Entry, Cfg, find_entry, hash_threshold, memory_cache_get, memory_cache_set,
}
use deviceatlas_cloud_c.MemoryCache.Refinement.{
  View, got, put, May, Steps, stop, step, gets, sets, Shows, Steps-Shows,
}
use deviceatlas_cloud_c.Tests.Worlds.{endless, endless_never_fails}
use deviceatlas_cloud_c.Tests.Samples.{Heap, fresh_heap, large_pool}

abbrev no_ops : Ops
no_ops = record { id = none; init = none; get = none; set = none; fini = none }

-- A new cache, with its pool.
abbrev new_cache : Cfg
new_cache = record {
  cache_obj = some (record { cnt = 0; entries = [] });
  threshold = some hash_threshold;
  pool = some large_pool;
  cache_cfg_str = none;
}

abbrev entry : Entry
entry = record { key = codes "k"; value = codes "v" }

-- The cache after a first entry, which takes 40 bytes of the pool.
abbrev stored : Left Heap Cfg
stored = record {
  status = done;
  cfg = record new_cache {
    cache_obj = some (record { cnt = 1; entries = entry ∷ [] });
    pool = some (record large_pool {
      dcm = record { node = 1000; block = 1016; p = record { a = 1000; n = 1080; e = 2040 } };
    });
  };
  heap = fresh_heap;
}

-- An abstract cache that holds nothing.
abbrev nothing : View
nothing = record { value = λ key. none; taken = 0 }

abbrev read_back : Got ℕ Cfg
read_back = record { status = done; value = some (some (1, codes "v")); cfg = stored.cfg; heap = 1 }

abbrev stored_endless : Left ℕ Cfg
stored_endless = record { status = done; cfg = stored.cfg; heap = 0 }

Steps-Shows_example :
    (v' : View) × Steps May nothing
      (got (codes "k") (some (codes "v")) ∷ put done (codes "k") (codes "v") ∷ [])
      v'
    × Shows endless endless_never_fails stored.cfg v'
unfolding memory_cache_set membuf_alloc mem_alloc room membuf_strdup rounded memory_cache_get
    find_entry same_text
Steps-Shows_example =
    Steps-Shows endless endless_never_fails new_cache stored.cfg nothing
      (got (codes "k") (some (codes "v")) ∷ put done (codes "k") (codes "v") ∷ [])
      (record { cnt = 0; entries = [] }, refl, (λ key. refl), refl)
      (step (step stop (sets {left = stored_endless} 0 (codes "k") (codes "v") refl))
        (gets {g = read_back} 0 (codes "k") none refl))
