-- ===== src/Tests/Program.antt =====
-- The theorems on the blocks of a client and of dacloud_batch.c, with memory_cache_provider.c under
-- every name.
use native.Mathlib.Decide.{ℕ_discrete}
use deviceatlas_cloud_c.Prelude.{
  ℕ, ◌≤◌, ◌≡◌, refl, none, some, List, [], ◌∷◌, ◌++◌, Perm, true, false, length, Bytes, codes, ℤ,
  pos, done, returns, Ensures, same_text_nocase, print_int,
}
use deviceatlas_cloud_c.Mem.{mem_alloc, room, rounded}
use deviceatlas_cloud_c.Membuf.{membuf_create, membuf_alloc}
use deviceatlas_cloud_c.MemoryCache.{memory_cache_init, threshold_of}
use deviceatlas_cloud_c.Ranking.{servers_fireup}
use deviceatlas_cloud_c.Mem.Default.{default_realloc, default_lawful, default_allocator_lawful}
use deviceatlas_cloud_c.Cache.{Provider, memory, all_of, cache_set}
use deviceatlas_cloud_c.MemoryCache.Life.{memory_plugin, memory_plugin_blocks}
use deviceatlas_cloud_c.Config.{stderr, Plugin, Platform, Settings}
use deviceatlas_cloud_c.Client.Life.{PluginBlocks}
use deviceatlas_cloud_c.Client.Closing.{init-fini}
use deviceatlas_cloud_c.Client.{Inited, init, fini}
use deviceatlas_cloud_c.Examples.Batch.{run_rounds}
use deviceatlas_cloud_c.Examples.Batch.Program.{program-balanced}
use deviceatlas_cloud_c.Tests.Samples.{sum_bytes}
use deviceatlas_cloud_c.Tests.Ranking.{insertion_sort, probed, sort-Perm}
use deviceatlas_cloud_c.Tests.Clients.{near}
use deviceatlas_cloud_c.Tests.Libc.{libc, libc_lawful}
use deviceatlas_cloud_c.Tests.Blocks.{heap_functions, answering, answering-HasPieces, input}

abbrev plugin : Provider → Plugin heap_functions
plugin p = memory_plugin heap_functions 7

abbrev plugin_blocks :
    (p : Provider) → PluginBlocks heap_functions (default_lawful libc libc_lawful) (plugin p)
plugin_blocks p =
    memory_plugin_blocks heap_functions (default_lawful libc libc_lawful)
      (default_allocator_lawful libc libc_lawful).0 (default_allocator_lawful libc libc_lawful).1 7

abbrev settings : Settings
settings = record {
  error_path = none;
  licence_key = some (codes "key");
  cache_type = some (codes "memory");
  cache_config = some (codes "200");
  manual_ranking = none;
  servers = some (near ∷ []);
}

abbrev platform : Platform
platform = record { read_file = λ path. some settings; fopen_append = λ path. true }

-- What da_cloud_init leaves.
abbrev opened : Inited heap_functions plugin true platform probed insertion_sort
opened = record {
  status = done;
  config = record {
    shead = record {
      self = 4097;
      array = some 8270;
      servers =
          record {
            response_time = pos 7;
            host = codes "http://near.example";
            port = 8080;
            blocks = some (8279, 8304);
          }
          ∷ [];
      dservers = false;
    };
    efp = stderr;
    licence_key = some (4122, codes "key");
    manual_ranking = false;
    cops = all_of memory;
    provider = memory;
    cache_cfg = record {
      cache_obj = some (record { cnt = 7; entries = [] });
      threshold = some 200;
      pool = some (record {
        before = [];
        dcm = record { node = 4132; block = 4149; p = record { a = 4096; n = 4201; e = 8269 } };
      });
      cache_cfg_str = some (codes "200");
    };
  };
  net = [];
  heap = (8324, 8304 ∷ 8279 ∷ 8270 ∷ 4149 ∷ 4132 ∷ 4122 ∷ 4097 ∷ []);
}

init_opened :
    init heap_functions plugin true platform probed insertion_sort
      (4096, [])
      (some (200, 7) ∷ [])
      none
      false
      (codes "da.cfg")
    ≡ returns (some opened)
unfolding init all_of cache_set same_text_nocase memory_cache_init membuf_create membuf_alloc
    mem_alloc room rounded default_realloc servers_fireup threshold_of ℕ_discrete
init_opened = refl

init-fini_example :
    Ensures
      (λ s'. Perm s'.1 [])
      (fini heap_functions plugin true platform probed insertion_sort opened.heap opened.config)
init-fini_example =
    init-fini heap_functions plugin true platform probed insertion_sort
      (default_lawful libc libc_lawful) (default_allocator_lawful libc libc_lawful).0
      (default_allocator_lawful libc libc_lawful).1 plugin_blocks sort-Perm (4096, [])
      (some (200, 7) ∷ []) none false (codes "da.cfg") opened init_opened refl

-- Microseconds, in place of printf of a double.
abbrev print_microseconds : ℤ → Bytes
print_microseconds = print_int

program-balanced_example :
    Ensures
      (λ left. (lost : List ℕ) × (length lost ≤ 3) × Perm left.0.1 (lost ++ []))
      (run_rounds heap_functions sum_bytes plugin true platform probed insertion_sort answering
        print_microseconds opened.heap 0 opened.config input)
program-balanced_example =
    program-balanced heap_functions sum_bytes plugin true platform probed insertion_sort
      (default_lawful libc libc_lawful) (default_allocator_lawful libc libc_lawful).0
      (default_allocator_lawful libc libc_lawful).1 plugin_blocks sort-Perm answering
      answering-HasPieces print_microseconds (4096, []) (some (200, 7) ∷ []) 0 (codes "da.cfg")
      input opened init_opened refl
