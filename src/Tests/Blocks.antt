-- ===== src/Tests/Blocks.antt =====
-- The theorems on the blocks of detections, over the default allocator and memory_cache_provider.c.
use mathlib.Core.List.Perm
use deviceatlas_cloud_c.Prelude.{
  ℕ, ◌≤◌, List, [], ◌∷◌, ◌++◌, Perm, true, length, arith, Bytes, codes, Ensures,
}
use deviceatlas_cloud_c.Mem.{Allocator}
use deviceatlas_cloud_c.Mem.Default.{default_allocator, default_lawful, default_allocator_lawful}
use deviceatlas_cloud_c.Membuf.Leaks.{footprint}
use deviceatlas_cloud_c.MemoryCache.{memory_cache}
use deviceatlas_cloud_c.MemoryCache.Blocks.{owned_blocks, memory_cache_keeps_blocks}
use deviceatlas_cloud_c.Detect.{Services, detect}
use deviceatlas_cloud_c.Detect.Answer.{json_string}
use deviceatlas_cloud_c.Detect.FetchBlocks.{HasPieces}
use deviceatlas_cloud_c.Detect.Balance.{after_free, detect-balanced}
use deviceatlas_cloud_c.Examples.Batch.{Streams}
use deviceatlas_cloud_c.Tests.Samples.{Heap, no_headers}
use deviceatlas_cloud_c.Tests.Detections.{body, first_server}
use deviceatlas_cloud_c.Tests.Again.{empty_cache}
use deviceatlas_cloud_c.Tests.Libc.{libc, libc_lawful}

-- Every transfer brings the same body.
abbrev pub answering : Services
answering = record {
  Net = ℕ;
  easy_init = λ net. (true, net);
  perform = λ net url lines. (body, true, net);
  json_loads = λ text. record {
    error_text = [];
    properties = (codes "model", json_string (codes "N9")) ∷ [];
  };
}

pub answering-HasPieces : HasPieces answering
answering-HasPieces net url lines = (omega arith, (omega arith, tt))

abbrev pub heap_functions : Allocator
heap_functions = default_allocator libc

-- The blocks of the cache's pool.
abbrev pool_heap : Heap
pool_heap = (4096, 1016 ∷ 1000 ∷ [])

pool_only : Perm (1016 ∷ 1000 ∷ []) (owned_blocks empty_cache ++ [])
unfolding footprint
pool_only = Perm.rfl

detect-balanced_example :
    Ensures
      (λ r.
        (lost : List ℕ) × (length lost ≤ 1)
        × Perm (after_free heap_functions r.heap r.phead).1 (lost ++ (owned_blocks r.cfg ++ [])))
      (detect heap_functions
        (memory_cache heap_functions 7)
        answering
        pool_heap
        empty_cache
        0
        no_headers
        (codes "key")
        (first_server ∷ [])
        true)
detect-balanced_example =
    detect-balanced heap_functions (default_lawful libc libc_lawful)
      (default_allocator_lawful libc libc_lawful).0 (default_allocator_lawful libc libc_lawful).1
      (memory_cache heap_functions 7)
      (memory_cache_keeps_blocks heap_functions (default_lawful libc libc_lawful)
        (default_allocator_lawful libc libc_lawful).0 (default_allocator_lawful libc libc_lawful).1
        7)
      answering answering-HasPieces pool_heap empty_cache 0 no_headers (codes "key")
      (first_server ∷ []) true [] pool_only

-- Two lines, the first with a quote in front, and a blank one.
abbrev pub input : List Bytes
input = (34 ∷ codes "iPhone" ++ 34 ∷ 10 ∷ []) ∷ (codes "Dalvik" ++ 10 ∷ []) ∷ (10 ∷ []) ∷ []

abbrev nothing_printed : Streams
nothing_printed = record { out = []; err = [] }
