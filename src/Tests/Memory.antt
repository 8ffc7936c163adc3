-- ===== src/Tests/Memory.antt =====
-- The theorems on blocks and pools at concrete requests.
use deviceatlas_cloud_c.Prelude.{ℕ, ◌<◌, ◌≡◌, some, [], ◌∷◌, Perm, arith, Returns}
use deviceatlas_cloud_c.Mem.{Mem, mem_alloc}
use deviceatlas_cloud_c.Mem.Bounds.{Stacked, mem_alloc_each, mem_alloc_each-Stacked}
use deviceatlas_cloud_c.Mem.Overrun.{mem_alloc_overrun}
use deviceatlas_cloud_c.Membuf.{membuf_alloc}
use deviceatlas_cloud_c.Membuf.Growth.{Serves, membuf_alloc-Serves}
use deviceatlas_cloud_c.Membuf.Leaks.{pool_life, pool_life-balanced}
use deviceatlas_cloud_c.Tests.Samples.{bump, bump_lawful, fresh_heap, small_pool}

abbrev block_64 : Mem
block_64 = record { a = 64; n = 1024; e = 1088 }

-- The second request is refused.
mem_alloc_each-Stacked_example : Stacked 1024 1088 (mem_alloc_each block_64 (10 ∷ 100 ∷ 20 ∷ []))
mem_alloc_each-Stacked_example =
    mem_alloc_each-Stacked block_64 (10 ∷ 100 ∷ 20 ∷ [])
      (record { ordered = omega arith; in_space = omega arith; slack = omega arith })
      (omega arith, (omega arith, (omega arith, tt)))

abbrev block_10 : Mem
block_10 = record { a = 10; n = 1024; e = 1034 }

mem_alloc_overrun_example :
    (r : ℕ) × (m' : Mem) × (mem_alloc (some block_10) 9 ≡ some (1024, m'))
    × (m'' : Mem) × (mem_alloc (some m') 100 ≡ some (r, m''))
    × (1034 < r)
mem_alloc_overrun_example =
    mem_alloc_overrun block_10 100 (omega arith) (omega arith) (omega arith) (omega arith)
      (omega arith)

-- 100 bytes do not fit into the pool's block of 64.
membuf_alloc-Serves_example :
    Returns (Serves bump small_pool 100) (membuf_alloc bump 2 fresh_heap small_pool 100)
membuf_alloc-Serves_example =
    membuf_alloc-Serves bump bump_lawful 0 fresh_heap small_pool 100
      (record { nonempty = omega arith; bounded = omega arith }) (omega arith)

pool_life-balanced_example :
    Returns (λ s'. Perm s'.1 []) (pool_life bump fresh_heap 64 (10 ∷ 100 ∷ 1000 ∷ []))
pool_life-balanced_example =
    pool_life-balanced bump bump_lawful fresh_heap 64 (10 ∷ 100 ∷ 1000 ∷ []) (omega arith)
      (omega arith) (omega arith, (omega arith, (omega arith, tt)))
