-- ===== src/Mem/Overrun.antt =====
-- Rounding up in `da_cloud_mem_alloc` (dacloud_mem.c), in a block whose free part is no multiple of
-- four bytes.
use deviceatlas_cloud_c.Prelude.{ℕ, ◌+◌, ◌-◌, ◌%◌, ◌^◌, ◌≤◌, ◌<◌, ◌≡◌, some, arith}
use deviceatlas_cloud_c.Mem.{Mem, size_mod, room, rounded, mem_alloc}

-- The block after the request that leaves one byte of the free part.
abbrev pub filled : Mem → Mem
filled m = record m { n = m.n + rounded (m.e - m.n - 1) }

-- A block whose free part leaves a remainder of two or three by four grants a request for all of
-- it but one byte, and is then past its end.
mem_alloc_past_end :
    (m : Mem)
    → m.n ≤ m.e
    → m.e + 4 < size_mod
    → m.e - m.n < 2 ^ 32 - 4
    → 2 ≤ (m.e - m.n) % 4
    → (mem_alloc (some m) (m.e - m.n - 1) ≡ some (m.n, filled m))
      × (m.e < (filled m).n)
      × ((filled m).n ≤ m.e + 2)
unfolding mem_alloc room rounded
mem_alloc_past_end m h k l s = (ground arith, omega arith, omega arith)

-- A block of less than 2 ^ 32 - 4 free bytes, whose number leaves two or three by four, grants a
-- request for all of them but one; after that it grants a request of any size up to the address
-- space, at an address behind its end.
pub mem_alloc_overrun :
    (m : Mem) (needed : ℕ)
    → m.n ≤ m.e
    → m.e + 4 < size_mod
    → m.e - m.n < 2 ^ 32 - 4
    → 2 ≤ (m.e - m.n) % 4
    → needed + 2 < size_mod
    → (r : ℕ) × (m' : Mem) × (mem_alloc (some m) (m.e - m.n - 1) ≡ some (m.n, m'))
      × (m'' : Mem) × (mem_alloc (some m') needed ≡ some (r, m''))
      × (m.e < r)
unfolding mem_alloc room
mem_alloc_overrun m needed h k l s small =
    let (granted, past, near) = mem_alloc_past_end m h k l s in
    (
      (filled m).n,
      filled m,
      granted,
      record (filled m) { n = ((filled m).n + rounded needed) % size_mod },
      ground arith,
      past,
    )
