-- ===== src/Membuf/Fitting.antt =====
-- dacloud_mem.c, requests that all fit into the last block of a pool: it is never past its end.
use deviceatlas_cloud_c.Prelude.{
  ℕ, ◌+◌, ◌%◌, ◌<◌, ◌≤◌, ◌≡◌, refl, ap, List, [], ◌∷◌, ◌++◌, some, arith, Ensures, Ensures-returns,
}
use deviceatlas_cloud_c.Mem.{Allocator, Mem, size_mod, room, rounded, mem_alloc}
use deviceatlas_cloud_c.Membuf.{Pool, membuf_alloc}
use deviceatlas_cloud_c.Membuf.Overruns.{Grows, no_more, more, Overruns}

-- The bytes that requests take at most: each may be rounded up.
abbrev pub total : List ℕ → ℕ
total [] = 0
total (k ∷ ks) = k + 4 + total ks

-- There is room for the requests behind the next free byte of the last block.
pub record HasRoom (c : Pool) (sizes : List ℕ) : Type 0 where
  pub fits : c.dcm.p.n + total sizes ≤ c.dcm.p.e
  pub in_space : c.dcm.p.e < size_mod

total-append : (xs ys : List ℕ) → total xs ≤ total (xs ++ ys)
total-append [] ys = omega arith
total-append (x ∷ xs) ys = omega (arith, total-append xs ys)

mem_alloc-serves :
    (m : Mem) (k : ℕ)
    → m.n + k + 4 ≤ m.e
    → m.e < size_mod
    → (m' : Mem) × (mem_alloc (some m) k ≡ some (m.n, m')) × (m'.e ≡ m.e) × (m'.n ≤ m.n + k + 4)
unfolding mem_alloc room rounded
mem_alloc-serves m k h space =
    (record m { n = (m.n + rounded k) % size_mod }, ground arith, refl, ground arith)

module _ (A : Allocator) where
  open A use {State}

  membuf_alloc-stays :
      (s : State) (c : Pool) (k : ℕ)
      → c.dcm.p.n + k + 4 ≤ c.dcm.p.e
      → c.dcm.p.e < size_mod
      → Ensures
          (λ g. (g.pool.dcm.p.e ≡ c.dcm.p.e) × (g.pool.dcm.p.n ≤ c.dcm.p.n + k + 4))
          (membuf_alloc A 2 s c k)
  unfolding membuf_alloc
  membuf_alloc-stays s c k h space =
      let (m, served, end, next) = mem_alloc-serves c.dcm.p k h space in
      rw (served, membuf_alloc) (end, next)

  Grows-stays :
      (s s' : State) (c c' : Pool) (sizes : List ℕ)
      → HasRoom c sizes
      → Grows A s c sizes s' c'
      → c'.dcm.p.n ≤ c'.dcm.p.e
  Grows-stays s s' c c' sizes r (no_more _ _) = omega (arith, r.fits)
  Grows-stays s s' c c' sizes r (more _ _ k ks g _ _ ran rest) =
      let (end, next) =
        Ensures-returns _ _ g ran (membuf_alloc-stays s c k (omega (arith, r.fits)) r.in_space) in
      Grows-stays g.heap s' g.pool c' ks
        (record {
          fits = omega (arith, r.fits, end, next);
          in_space = omega (arith, r.in_space, end);
        })
        rest

  -- Where all of the requests fit, none of the first of them leave the block past its end.
  pub HasRoom-Overruns :
      (s : State) (c : Pool) (sizes : List ℕ) → HasRoom c sizes → ¬ Overruns A s c sizes
  HasRoom-Overruns s c sizes r o =
      let less = total-append o.served o.left in
      let split : total sizes ≡ total (o.served ++ o.left) = ap total o.split in
      let within =
        Grows-stays s o.heap c o.pool o.served
          (record { fits = omega (arith, r.fits, less, split); in_space = r.in_space }) o.grows in
      omega (arith, within, o.past)
