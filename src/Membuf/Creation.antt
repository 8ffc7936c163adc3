-- ===== src/Membuf/Creation.antt =====
-- Creating a block and a pool's node (dacloud_mem.c) over a lawful allocator, and the cases of a
-- request to a pool.
use mathlib.Core.List.Perm
use mathlib.Core.Option.{some-injective}
use deviceatlas_cloud_c.Prelude.{
  ℕ, suc, ◌+◌, ◌%◌, ◌<◌, ◌≡◌, refl, inl, inr, Option, none, some, List, ◌∷◌, Perm, arith, subst,
  false, leb, Outcome, returns, Option-cases, Bool-cases,
}
use deviceatlas_cloud_c.Mem.{
  Allocator, AllocatorLaws, Mem, size_mod, sizeof_mem, mem_alloc, mem_create,
}
use deviceatlas_cloud_c.Membuf.{
  Membuf, Pool, nodes, Grant, sizeof_membuf, long_max, newsize, membuf_create, membuf_alloc,
}

-- The struct of a block that was just created at `p` for `size` bytes.
pub record IsFresh (size p : ℕ) (m : Mem) : Type 0 where
  pub sized : m.a ≡ size
  pub starts : m.n ≡ p + sizeof_mem
  pub ends : m.e ≡ m.n + size
  pub in_space : m.e < size_mod

module _ (A : Allocator) (L : AllocatorLaws A) where
  open A use {State}
  open L use {live}

  abbrev CreatedMem : ℕ → List ℕ → Option (ℕ × Mem) × State → Type 0
  CreatedMem size rest (none, s') = Perm (live s') rest
  CreatedMem size rest (some (p, m), s') = Perm (live s') (p ∷ rest) × IsFresh size p m

  mem_create-Created :
      (s : State) (size : ℕ)
      → size + sizeof_mem < size_mod
      → CreatedMem size (live s) (mem_create A s size)
  unfolding mem_create
  mem_create-Created s size h =
      let k = (sizeof_mem + size) % size_mod in
      elim (Option-cases (A.alloc s k).0) [
        | inl e ↦ rw (e, mem_create, CreatedMem) (rw (L.alloc_none s k e) Perm.rfl)
        | inr (p, e) ↦
            let (taken, fits) = L.alloc_some s k p e in
            rw (e, mem_create, CreatedMem)
              (
                taken,
                record { sized = refl; starts = refl; ends = omega arith; in_space = omega arith },
              )
      ]

  abbrev pub Created : ℕ → List ℕ → Option Membuf × State → Type 0
  Created size rest (none, s') = Perm (live s') rest
  Created size rest (some d, s') =
      Perm (live s') (d.block ∷ d.node ∷ rest) × IsFresh size d.block d.p

  -- The struct that was already allocated is given back when the block cannot be.
  with_node :
      (q size : ℕ) (rest held : List ℕ) (r : Option (ℕ × Mem) × State)
      → Perm held (q ∷ rest)
      → CreatedMem size held r
      → Created size rest (elim r.0 [
        | none ↦ (none, A.free r.1 q)
        | some (b, m) ↦ (some (record { node = q; block = b; p = m }), r.1)
      ])
  with_node q size rest held (none, s') taken h = L.free_live s' q rest (Perm.trans h taken)
  with_node q size rest held (some (b, m), s') taken h = (Perm.trans h.0 (Perm.cons b taken), h.1)

  pub membuf_create-Created :
      (s : State) (size : ℕ)
      → size + sizeof_mem < size_mod
      → Created size (live s) (membuf_create A s size)
  unfolding membuf_create
  membuf_create-Created s size h = elim (Option-cases (A.alloc s sizeof_membuf).0) [
    | inl e ↦ rw (e, membuf_create, Created) (rw (L.alloc_none s sizeof_membuf e) Perm.rfl)
    | inr (q, e) ↦
        let s' = (A.alloc s sizeof_membuf).1 in
        rw (e, membuf_create)
          (with_node q size (live s) (live s') (mem_create A s' size)
            (L.alloc_some s sizeof_membuf q e).0 (mem_create-Created s' size h))
  ]

  pub Created-some :
      (size : ℕ) (rest : List ℕ) (r : Option Membuf × State) (d : Membuf)
      → Created size rest r
      → r.0 ≡ some d
      → Perm (live r.1) (d.block ∷ d.node ∷ rest) × IsFresh size d.block d.p
  Created-some size rest (none, s') d h e = absurd (cc)
  Created-some size rest (some d', s') d h e =
      subst (λ (x : Membuf). Perm (live s') (x.block ∷ x.node ∷ rest) × IsFresh size x.block x.p)
        (some-injective d' d e) h

  pub Created-none :
      (size : ℕ) (rest : List ℕ) (r : Option Membuf × State)
      → Created size rest r
      → r.0 ≡ none
      → Perm (live r.1) rest
  Created-none size rest (none, s') h e = h
  Created-none size rest (some d', s') h e = absurd (cc)

-- The four ways through a request: the last block serves it, the new block would be too large, it
-- cannot be had, or the request is made again on the pool with the new block.
module _ (A : Allocator) (P : Outcome (Grant A) → Type 0) where
  open A use {State}

  pub membuf_alloc_cases :
      (fuel : ℕ) (s : State) (c : Pool) (needed : ℕ)
      → ((r : ℕ) (m : Mem)
          → mem_alloc (some c.dcm.p) needed ≡ some (r, m)
          → P (
              returns (record {
                region = some r;
                pool = record c { dcm = record (c.dcm) { p = m } };
                heap = s;
              })))
      → P (returns (record { region = none; pool = c; heap = s }))
      → (leb long_max (newsize c.dcm.p needed) ≡ false
          → let r = membuf_create A s (newsize c.dcm.p needed) in
            (r.0 ≡ none → P (returns (record { region = none; pool = c; heap = r.1 })))
            × ((d : Membuf)
                → r.0 ≡ some d
                → P (membuf_alloc A fuel r.1 (record { before = nodes c; dcm = d }) needed)))
      → P (membuf_alloc A (suc fuel) s c needed)
  unfolding membuf_alloc
  membuf_alloc_cases fuel s c needed served too_large made =
      elim (Option-cases (mem_alloc (some c.dcm.p) needed)) [
        | inl e ↦ elim (Bool-cases (leb long_max (newsize c.dcm.p needed))) [
          | inl big ↦ rw (e, big, membuf_alloc) too_large
          | inr fits ↦ elim (Option-cases (membuf_create A s (newsize c.dcm.p needed)).0) [
            | inl n ↦ rw (e, fits, n, membuf_alloc) ((made fits).0 n)
            | inr (d, n) ↦ rw (e, fits, n, membuf_alloc) ((made fits).1 d n)
          ]
        ]
        | inr ((r, m), e) ↦ rw (e, membuf_alloc) (served r m e)
      ]
