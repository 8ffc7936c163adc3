-- ===== src/Mem/Bounds.antt =====
-- Where the regions lie that one block of dacloud_mem.c grants.
use deviceatlas_cloud_c.Prelude.{
  ℕ, ◌+◌, ◌-◌, ◌%◌, ◌^◌, ◌≤◌, ◌<◌, ◌≡◌, none, some, List, [], ◌∷◌, All, subst, Option-cases, inl,
  inr, arith,
}
use deviceatlas_cloud_c.Mem.{Mem, size_mod, room, rounded, mem_alloc}

-- The free part lies in the address space, and is a multiple of four bytes or one byte more.
pub record IsSound (m : Mem) : Type 0 where
  pub ordered : m.n ≤ m.e
  pub in_space : m.e < size_mod
  pub slack : (m.e - m.n) % 4 ≤ 1

pub rounded-ge :
    (needed : ℕ) → needed + 4 ≤ 2 ^ 32 → (needed ≤ rounded needed) × (rounded needed ≤ needed + 3)
unfolding rounded
rounded-ge needed h = omega arith

pub room-eq-sub : (m : Mem) → m.n ≤ m.e → m.e < size_mod → room m ≡ m.e - m.n
unfolding room
room-eq-sub m h k = omega arith

pub mem_alloc-IsSound :
    (m m' : Mem) (needed r : ℕ)
    → IsSound m
    → needed + 4 ≤ 2 ^ 32
    → mem_alloc (some m) needed ≡ some (r, m')
    → IsSound m' × (r ≡ m.n) × (r + needed ≤ m'.n) × (m'.n ≤ m.e) × (m'.e ≡ m.e)
unfolding mem_alloc rounded
mem_alloc-IsSound m m' needed r v h e = ground (arith, room-eq-sub m v.ordered v.in_space)

-- The requests of a list made one after another on one block: the regions granted, with their
-- sizes. A refused request leaves no region.
pub mem_alloc_each : Mem → List ℕ → List (ℕ × ℕ)
mem_alloc_each m [] = []
mem_alloc_each m (k ∷ ks) = elim (mem_alloc (some m) k) [
  | none ↦ mem_alloc_each m ks
  | some (r, m') ↦ (r, k) ∷ mem_alloc_each m' ks
]

-- The regions lie between the bounds, each one behind the end of the one before.
abbrev pub Stacked : ℕ → ℕ → List (ℕ × ℕ) → Type 0
Stacked lo hi [] = lo ≤ hi
Stacked lo hi ((r, k) ∷ rest) = (lo ≤ r) × Stacked (r + k) hi rest

Stacked-mono : (a b hi : ℕ) (rs : List (ℕ × ℕ)) → a ≤ b → Stacked b hi rs → Stacked a hi rs
Stacked-mono a b hi [] h s = omega arith
Stacked-mono a b hi ((r, k) ∷ rest) h s = (omega arith, s.1)

-- Requests of at most 2 ^ 32 - 4 bytes, made one after another on a sound block, are served by
-- regions that lie between its next free byte and its end and do not overlap.
pub mem_alloc_each-Stacked :
    (m : Mem) (ks : List ℕ)
    → IsSound m
    → All (λ k. k + 4 ≤ 2 ^ 32) ks
    → Stacked m.n m.e (mem_alloc_each m ks)
unfolding mem_alloc_each
mem_alloc_each-Stacked m [] v h = v.ordered
mem_alloc_each-Stacked m (k ∷ ks) v h = elim (Option-cases (mem_alloc (some m) k)) [
  | inl e ↦ rw (e, mem_alloc_each) (mem_alloc_each-Stacked m ks v h.1)
  | inr ((r, m'), e) ↦
      let (v', at, below, _, end) = mem_alloc-IsSound m m' k r v h.0 e in
      rw (e, mem_alloc_each)
        (
          omega arith,
          Stacked-mono (r + k) m'.n m.e _ below (
              subst (λ hi. Stacked m'.n hi (mem_alloc_each m' ks)) end
                (mem_alloc_each-Stacked m' ks v' h.1)),
        )
]
