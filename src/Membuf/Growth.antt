-- ===== src/Membuf/Growth.antt =====
-- What `da_cloud_membuf_alloc` of dacloud_mem.c gives, and how often it calls itself.
use deviceatlas_cloud_c.Prelude.{
  ℕ, suc, ◌+◌, ◌/◌, ◌%◌, ◌^◌, ◌<◌, ◌≡◌, refl, none, some, arith, false, leb, Returns, Returns-cases,
  returns, subst, sym,
}
use deviceatlas_cloud_c.Mem.{Allocator, AllocatorLaws, Mem, size_mod, rounded, room, mem_alloc}
use deviceatlas_cloud_c.Membuf.{
  Membuf, Pool, nodes, Grant, long_max, newsize, membuf_create, membuf_alloc,
}
use deviceatlas_cloud_c.Membuf.Creation.{
  IsFresh, Created-some, membuf_create-Created, membuf_alloc_cases,
}

-- The size of the last block lets the pool grow.
pub record IsUsable (c : Pool) : Type 0 where
  pub nonempty : 0 < c.dcm.p.a
  pub bounded : c.dcm.p.a < 2 ^ 63

newsize-eq :
    (m : Mem) (needed : ℕ)
    → m.a < 2 ^ 63
    → needed < 2 ^ 62
    → newsize m needed ≡ m.a + m.a / 2 + needed
unfolding newsize
newsize-eq m needed h k = omega arith

-- A fresh block that is larger than the request serves it from its start.
IsFresh-serves :
    (size p needed : ℕ) (m : Mem)
    → IsFresh size p m
    → needed < size
    → (m' : Mem) × (mem_alloc (some m) needed ≡ some (m.n, m'))
unfolding mem_alloc room
IsFresh-serves size p needed m f h =
    (record m { n = (m.n + rounded needed) % size_mod }, ground arith)

mem_alloc-a : (m m' : Mem) (needed r : ℕ) → mem_alloc (some m) needed ≡ some (r, m') → m'.a ≡ m.a
unfolding mem_alloc
mem_alloc-a m m' needed r e = ground arith

module _ (A : Allocator) where
  -- A request is refused and leaves the pool; or it is served by the last block; or a new last
  -- block, half as large again and with room for the request, serves it.
  pub data Serves (c : Pool) (needed : ℕ) (g : Grant A) : Type 0 where
    refused : g.region ≡ none → g.pool ≡ c → Serves c needed g
    in_place :
        (r : ℕ) (m : Mem)
        → g.region ≡ some r
        → mem_alloc (some c.dcm.p) needed ≡ some (r, m)
        → g.pool ≡ record c { dcm = record (c.dcm) { p = m } }
        → Serves c needed g
    grown :
        (d : Membuf) (m : Mem)
        → c.dcm.p.a + c.dcm.p.a / 2 + needed < long_max
        → IsFresh (c.dcm.p.a + c.dcm.p.a / 2 + needed) d.block d.p
        → g.region ≡ some d.p.n
        → mem_alloc (some d.p) needed ≡ some (d.p.n, m)
        → g.pool ≡ record { before = nodes c; dcm = record d { p = m } }
        → Serves c needed g

module _ (A : Allocator) (L : AllocatorLaws A) where
  open A use {State}
  open L use {live}

  membuf_create-serves :
      (s : State) (c : Pool) (needed : ℕ) (d : Membuf)
      → IsUsable c
      → needed < 2 ^ 62
      → leb long_max (newsize c.dcm.p needed) ≡ false
      → (membuf_create A s (newsize c.dcm.p needed)).0 ≡ some d
      → (m : Mem) × (c.dcm.p.a + c.dcm.p.a / 2 + needed < long_max)
        × IsFresh (c.dcm.p.a + c.dcm.p.a / 2 + needed) d.block d.p
        × (mem_alloc (some d.p) needed ≡ some (d.p.n, m))
  membuf_create-serves s c needed d u h fits made =
      let size = newsize c.dcm.p needed in
      let exact = newsize-eq c.dcm.p needed u.bounded h in
      let fresh =
        (Created-some A L size (live s) _ d (membuf_create-Created A L s size (ground arith))
          made).1 in
      let (m, serves) = IsFresh-serves size d.block needed d.p fresh (omega arith) in
      (m, ground arith, subst (λ k. IsFresh k d.block d.p) exact fresh, serves)

  -- With a lawful allocator, a pool whose last block has between one byte and 2 ^ 63 of them, a
  -- request below 2 ^ 62 and one level of recursion, a call returns: it refuses and leaves the
  -- pool, or the last block serves it, or a new last block does, half as large again and with room
  -- for the request.
  pub membuf_alloc-Serves :
      (fuel : ℕ) (s : State) (c : Pool) (needed : ℕ)
      → IsUsable c
      → needed < 2 ^ 62
      → Returns (Serves A c needed) (membuf_alloc A (suc (suc fuel)) s c needed)
  unfolding membuf_alloc
  membuf_alloc-Serves fuel s c needed u h =
      membuf_alloc_cases A (Returns (Serves A c needed)) (suc fuel) s c needed
        (λ r m e. in_place r m refl e refl) (refused refl refl)
        λ fits. (
          λ _. refused refl refl,
          λ d made.
              let (m, small, fresh, served) = membuf_create-serves s c needed d u h fits made in
              rw (served, membuf_alloc) (grown d m small fresh refl served refl),
        )

module _ (A : Allocator) where
  -- The pool stays fit for further requests.
  pub Serves-IsUsable :
      (c : Pool) (needed : ℕ) (g : Grant A) → IsUsable c → Serves A c needed g → IsUsable g.pool
  Serves-IsUsable c needed g u (refused _ same) = subst IsUsable (sym same) u
  Serves-IsUsable c needed g u (in_place r m _ served moved) =
      let same = mem_alloc-a c.dcm.p m needed r served in
      subst IsUsable (sym moved) (record { nonempty = omega arith; bounded = omega arith })
  Serves-IsUsable c needed g u (grown d m small fresh _ served moved) =
      let same = mem_alloc-a d.p m needed d.p.n served in
      subst IsUsable (sym moved) (record { nonempty = omega arith; bounded = omega arith })

module _ (A : Allocator) (L : AllocatorLaws A) where
  open A use {State}

  -- One level of recursion is enough for a request to return, and for the next one too.
  pub membuf_alloc-total :
      (s : State) (c : Pool) (needed : ℕ)
      → IsUsable c
      → needed < 2 ^ 62
      → (g : Grant A) × (membuf_alloc A 2 s c needed ≡ returns g) × IsUsable g.pool
  membuf_alloc-total s c needed u h =
      let (g, e, served) =
        Returns-cases (Serves A c needed) (membuf_alloc A 2 s c needed)
          (membuf_alloc-Serves A L 0 s c needed u h) in
      (g, e, Serves-IsUsable A c needed g u served)
