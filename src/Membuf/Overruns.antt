-- ===== src/Membuf/Overruns.antt =====
-- Writing to the regions that a pool of dacloud_mem.c hands out: the block that is written behind is one
-- whose next free byte had already passed its end.
use mathlib.Core.Option.{some-injective}
use deviceatlas_cloud_c.Prelude.{
  subst, ℕ, ◌+◌, ◌^◌, ◌<◌, ◌≡◌, refl, List, [], ◌∷◌, ◌++◌, inl, inr, ◌⊎◌, Bool-cases, ltb, Option,
  none, some, arith, ap, sym, ◌∙◌, returns, crashes, ◌>>=◌, Returns-cases, Ensures, Ensures->>=,
}
use deviceatlas_cloud_c.Mem.{Allocator, AllocatorLaws, Mem, room, mem_alloc}
use deviceatlas_cloud_c.Membuf.{Pool, Grant, membuf_alloc, membuf_fill, written}
use deviceatlas_cloud_c.Membuf.Growth.{
  IsUsable, Serves, refused, in_place, grown, Serves-IsUsable, membuf_alloc-Serves,
}

-- The next free byte of the last block is behind its end.
abbrev pub PastEnd : Pool → Type 0
PastEnd c = c.dcm.p.e < c.dcm.p.n

mem_alloc_within :
    (m m' : Mem) (needed r : ℕ)
    → mem_alloc (some m) needed ≡ some (r, m')
    → m'.e < r + needed
    → m.e < m.n
unfolding mem_alloc room
mem_alloc_within m m' needed r e over = ground arith

module _ (A : Allocator) where
  open A use {State}

  -- Requests that a pool serves one after another, and the pool and the state that they leave.
  pub data Grows : State → Pool → List ℕ → State → Pool → Type 0 where
    no_more : (s : State) (c : Pool) → Grows s c [] s c
    more :
        (s : State) (c : Pool) (k : ℕ) (ks : List ℕ) (g : Grant A) (s' : State) (c' : Pool)
        → membuf_alloc A 2 s c k ≡ returns g
        → Grows g.heap g.pool ks s' c'
        → Grows s c (k ∷ ks) s' c'

  -- Some of the first of these requests leave the pool with a block that is past its end.
  pub record Overruns (s : State) (c : Pool) (sizes : List ℕ) : Type 0 where
    pub served : List ℕ
    pub left : List ℕ
    pub split : sizes ≡ served ++ left
    pub heap : State
    pub pool : Pool
    pub grows : Grows s c served heap pool
    pub past : PastEnd pool

  pub Overruns-here : (s : State) (c : Pool) (sizes : List ℕ) → PastEnd c → Overruns s c sizes
  Overruns-here s c sizes past = record {
    served = [];
    left = sizes;
    split = refl;
    heap = s;
    pool = c;
    grows = no_more s c;
    past = past;
  }

  pub Overruns-more :
      (s : State) (c : Pool) (k : ℕ) (ks : List ℕ) (g : Grant A)
      → membuf_alloc A 2 s c k ≡ returns g
      → Overruns g.heap g.pool ks
      → Overruns s c (k ∷ ks)
  Overruns-more s c k ks g ran o = record {
    served = k ∷ o.served;
    left = o.left;
    split = ap (◌∷◌ k) o.split;
    heap = o.heap;
    pool = o.pool;
    grows = more s c k o.served g o.heap o.pool ran o.grows;
    past = o.past;
  }

  -- Filling a region changes nothing, or it goes behind the end of the last block.
  written-cases :
      (o : Option ℕ) (needed : ℕ) (g : Grant A)
      → (written A o needed g ≡ returns g)
        ⊎ ((r : ℕ) × (written A o needed g ≡ crashes)
            × (o ≡ some r)
            × (g.pool.dcm.p.e < r + needed))
  unfolding written
  written-cases none needed g = inl refl
  written-cases (some r) needed g = elim (Bool-cases (ltb g.pool.dcm.p.e (r + needed))) [
    | inl over ↦ inr (r, rw (over) refl, refl, ground (arith, over))
    | inr fits ↦ inl (rw (fits) refl)
  ]

  -- What holds if a request returns still does when its region has been filled.
  pub membuf_fill-Ensures :
      (P : Grant A → Type 0) (fuel : ℕ) (s : State) (c : Pool) (needed : ℕ)
      → Ensures P (membuf_alloc A fuel s c needed)
      → Ensures P (membuf_fill A fuel s c needed)
  unfolding membuf_fill
  membuf_fill-Ensures P fuel s c needed h =
      Ensures->>= (membuf_alloc A fuel s c needed) _ P P h λ g p.
        elim (written-cases g.region needed g) [
          | inl same ↦ subst (Ensures P) (sym same) p
          | inr (_, lost, _, _) ↦ subst (Ensures P) (sym lost) tt
        ]

  -- A region is written behind its block only where the block was past its end before.
  Serves-written :
      (c : Pool) (needed r : ℕ) (g : Grant A)
      → Serves A c needed g
      → g.region ≡ some r
      → g.pool.dcm.p.e < r + needed
      → PastEnd c
  Serves-written c needed r g (refused none_given same) given over = absurd (cc)
  Serves-written c needed r g (in_place r' m given' served moved) given over =
      let here = some-injective r r' (sym given ∙ given') in
      let end = ap (λ (x : Pool). x.dcm.p.e) moved in
      mem_alloc_within c.dcm.p m needed r' served (omega (arith, here, end, over))
  Serves-written c needed r g (grown d m small fresh given' served moved) given over =
      let here = some-injective r d.p.n (sym given ∙ given') in
      let end = ap (λ (x : Pool). x.dcm.p.e) moved in
      let past = mem_alloc_within d.p m needed d.p.n served (omega (arith, here, end, over)) in
      absurd (omega (arith, past, fresh.ends))

module _ (A : Allocator) (L : AllocatorLaws A) where
  open A use {State}

  -- A request returns and its region is filled, or the pool's last block was past its end.
  pub membuf_fill-total :
      (s : State) (c : Pool) (needed : ℕ)
      → IsUsable c
      → needed < 2 ^ 62
      → ((membuf_fill A 2 s c needed ≡ crashes) × PastEnd c)
        ⊎ ((g : Grant A) × (membuf_fill A 2 s c needed ≡ returns g)
            × (membuf_alloc A 2 s c needed ≡ returns g)
            × IsUsable g.pool)
  unfolding membuf_fill
  membuf_fill-total s c needed u h =
      let (g, e, served) =
        Returns-cases (Serves A c needed) (membuf_alloc A 2 s c needed)
          (membuf_alloc-Serves A L 0 s c needed u h) in
      elim (written-cases A g.region needed g) [
        | inl same ↦ inr (
          g,
          ap (λ m. m >>= λ k. written A k.region needed k) e ∙ same,
          e,
          Serves-IsUsable A c needed g u served,
        )
        | inr (r, lost, given, over) ↦ inl (
          ap (λ m. m >>= λ k. written A k.region needed k) e ∙ lost,
          Serves-written A c needed r g served given over,
        )
      ]
