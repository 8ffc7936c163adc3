-- ===== src/Membuf/Leaks.antt =====
-- The blocks that a pool of dacloud_mem.c takes from the allocator and gives back.
use mathlib.Core.List.Perm
use mathlib.Core.List.{perm_middle}
use deviceatlas_cloud_c.Prelude.{
  ℕ, zero, suc, ◌≡◌, refl, none, some, List, [], ◌∷◌, ◌++◌, Perm, arith, Ensures, ap, ◌<◌, ◌^◌, inl,
  inr, All, Outcome, returns, ◌>>=◌, Returns, Returns->>=, Option-cases,
}
use deviceatlas_cloud_c.Mem.{Allocator, AllocatorLaws, Mem}
use deviceatlas_cloud_c.Membuf.Creation.{
  Created-none, Created-some, membuf_create-Created, membuf_alloc_cases,
}
use deviceatlas_cloud_c.Membuf.{
  Membuf, Pool, nodes, newsize, membuf_create, membuf_alloc, membuf_fill, membuf_free,
}
use deviceatlas_cloud_c.Membuf.Overruns.{membuf_fill-Ensures}
use deviceatlas_cloud_c.Membuf.Growth.{IsUsable, membuf_alloc-Serves, Serves-IsUsable}

-- The blocks of the allocator that the nodes hold.
unfoldable pub footprint : List Membuf → List ℕ
footprint [] = []
footprint (h ∷ n) = h.block ∷ h.node ∷ footprint n

footprint-replace :
    (ns : List Membuf) (d : Membuf) (m : Mem)
    → footprint (ns ++ d ∷ []) ≡ footprint (ns ++ record d { p = m } ∷ [])
unfolding footprint
footprint-replace [] d m = refl
footprint-replace (h ∷ ns) d m = ap (λ f. h.block ∷ h.node ∷ f) (footprint-replace ns d m)

footprint-snoc :
    (d : Membuf) (ns : List Membuf) (rest : List ℕ)
    → Perm (d.block ∷ d.node ∷ footprint ns ++ rest) (footprint (ns ++ d ∷ []) ++ rest)
unfolding footprint
footprint-snoc d [] rest = Perm.rfl
footprint-snoc d (h ∷ ns) rest =
    let pair = h.block ∷ h.node ∷ [] in
    Perm.trans (Perm.cons d.block (Perm.symm (perm_middle pair (footprint ns ++ rest)))) (
      Perm.trans (Perm.symm (perm_middle pair (d.node ∷ footprint ns ++ rest)))
        (Perm.cons h.block (Perm.cons h.node (footprint-snoc d ns rest))))

module _ (A : Allocator) (L : AllocatorLaws A) where
  open A use {State}
  open L use {live}

  pub membuf_free-live :
      (s : State) (ns : List Membuf) (rest : List ℕ)
      → Perm (live s) (footprint ns ++ rest)
      → Perm (live (membuf_free A s ns)) rest
  unfolding membuf_free footprint
  membuf_free-live s [] rest h = h
  membuf_free-live s (d ∷ ns) rest h =
      membuf_free-live (A.free (A.free s d.block) d.node) ns rest
        (L.free_live _ _ _ (L.free_live _ _ _ h))

  pub membuf_alloc-live :
      (fuel : ℕ) (s : State) (c : Pool) (needed : ℕ) (rest : List ℕ)
      → Perm (live s) (footprint (nodes c) ++ rest)
      → Ensures
          (λ g. Perm (live g.heap) (footprint (nodes g.pool) ++ rest))
          (membuf_alloc A fuel s c needed)
  unfolding membuf_alloc
  membuf_alloc-live zero s c needed rest h = tt
  membuf_alloc-live (suc fuel) s c needed rest h =
      membuf_alloc_cases A (Ensures (λ g. Perm (live g.heap) (footprint (nodes g.pool) ++ rest)))
        fuel s c needed (λ r m _. rw (← footprint-replace c.before c.dcm m) h) h
        λ fits.
          let size = newsize c.dcm.p needed in
          let created = membuf_create-Created A L s size (ground arith) in
          (
            λ none_made. Perm.trans (Created-none A L size (live s) _ created none_made) h,
            λ d made.
                membuf_alloc-live fuel _ (record { before = nodes c; dcm = d }) needed rest
                  (Perm.trans (Created-some A L size (live s) _ d created made).0 (
                    Perm.trans (Perm.cons d.block (Perm.cons d.node h))
                      (footprint-snoc d (nodes c) rest))),
          )

module _ (A : Allocator) (L : AllocatorLaws A) where
  open A use {State}
  open L use {live}

  pub membuf_fill-live :
      (fuel : ℕ) (s : State) (c : Pool) (needed : ℕ) (rest : List ℕ)
      → Perm (live s) (footprint (nodes c) ++ rest)
      → Ensures
          (λ g. Perm (live g.heap) (footprint (nodes g.pool) ++ rest))
          (membuf_fill A fuel s c needed)
  membuf_fill-live fuel s c needed rest h =
      membuf_fill-Ensures A (λ g. Perm (live g.heap) (footprint (nodes g.pool) ++ rest)) fuel s c
        needed (membuf_alloc-live A L fuel s c needed rest h)

-- A pool's life: it is created, it serves the requests in turn, and it is freed from its root.
module _ (A : Allocator) where
  open A use {State}

  membuf_alloc_each : State → Pool → List ℕ → Outcome State
  membuf_alloc_each s c [] = returns (membuf_free A s (nodes c))
  membuf_alloc_each s c (k ∷ ks) = do g ← membuf_alloc A 2 s c k; membuf_alloc_each g.heap g.pool ks

  pub pool_life : State → ℕ → List ℕ → Outcome State
  unfolding membuf_alloc_each
  pool_life s size ks =
      let (c, s') = membuf_create A s size in
      elim c [
        | none ↦ returns s'
        | some d ↦ membuf_alloc_each s' (record { before = []; dcm = d }) ks
      ]

module _ (A : Allocator) (L : AllocatorLaws A) where
  open A use {State}
  open L use {live}

  membuf_alloc_each-balanced :
      (s : State) (c : Pool) (ks rest : List ℕ)
      → IsUsable c
      → All (λ k. k < 2 ^ 62) ks
      → Perm (live s) (footprint (nodes c) ++ rest)
      → Returns (λ s'. Perm (live s') rest) (membuf_alloc_each A s c ks)
  unfolding membuf_alloc_each
  membuf_alloc_each-balanced s c [] rest u h held = membuf_free-live A L s (nodes c) rest held
  membuf_alloc_each-balanced s c (k ∷ ks) rest u h held =
      Returns->>= (membuf_alloc A 2 s c k) _ _ _ _ (membuf_alloc-Serves A L 0 s c k u h.0)
        (membuf_alloc-live A L 2 s c k rest held)
        λ g served kept.
          membuf_alloc_each-balanced g.heap g.pool ks rest (Serves-IsUsable A c k g u served) h.1
            kept

  -- A pool created with between one byte and 2 ^ 63 of them, which is asked for any regions below 2
  -- ^ 62 bytes and then freed from its root, returns from every call and leaves the allocator, if
  -- it is lawful, with the blocks that were handed out before.
  pub pool_life-balanced :
      (s : State) (size : ℕ) (ks : List ℕ)
      → 0 < size
      → size < 2 ^ 63
      → All (λ k. k < 2 ^ 62) ks
      → Returns (λ s'. Perm (live s') (live s)) (pool_life A s size ks)
  unfolding pool_life footprint
  pool_life-balanced s size ks pos small h =
      let created = membuf_create-Created A L s size (omega arith) in
      elim (Option-cases (membuf_create A s size).0) [
        | inl e ↦ rw (e, pool_life) (Created-none A L size (live s) _ created e)
        | inr (d, e) ↦
            let (took, fresh) = Created-some A L size (live s) _ d created e in
            rw (e, pool_life)
              (membuf_alloc_each-balanced _ (record { before = []; dcm = d }) ks (live s)
                (record { nonempty = omega arith; bounded = omega arith }) h took)
      ]
