-- ===== src/MemoryCache/Life.antt =====
-- memory_cache_provider.c, the blocks of the provider from its init to its fini.
use mathlib.Core.List.Perm
use deviceatlas_cloud_c.Prelude.{
  ℕ, ◌*◌, ◌≡◌, refl, subst, none, some, List, [], ◌++◌, Perm, inl, inr, Option-cases, arith, done,
  Ensures, Ensures->>=, Ensures-returns,
}
use deviceatlas_cloud_c.Mem.{Allocator, AllocatorLaws}
use deviceatlas_cloud_c.Mem.Moving.{CopyLaws, RefusalLaws}
use deviceatlas_cloud_c.Membuf.{Pool, Grant, nodes, membuf_create, membuf_alloc}
use deviceatlas_cloud_c.Membuf.Creation.{Created-some, membuf_create-Created}
use deviceatlas_cloud_c.Membuf.Leaks.{footprint, membuf_alloc-live, membuf_free-live}
use deviceatlas_cloud_c.Header.{pool_fuel}
use deviceatlas_cloud_c.Cache.{Left}
use deviceatlas_cloud_c.Config.{Plugin}
use deviceatlas_cloud_c.Client.Life.{PluginBlocks}
use deviceatlas_cloud_c.MemoryCache.{
  Cfg, memory_cache, memory_cache_init, memory_cache_fini, open_cache, place_cache, sizeof_int,
  sizeof_memory_cache,
}
use deviceatlas_cloud_c.MemoryCache.Blocks.{owned_blocks, memory_cache_keeps_blocks}

-- The provider with its part of a zeroed struct da_cloud_cache_cfg.
abbrev pub memory_plugin : (A : Allocator) → ℕ → Plugin A
memory_plugin A stale = record {
  ops = memory_cache A stale;
  zeroed = λ text expiration. record {
    cache_obj = none;
    threshold = none;
    pool = none;
    cache_cfg_str = text;
  };
}

module _ (A : Allocator) (L : AllocatorLaws A) where
  open A use {State}
  open L use {live}

  abbrev Opens : List ℕ → Left State Cfg → Type 0
  Opens rest left = left.status ≡ done → Perm (live left.heap) (owned_blocks left.cfg ++ rest)

  open_cache-Opens :
      (stale : ℕ) (cfg : Cfg) (mc : Grant A) (rest : List ℕ)
      → Perm (live mc.heap) (footprint (nodes mc.pool) ++ rest)
      → Opens rest (open_cache A stale cfg mc)
  unfolding open_cache
  open_cache-Opens stale cfg mc rest h = elim (Option-cases mc.region) [
    | inl lost ↦ rw (open_cache, lost) (λ bad. absurd (cc))
    | inr (p, got) ↦ rw (open_cache, got) (λ ok. h)
  ]

  place_cache-Opens :
      (stale : ℕ) (cfg : Cfg) (t : Grant A) (rest : List ℕ)
      → Perm (live t.heap) (footprint (nodes t.pool) ++ rest)
      → Ensures (Opens rest) (place_cache A stale cfg t)
  unfolding place_cache
  place_cache-Opens stale cfg t rest h = elim (Option-cases t.region) [
    | inl lost ↦ rw (place_cache, lost) (λ bad. absurd (cc))
    | inr (p, got) ↦
        rw (place_cache, got)
          (Ensures->>= (membuf_alloc A pool_fuel t.heap t.pool sizeof_memory_cache) _
            (λ g. Perm (live g.heap) (footprint (nodes g.pool) ++ rest)) _
            (membuf_alloc-live A L pool_fuel t.heap t.pool sizeof_memory_cache rest h)
            λ mc kept. open_cache-Opens stale cfg mc rest kept)
  ]

  pub memory_cache_init-Opens :
      (stale : ℕ) (s : State) (old : Cfg) (rest : List ℕ)
      → Perm (live s) rest
      → Ensures
          (λ left. left.status ≡ done → Perm (live left.heap) (owned_blocks left.cfg ++ rest))
          (memory_cache_init A stale s old)
  unfolding memory_cache_init footprint
  memory_cache_init-Opens stale s old rest h =
      let created = membuf_create-Created A L s (1024 * 4) (omega arith) in
      elim (Option-cases (membuf_create A s (1024 * 4)).0) [
        | inl no_pool ↦ rw (memory_cache_init, no_pool) (λ bad. absurd (cc))
        | inr (d, pool) ↦
            let (took, _) = Created-some A L (1024 * 4) (live s) _ d created pool in
            let c : Pool = record { before = []; dcm = d } in
            rw (memory_cache_init, pool)
              (Ensures->>= (membuf_alloc A pool_fuel (membuf_create A s (1024 * 4)).1 c sizeof_int)
                _ (λ g. Perm (live g.heap) (footprint (nodes g.pool) ++ rest)) _
                (membuf_alloc-live A L pool_fuel (membuf_create A s (1024 * 4)).1 c sizeof_int rest
                  (Perm.trans took (Perm.cons d.block (Perm.cons d.node h))))
                λ t kept. place_cache-Opens stale (record old { cache_obj = none }) t rest kept)
      ]

  pub memory_cache_fini-live :
      (s : State) (cfg : Cfg) (rest : List ℕ)
      → Perm (live s) (owned_blocks cfg ++ rest)
      → Ensures (λ left. Perm (live left.heap) rest) (memory_cache_fini A s cfg)
  unfolding memory_cache_fini
  memory_cache_fini-live s cfg rest h = elim (Option-cases cfg.pool) [
    | inl no_pool ↦
        rw (memory_cache_fini, no_pool)
          (subst
            (λ o.
              Perm (live s)
                ((elim o as (λ _. List ℕ) [ none ↦ [] | some c ↦ footprint (nodes c) ]) ++ rest))
            no_pool h)
    | inr (pool, e) ↦
        rw (memory_cache_fini, e)
          (membuf_free-live A L s (nodes pool) rest (
            subst
              (λ o.
                Perm (live s)
                  ((elim o as (λ _. List ℕ) [ none ↦ [] | some c ↦ footprint (nodes c) ]) ++ rest))
              e h))
  ]

module _ (A : Allocator) (L : AllocatorLaws A) (K : CopyLaws A L) (X : RefusalLaws A L) where
  abbrev pub memory_plugin_blocks : (stale : ℕ) → PluginBlocks A L (memory_plugin A stale)
  memory_plugin_blocks stale = record {
    keeps = memory_cache_keeps_blocks A L K X stale;
    closed = refl;
    opens = λ s text left rest h ran.
        Ensures-returns (λ r. r.status ≡ done → Perm (L.live r.heap) (owned_blocks r.cfg ++ rest)) _
          left ran (memory_cache_init-Opens A L stale s _ rest h);
    closes = λ s cfg left rest h ran.
        Ensures-returns (λ r. Perm (L.live r.heap) rest) _ left ran
          (memory_cache_fini-live A L s cfg rest h);
  }
