-- ===== src/MemoryCache/Blocks.antt =====
-- memory_cache_provider.c, the blocks that the provider holds: those of its pool.
use mathlib.Core.List.Perm
use deviceatlas_cloud_c.Prelude.{
  ℕ, ◌+◌, subst, Option, none, some, List, [], ◌++◌, Perm, inl, inr, Bool-cases, Option-cases, leb,
  length, Bytes, Ensures, Ensures->>=, Ensures-returns,
}
use deviceatlas_cloud_c.Mem.{Allocator, AllocatorLaws}
use deviceatlas_cloud_c.Mem.Moving.{CopyLaws, RefusalLaws}
use deviceatlas_cloud_c.Membuf.{Pool, nodes, membuf_alloc, membuf_strdup}
use deviceatlas_cloud_c.Membuf.Leaks.{footprint, membuf_alloc-live}
use deviceatlas_cloud_c.Header.{pool_fuel}
use deviceatlas_cloud_c.Cache.{Got, Left}
use deviceatlas_cloud_c.Cache.Blocks.{value_blocks, KeepsBlocks}
use deviceatlas_cloud_c.MemoryCache.{
  Entry, MemoryCache, Cfg, find_entry, hash_threshold, hand_out, get_from, put_in, sizeof_entry,
  memory_cache, memory_cache_get, memory_cache_set,
}

abbrev pub owned_blocks : Cfg → List ℕ
owned_blocks cfg = elim cfg.pool [ none ↦ [] | some pool ↦ footprint (nodes pool) ]

module _ (A : Allocator) (L : AllocatorLaws A) (K : CopyLaws A L) (X : RefusalLaws A L) where
  open A use {State}
  open L use {live}

  abbrev pub Gets : List ℕ → Got State Cfg → Type 0
  Gets rest g = Perm (live g.heap) (value_blocks g.value ++ owned_blocks g.cfg ++ rest)

  hand_out-Gets :
      (s : State) (cfg : Cfg) (found : Option Entry) (rest : List ℕ)
      → Perm (live s) (owned_blocks cfg ++ rest)
      → Gets rest (hand_out A s cfg (some none) found)
  unfolding hand_out
  hand_out-Gets s cfg none rest h = h
  hand_out-Gets s cfg (some mce) rest h = elim (Option-cases (A.strdup s (length mce.value)).0) [
    | inl lost ↦ rw (hand_out, lost) (rw (X.uncopied s (length mce.value) lost) h)
    | inr (q, copied) ↦
        rw (hand_out, copied) (Perm.trans (K.copies s (length mce.value) q copied) (Perm.cons q h))
  ]

  pub memory_cache_get-Gets :
      (s : State) (cfg : Cfg) (key : Bytes) (rest : List ℕ)
      → Perm (live s) (owned_blocks cfg ++ rest)
      → Ensures (Gets rest) (memory_cache_get A s cfg key (some none))
  unfolding memory_cache_get get_from
  memory_cache_get-Gets s cfg key rest h = elim (Option-cases cfg.cache_obj) [
    | inl closed ↦ rw (memory_cache_get, closed) h
    | inr (mc, opened) ↦ elim (Bool-cases (leb hash_threshold mc.cnt)) [
      | inl at_threshold ↦ rw (memory_cache_get, opened, get_from, at_threshold) h
      | inr below ↦
          rw (memory_cache_get, opened, get_from, below)
            (hand_out-Gets s cfg (find_entry key mc.entries) rest h)
    ]
  ]

  abbrev pub Sets : List ℕ → Left State Cfg → Type 0
  Sets rest left = Perm (live left.heap) (owned_blocks left.cfg ++ rest)

  put_in-Sets :
      (s : State) (cfg : Cfg) (pool : Pool) (mc : MemoryCache) (key value : Bytes) (rest : List ℕ)
      → Perm (live s) (footprint (nodes pool) ++ rest)
      → Ensures (Sets rest) (put_in A s cfg pool mc key value)
  unfolding put_in membuf_strdup
  put_in-Sets s cfg pool mc key value rest h =
      Ensures->>= (membuf_alloc A pool_fuel s pool sizeof_entry) _
        (λ g. Perm (live g.heap) (footprint (nodes g.pool) ++ rest)) _
        (membuf_alloc-live A L pool_fuel s pool sizeof_entry rest h)
        λ m kept. elim (Option-cases m.region) [
          | inl e ↦ rw (e) kept
          | inr (_, e) ↦ rw (e) (
              Ensures->>= (membuf_strdup A pool_fuel m.heap m.pool (length key)) _
                (λ g. Perm (live g.heap) (footprint (nodes g.pool) ++ rest)) _
                (membuf_alloc-live A L pool_fuel m.heap m.pool (length key + 1) rest kept)
                λ k kept'. elim (Option-cases k.region) [
                  | inl e' ↦ rw (e') kept'
                  | inr (_, e') ↦ rw (e') (
                      Ensures->>= (membuf_strdup A pool_fuel k.heap k.pool (length value)) _
                        (λ g. Perm (live g.heap) (footprint (nodes g.pool) ++ rest)) _
                        (membuf_alloc-live A L pool_fuel k.heap k.pool (length value + 1) rest
                          kept')
                        λ v kept''. elim (Option-cases v.region) [
                          | inl e'' ↦ rw (e'') kept''
                          | inr (_, e'') ↦ rw (e'') kept''
                        ])
                ])
        ]

  pub memory_cache_set-Sets :
      (s : State) (cfg : Cfg) (key value : Bytes) (rest : List ℕ)
      → Perm (live s) (owned_blocks cfg ++ rest)
      → Ensures (Sets rest) (memory_cache_set A s cfg key value)
  unfolding memory_cache_set
  memory_cache_set-Sets s cfg key value rest h = elim (Option-cases cfg.cache_obj) [
    | inl closed ↦ rw (memory_cache_set, closed) h
    | inr (mc, opened) ↦ elim (Option-cases cfg.pool) [
      | inl no_pool ↦ rw (memory_cache_set, opened, no_pool) h
      | inr (pool, e) ↦
          rw (memory_cache_set, opened, e)
            (put_in-Sets s cfg pool mc key value rest (
              subst
                (λ o.
                  Perm (live s) (
                    (elim o as (λ _. List ℕ) [ none ↦ [] | some c ↦ footprint (nodes c) ]) ++ rest))
                e h))
    ]
  ]

  abbrev pub memory_cache_keeps_blocks : (stale : ℕ) → KeepsBlocks A L (memory_cache A stale)
  memory_cache_keeps_blocks stale = record {
    owned = owned_blocks;
    gets = λ s cfg key g rest h ran.
        Ensures-returns (Gets rest) _ g ran (memory_cache_get-Gets s cfg key rest h);
    sets = λ s cfg key text left rest h ran.
        Ensures-returns (Sets rest) _ left ran (memory_cache_set-Sets s cfg key text rest h);
  }
