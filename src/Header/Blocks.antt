-- ===== src/Header/Blocks.antt =====
-- dacloud_header_property.c, the blocks of the pool that the request headers live in.
use mathlib.Core.Option.{some-injective}
use deviceatlas_cloud_c.Prelude.{
  ℕ, ◌+◌, ◌≡◌, subst, Option, List, ◌++◌, Perm, inl, inr, Bool-cases, Option-cases, none, some,
  length, arith, Bytes, Ensures, Ensures->>=,
}
use deviceatlas_cloud_c.Mem.{Allocator, AllocatorLaws}
use deviceatlas_cloud_c.Membuf.{Grant, nodes, membuf_create, membuf_fill, membuf_copy}
use deviceatlas_cloud_c.Membuf.Creation.{Created-none, Created-some, membuf_create-Created}
use deviceatlas_cloud_c.Membuf.Leaks.{footprint, membuf_fill-live, membuf_free-live}
use deviceatlas_cloud_c.Header.{
  Header, HeaderHead, Added, has_key, link_new, fill_header, header_add, header_init, header_free,
  pool_fuel, sizeof_header, sizeof_prefix, pool_size, make_header, link_header,
}

module _ (A : Allocator) (L : AllocatorLaws A) where
  open A use {State}
  open L use {live}

  -- A new head has its pool's blocks.
  abbrev pub Inits : List ℕ → Option HeaderHead × State → Type 0
  Inits rest (none, s) = Perm (live s) rest
  Inits rest (some head, s) = Perm (live s) (footprint (nodes head.pool) ++ rest)

  pub Inits-some :
      (rest : List ℕ) (r : Option HeaderHead × State) (head : HeaderHead)
      → Inits rest r
      → r.0 ≡ some head
      → Perm (live r.1) (footprint (nodes head.pool) ++ rest)
  Inits-some rest (none, s) head h e = absurd (cc)
  Inits-some rest (some head', s) head h e =
      subst (λ (x : HeaderHead). Perm (live s) (footprint (nodes x.pool) ++ rest))
        (some-injective head' head e) h

  pub header_init-live : (s : State) → Inits (live s) (header_init A s)
  unfolding header_init footprint
  header_init-live s =
      let created = membuf_create-Created A L s pool_size (omega arith) in
      elim (Option-cases (membuf_create A s pool_size).0) [
        | inl no_pool ↦
            rw (header_init, no_pool) (Created-none A L pool_size (live s) _ created no_pool)
        | inr (d, pool) ↦
            rw (header_init, pool) (Created-some A L pool_size (live s) _ d created pool).0
      ]

  pub header_free-live :
      (s : State) (head : HeaderHead) (rest : List ℕ)
      → Perm (live s) (footprint (nodes head.pool) ++ rest)
      → Perm (live (header_free A s head)) rest
  unfolding header_free
  header_free-live s head rest h = membuf_free-live A L s (nodes head.pool) rest h

module _ (A : Allocator) (L : AllocatorLaws A) (xxh64 : Bytes → ℕ → ℕ) where
  open A use {State}
  open L use {live}

  abbrev pub Adds : List ℕ → Added A → Type 0
  Adds rest r = Perm (live r.heap) (footprint (nodes r.head.pool) ++ rest)

  link_new-live :
      (head : HeaderHead) (dh : Header) (value : Grant A) (rest : List ℕ)
      → Perm (live value.heap) (footprint (nodes value.pool) ++ rest)
      → Ensures (Adds rest) (link_new A xxh64 head dh value)
  unfolding link_new link_header
  link_new-live head dh value rest h = elim (Bool-cases (has_key dh.key head.list)) [
    | inl known ↦ rw (link_new, known) h
    | inr new ↦ elim (Option-cases value.region) [
      | inl lost ↦ rw (link_new, new, lost) tt
      | inr (p, got) ↦ rw (link_new, new, got, link_header) h
    ]
  ]

  pub header_add-live :
      (s : State) (head : HeaderHead) (key value : Bytes) (rest : List ℕ)
      → Perm (live s) (footprint (nodes head.pool) ++ rest)
      → Ensures (Adds rest) (header_add A xxh64 s head key value)
  unfolding header_add fill_header membuf_copy
  header_add-live s head key value rest h =
      Ensures->>= (membuf_fill A pool_fuel s head.pool sizeof_header) _
        (λ g. Perm (live g.heap) (footprint (nodes g.pool) ++ rest)) _
        (membuf_fill-live A L pool_fuel s head.pool sizeof_header rest h)
        λ dh kept. elim (Option-cases dh.region) [
          | inl e ↦ rw (e) kept
          | inr (_, e) ↦
              let size = length key + sizeof_prefix + sizeof_prefix + 1 in
              rw (e) (
                Ensures->>= (membuf_fill A pool_fuel dh.heap dh.pool size) _
                  (λ g. Perm (live g.heap) (footprint (nodes g.pool) ++ rest)) _
                  (membuf_fill-live A L pool_fuel dh.heap dh.pool size rest kept)
                  λ k kept'. elim (Option-cases k.region) [
                    | inl e' ↦ rw (e') tt
                    | inr (_, e') ↦ rw (e') (
                        Ensures->>= (membuf_copy A pool_fuel k.heap k.pool (length value)) _
                          (λ g. Perm (live g.heap) (footprint (nodes g.pool) ++ rest)) _
                          (membuf_fill-live A L pool_fuel k.heap k.pool (length value + 1) rest
                            kept')
                          λ v kept''. link_new-live head (make_header key value) v rest kept'')
                  ])
        ]
