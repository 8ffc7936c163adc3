-- ===== src/Detect/ListBlocks.antt =====
-- dacloud.c, the blocks that the loop of `da_cloud_detect` over the members of an answer takes.
use deviceatlas_cloud_c.Prelude.{
  ℕ, ◌+◌, Option, none, some, List, [], ◌∷◌, ◌++◌, Perm, inl, inr, Bool-cases, Option-cases, length,
  Bytes, Ensures, Ensures->>=,
}
use deviceatlas_cloud_c.Mem.{Allocator, AllocatorLaws}
use deviceatlas_cloud_c.Membuf.{Pool, nodes, membuf_fill, membuf_copy}
use deviceatlas_cloud_c.Membuf.Leaks.{footprint, membuf_fill-live}
use deviceatlas_cloud_c.Header.{pool_fuel}
use deviceatlas_cloud_c.Property.{Property}
use deviceatlas_cloud_c.Detect.Answer.{
  JsonValue, copied, copy_value, make_property, list_properties, sizeof_property,
}

module _ (A : Allocator) (L : AllocatorLaws A) where
  open A use {State}
  open L use {live}

  copy_value-live :
      (s : State) (pool : Pool) (strlen : Option ℕ) (rest : List ℕ)
      → Perm (live s) (footprint (nodes pool) ++ rest)
      → Ensures (λ v. Perm (live v.2) (footprint (nodes v.1) ++ rest)) (copy_value A s pool strlen)
  unfolding copy_value membuf_copy
  copy_value-live s pool none rest h = h
  copy_value-live s pool (some strlen) rest h =
      Ensures->>= (membuf_copy A pool_fuel s pool strlen) _
        (λ g. Perm (live g.heap) (footprint (nodes g.pool) ++ rest)) _
        (membuf_fill-live A L pool_fuel s pool (strlen + 1) rest h)
        λ g kept. elim (Option-cases g.region) [
          | inl lost ↦ rw (lost) kept
          | inr (p, got) ↦ rw (got) kept
        ]

  pub list_properties-live :
      (s : State) (pool : Pool) (list : List Property) (it : List (Bytes × JsonValue))
      (rest : List ℕ)
      → Perm (live s) (footprint (nodes pool) ++ rest)
      → Ensures
          (λ r. Perm (live r.heap) (footprint (nodes r.pool) ++ rest))
          (list_properties A s pool list it)
  unfolding list_properties membuf_copy
  list_properties-live s pool list [] rest h = h
  list_properties-live s pool list ((key, value) ∷ it) rest h =
      Ensures->>= (membuf_fill A pool_fuel s pool sizeof_property) _
        (λ g. Perm (live g.heap) (footprint (nodes g.pool) ++ rest)) _
        (membuf_fill-live A L pool_fuel s pool sizeof_property rest h)
        λ p kept. elim (Option-cases p.region) [
          | inl e ↦ rw (e) kept
          | inr (_, e) ↦ rw (e) (
              Ensures->>= (membuf_copy A pool_fuel p.heap p.pool (length key)) _
                (λ g. Perm (live g.heap) (footprint (nodes g.pool) ++ rest)) _
                (membuf_fill-live A L pool_fuel p.heap p.pool (length key + 1) rest kept)
                λ n kept'. elim (Option-cases n.region) [
                  | inl e' ↦ rw (e') kept'
                  | inr (_, e') ↦ rw (e') (
                      Ensures->>= (copy_value A n.heap n.pool (copied value)) _
                        (λ v. Perm (live v.2) (footprint (nodes v.1) ++ rest)) _
                        (copy_value-live n.heap n.pool (copied value) rest kept')
                        λ v kept''. elim (Bool-cases v.0) [
                          | inl whole ↦ rw (whole) (
                              list_properties-live v.2 v.1 (make_property key value ∷ list) it rest
                                kept'')
                          | inr short ↦ rw (short) kept''
                        ])
                ])
        ]
