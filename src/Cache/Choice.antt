-- ===== src/Cache/Choice.antt =====
-- `cache_set` of dacloud_cache.c against the identifiers that the providers give.
use deviceatlas_cloud_c.Prelude.{
  ◌≡◌, refl, inl, inr, some, Bool, true, ◌&&◌, Bool-cases, arith, map, Bytes, codes, same_text,
  to_lower, same_text_nocase, same_text→eq,
}
use deviceatlas_cloud_c.Cache.{
  Provider, file, memcached, memory, mock, Ops, all_of, cache_set, cache_id,
}

-- The providers that a build has.
abbrev pub IsBuilt : Bool → Provider → Type 0
IsBuilt have_memcached memcached = have_memcached ≡ true
IsBuilt have_memcached _ = Unit

abbrev lower : Bytes → Bytes
lower = map to_lower

-- A provider that the build has is chosen, with all its functions, for its own identifier in any
-- spelling of its letters.
pub cache_set-id :
    (have_memcached : Bool) (cops : Ops) (cache_name : Bytes) (p : Provider)
    → IsBuilt have_memcached p
    → same_text_nocase cache_name (cache_id p) ≡ true
    → cache_set have_memcached cops cache_name ≡ some (all_of p)
unfolding cache_set cache_id same_text_nocase same_text to_lower
cache_set-id b cops name p built h =
    by_name p built (same_text→eq (lower name) (lower (cache_id p)) h)
  where
    by_name :
        (q : Provider)
        → IsBuilt b q
        → lower name ≡ lower (cache_id q)
        → cache_set b cops name ≡ some (all_of q)
    by_name file built e = rw (e, cache_set) refl
    by_name memcached built e = rw (e, built, cache_set) refl
    by_name memory built e = rw (e, cache_set) (ground arith)
    by_name mock built e = rw (e, cache_set) (ground arith)

-- Where a provider is chosen, all five functions are those of one provider, the build has it, and
-- the name is its identifier in some spelling of its letters.
pub cache_set_only :
    (have_memcached : Bool) (cops chosen : Ops) (cache_name : Bytes)
    → cache_set have_memcached cops cache_name ≡ some chosen
    → (p : Provider) × (chosen ≡ all_of p)
      × IsBuilt have_memcached p
      × (same_text_nocase cache_name (cache_id p) ≡ true)
unfolding cache_set cache_id
cache_set_only b cops chosen name e = elim (Bool-cases (same_text_nocase name (codes "file"))) [
  | inl f ↦ (file, ground arith, tt, f)
  | inr not_file ↦ elim (Bool-cases (b && same_text_nocase name (codes "memcached"))) [
    | inl c ↦ (memcached, ground arith, ground arith, ground arith)
    | inr not_memcached ↦ elim (Bool-cases (same_text_nocase name (codes "memory"))) [
      | inl m ↦ (memory, ground arith, tt, m)
      | inr not_memory ↦ (mock, ground arith, tt, ground arith)
    ]
  ]
]
