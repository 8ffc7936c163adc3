-- ===== src/Tests/Libc.antt =====
-- A C library's heap, and the theorem on the default functions of dacloud_mem.c over it.
use mathlib.Core.List.Perm
use native.Mathlib.Decide.{ℕ_discrete}
use mathlib.Core.Option.{some-injective}
use deviceatlas_cloud_c.Prelude.{
  ℕ, zero, suc, ◌+◌, ◌≡◌, ◌<◌, ◌≢◌, refl, subst, Option, none, some, List, ◌∷◌, Perm, Bool, true,
  false, ltb, arith,
}
use deviceatlas_cloud_c.Mem.{size_mod}
use deviceatlas_cloud_c.Mem.Moving.{CopyLaws, RefusalLaws}
use deviceatlas_cloud_c.Mem.Default.{
  Libc, LibcLaws, default_allocator, default_lawful, default_allocator_lawful,
}
use deviceatlas_cloud_c.Tests.Samples.{Heap, grant, grant-none, give_back, erase_head, grant-some}

-- The address 0 is never handed out.
abbrev pub take : Heap → ℕ → Option ℕ × Heap
take s size = grant (ltb (suc s.0 + size) size_mod) (suc s.0, s.1) size

pub take-some :
    (s : Heap) (size p : ℕ)
    → (take s size).0 ≡ some p
    → Perm (take s size).1.1 (p ∷ s.1) × (p + size < size_mod)
take-some s size p e = grant-some (ltb (suc s.0 + size) size_mod) (suc s.0, s.1) size p refl e

pub give_back-live :
    (s : Heap) (p : ℕ) (rest : List ℕ) → Perm s.1 (p ∷ rest) → Perm (give_back s p).1 rest
give_back-live s p rest h = subst (Perm _) (erase_head p rest) (Perm.erase ℕ_discrete p h)

pub grant-nonzero :
    (b : Bool) (s : Heap) (size n q : ℕ) → (grant b (suc n, s.1) size).0 ≡ some q → q ≢ 0
grant-nonzero true s size n q e = λ null. absurd (omega (arith, null, some-injective (suc n) q e))
grant-nonzero false s size n q e = absurd (cc)

-- A block moves to a new address, or stays where there is none.
abbrev pub relocate : Bool → Heap → ℕ → ℕ → Option ℕ × Heap
relocate true s zero size = grant true (suc s.0, s.1) size
relocate true s (suc p) size = grant true (suc s.0, (give_back s (suc p)).1) size
relocate false s p size = (none, s)

abbrev pub libc : Libc
libc = record {
  State = Heap;
  malloc = take;
  realloc = λ s p size. relocate (ltb (suc s.0 + size) size_mod) s p size;
  strdup = λ s strlen. take s (strlen + 1);
  free = give_back;
}

pub at_next :
    (next size q : ℕ) (blocks rest : List ℕ)
    → Perm blocks rest
    → (grant true (suc next, blocks) size).0 ≡ some q
    → Perm (suc next ∷ blocks) (q ∷ rest) × (q ≢ 0)
at_next next size q blocks rest h e =
    let same = some-injective (suc next) q e in
    (
      subst (λ k. Perm (suc next ∷ blocks) (k ∷ rest)) same (Perm.cons (suc next) h),
      λ null. absurd (omega (arith, null, same)),
    )

pub relocate_null :
    (b : Bool) (s : Heap) (size q : ℕ)
    → (relocate b s 0 size).0 ≡ some q
    → Perm (relocate b s 0 size).1.1 (q ∷ s.1) × (q ≢ 0)
relocate_null true s size q e = at_next s.0 size q s.1 s.1 Perm.rfl e
relocate_null false s size q e = absurd (cc)

pub relocate-some :
    (b : Bool) (s : Heap) (p size q : ℕ) (rest : List ℕ)
    → p ≢ 0
    → Perm s.1 (p ∷ rest)
    → (relocate b s p size).0 ≡ some q
    → Perm (relocate b s p size).1.1 (q ∷ rest) × (q ≢ 0)
relocate-some true s zero size q rest nonzero h e = absurd (nonzero refl)
relocate-some true s (suc p) size q rest nonzero h e =
    at_next s.0 size q _ rest (give_back-live s (suc p) rest h) e
relocate-some false s p size q rest nonzero h e = absurd (cc)

pub relocate-none :
    (b : Bool) (s : Heap) (p size : ℕ)
    → (relocate b s p size).0 ≡ none
    → (relocate b s p size).1.1 ≡ s.1
relocate-none true s zero size e = absurd (cc)
relocate-none true s (suc p) size e = absurd (cc)
relocate-none false s p size e = refl

abbrev pub libc_lawful : LibcLaws libc
libc_lawful = record {
  live = λ s. s.1;
  malloc_some = λ s size p e.
      let (took, fits) = take-some s size p e in
      (took, fits, grant-nonzero (ltb (suc s.0 + size) size_mod) s size s.0 p e);
  malloc_none = λ s size e. grant-none (ltb (suc s.0 + size) size_mod) (suc s.0, s.1) size e;
  realloc_null = λ s size. relocate_null (ltb (suc s.0 + size) size_mod) s size;
  realloc_some = λ s p size. relocate-some (ltb (suc s.0 + size) size_mod) s p size;
  realloc_none = λ s p size. relocate-none (ltb (suc s.0 + size) size_mod) s p size;
  strdup_some = λ s strlen q e. (take-some s (strlen + 1) q e).0;
  strdup_none = λ s strlen e.
      grant-none (ltb (suc s.0 + (strlen + 1)) size_mod) (suc s.0, s.1) (strlen + 1) e;
  free_live = give_back-live;
}

default_allocator_lawful_example :
    CopyLaws (default_allocator libc) (default_lawful libc libc_lawful)
    × RefusalLaws (default_allocator libc) (default_lawful libc libc_lawful)
default_allocator_lawful_example = default_allocator_lawful libc libc_lawful
