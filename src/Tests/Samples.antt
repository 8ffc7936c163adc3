-- ===== src/Tests/Samples.antt =====
-- An allocator that satisfies the laws, and the data that the tests share.
use mathlib.Core.Logic.{ite}
use native.Mathlib.Decide.{ℕ_discrete}
use mathlib.Core.List.{erase, foldl}
use mathlib.Core.List.Perm
use mathlib.Core.Option.{some-injective}
use deviceatlas_cloud_c.Prelude.{
  ℕ, Bytes, ◌+◌, ◌%◌, ◌<◌, ◌^◌, ◌≡◌, refl, Option, none, some, List, [], ◌∷◌, Perm, Bool, true,
  false, ltb, subst, arith,
}
use deviceatlas_cloud_c.Mem.{Allocator, AllocatorLaws, size_mod}
use deviceatlas_cloud_c.Membuf.{Pool}
use deviceatlas_cloud_c.Header.{HeaderHead}

-- The next free address, and the blocks handed out.
abbrev pub Heap : Type 0
Heap = ℕ × List ℕ

abbrev pub grant : Bool → Heap → ℕ → Option ℕ × Heap
grant true (next, blocks) size = (some next, (next + size, next ∷ blocks))
grant false s size = (none, s)

abbrev pub take_block : Heap → ℕ → Option ℕ × Heap
take_block s size = grant (ltb (s.0 + size) size_mod) s size

abbrev pub give_back : Heap → ℕ → Heap
give_back (next, blocks) p = (next, erase ℕ_discrete blocks p)

-- Addresses are handed out upwards and never again.
abbrev pub bump : Allocator
bump = record {
  State = Heap;
  alloc = take_block;
  realloc = λ s p size. take_block (give_back s p) size;
  strdup = λ s strlen. take_block s (strlen + 1);
  free = give_back;
}

pub erase_head : (p : ℕ) (rest : List ℕ) → erase ℕ_discrete (p ∷ rest) p ≡ rest
erase_head p rest =
    elim (ℕ_discrete p p) as (λ d. ite d rest (p ∷ erase ℕ_discrete rest p) ≡ rest) [
      | yes e ↦ refl
      | no n ↦ absurd (n refl)
    ]

pub grant-some :
    (b : Bool) (s : Heap) (size p : ℕ)
    → ltb (s.0 + size) size_mod ≡ b
    → (grant b s size).0 ≡ some p
    → Perm (grant b s size).1.1 (p ∷ s.1) × (p + size < size_mod)
grant-some true (next, blocks) size p fits e =
    let at = some-injective next p e in
    (subst (λ q. Perm (next ∷ blocks) (q ∷ blocks)) at Perm.rfl, ground arith)
grant-some false s size p full e = absurd (cc)

pub grant-none :
    (b : Bool) (s : Heap) (size : ℕ) → (grant b s size).0 ≡ none → (grant b s size).1.1 ≡ s.1
grant-none true (next, blocks) size e = absurd (cc)
grant-none false s size e = refl

abbrev pub bump_lawful : AllocatorLaws bump
bump_lawful = record {
  live = λ s. s.1;
  alloc_some = λ s size p e. grant-some (ltb (s.0 + size) size_mod) s size p refl e;
  alloc_none = λ s size e. grant-none (ltb (s.0 + size) size_mod) s size e;
  free_live = λ s p rest h. subst (Perm _) (erase_head p rest) (Perm.erase ℕ_discrete p h);
}

-- Nothing is handed out yet.
abbrev pub fresh_heap : Heap
fresh_heap = (4096, [])

-- The sum of the bytes, as a word.
abbrev pub sum_bytes : Bytes → ℕ → ℕ
sum_bytes buffer seed = foldl (◌+◌) seed buffer % 2 ^ 64

-- A pool of one block of 64 bytes, of which 16 are taken.
abbrev pub small_pool : Pool
small_pool = record {
  before = [];
  dcm = record { node = 1000; block = 1016; p = record { a = 64; n = 1056; e = 1104 } };
}

-- The same, with room for a few headers.
abbrev pub large_pool : Pool
large_pool = record {
  before = [];
  dcm = record { node = 1000; block = 1016; p = record { a = 1000; n = 1040; e = 2040 } };
}

abbrev pub no_headers : HeaderHead
no_headers = record { cachekey = []; hash = 0; pool = large_pool; list = [] }
