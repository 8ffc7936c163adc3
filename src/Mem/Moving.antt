-- ===== src/Mem/Moving.antt =====
-- What the library relies on of an allocator's realloc and strdup, and of the addresses it gives, as
-- laws on the functions of `struct da_cloud_allocator` of dacloud_mem.h.
use deviceatlas_cloud_c.Prelude.{ℕ, ◌≡◌, ◌≢◌, none, some, List, ◌∷◌, Perm}
use deviceatlas_cloud_c.Mem.{Allocator, AllocatorLaws}

-- What is relied on besides: a block that was moved takes the place of the old one, and a copy is a
-- new block. No block has the address 0.
pub record CopyLaws (A : Allocator) (L : AllocatorLaws A) : Type 0 where
  pub moves_null :
      (s : A.State) (size q : ℕ)
      → (A.realloc s 0 size).0 ≡ some q
      → Perm (L.live (A.realloc s 0 size).1) (q ∷ L.live s) × (q ≢ 0)
  pub moves_some :
      (s : A.State) (p size q : ℕ) (rest : List ℕ)
      → p ≢ 0
      → Perm (L.live s) (p ∷ rest)
      → (A.realloc s p size).0 ≡ some q
      → Perm (L.live (A.realloc s p size).1) (q ∷ rest) × (q ≢ 0)
  pub copies :
      (s : A.State) (strlen q : ℕ)
      → (A.strdup s strlen).0 ≡ some q
      → Perm (L.live (A.strdup s strlen).1) (q ∷ L.live s)

-- What holds where a call is refused: the block that could not be moved is freed, as `default_realloc`
-- does, and a copy that could not be made changes nothing. A block that is there is not at 0.
pub record RefusalLaws (A : Allocator) (L : AllocatorLaws A) : Type 0 where
  pub nonzero : (s : A.State) (size p : ℕ) → (A.alloc s size).0 ≡ some p → p ≢ 0
  pub freed :
      (s : A.State) (p size : ℕ) (rest : List ℕ)
      → p ≢ 0
      → Perm (L.live s) (p ∷ rest)
      → (A.realloc s p size).0 ≡ none
      → Perm (L.live (A.realloc s p size).1) rest
  pub uncopied :
      (s : A.State) (strlen : ℕ)
      → (A.strdup s strlen).0 ≡ none
      → L.live (A.strdup s strlen).1 ≡ L.live s
