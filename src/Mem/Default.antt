-- ===== src/Mem/Default.antt =====
-- dacloud_mem.c, the default functions of `struct da_cloud_allocator`, over those of the C library.
use mathlib.Core.Option.{some-injective}
use deviceatlas_cloud_c.Prelude.{
  ℕ, ◌+◌, ◌<◌, ◌≡◌, ◌≢◌, sym, subst, Option, none, some, Option-cases, inl, inr, List, ◌∷◌, Perm,
}
use deviceatlas_cloud_c.Mem.{Allocator, AllocatorLaws, size_mod}
use deviceatlas_cloud_c.Mem.Moving.{CopyLaws, RefusalLaws}

-- malloc, realloc, strdup and free of the C library; 0 is a null pointer, and strdup takes the length
-- of its text.
pub record Libc : Type 1 where
  pub State : Type 0
  pub malloc : State → ℕ → Option ℕ × State
  pub realloc : State → ℕ → ℕ → Option ℕ × State
  pub strdup : State → ℕ → Option ℕ × State
  pub free : State → ℕ → State

-- What the C library promises of them: a call that gives a null pointer changes nothing, so a block
-- that realloc could not move is still there.
pub record LibcLaws (M : Libc) : Type 0 where
  pub live : M.State → List ℕ
  pub malloc_some :
      (s : M.State) (size p : ℕ)
      → (M.malloc s size).0 ≡ some p
      → Perm (live (M.malloc s size).1) (p ∷ live s) × (p + size < size_mod) × (p ≢ 0)
  pub malloc_none :
      (s : M.State) (size : ℕ) → (M.malloc s size).0 ≡ none → live (M.malloc s size).1 ≡ live s
  pub realloc_null :
      (s : M.State) (size q : ℕ)
      → (M.realloc s 0 size).0 ≡ some q
      → Perm (live (M.realloc s 0 size).1) (q ∷ live s) × (q ≢ 0)
  pub realloc_some :
      (s : M.State) (p size q : ℕ) (rest : List ℕ)
      → p ≢ 0
      → Perm (live s) (p ∷ rest)
      → (M.realloc s p size).0 ≡ some q
      → Perm (live (M.realloc s p size).1) (q ∷ rest) × (q ≢ 0)
  pub realloc_none :
      (s : M.State) (p size : ℕ)
      → (M.realloc s p size).0 ≡ none
      → live (M.realloc s p size).1 ≡ live s
  pub strdup_some :
      (s : M.State) (strlen q : ℕ)
      → (M.strdup s strlen).0 ≡ some q
      → Perm (live (M.strdup s strlen).1) (q ∷ live s)
  pub strdup_none :
      (s : M.State) (strlen : ℕ)
      → (M.strdup s strlen).0 ≡ none
      → live (M.strdup s strlen).1 ≡ live s
  pub free_live :
      (s : M.State) (p : ℕ) (rest : List ℕ)
      → Perm (live s) (p ∷ rest)
      → Perm (live (M.free s p)) rest

module _ (M : Libc) where
  open M use {State}

  -- The old block is freed where it could not be moved.
  unfoldable pub default_realloc : State → ℕ → ℕ → Option ℕ × State
  default_realloc s orig size =
      let (dest, s') = M.realloc s orig size in
      elim dest [ none ↦ (none, M.free s' orig) | some q ↦ (some q, s') ]

  -- What g_allocator holds at the start.
  abbrev pub default_allocator : Allocator
  default_allocator = record {
    State = State;
    alloc = M.malloc;
    realloc = default_realloc;
    strdup = M.strdup;
    free = M.free;
  }

module _ (M : Libc) (L : LibcLaws M) where
  open M use {State}
  open L use {live}

  -- The two ways through a call.
  default_realloc_cases :
      (s : State) (p size : ℕ) (P : Option ℕ × State → Type 0)
      → ((M.realloc s p size).0 ≡ none → P (none, M.free (M.realloc s p size).1 p))
      → ((q : ℕ) → (M.realloc s p size).0 ≡ some q → P (some q, (M.realloc s p size).1))
      → P (default_realloc M s p size)
  unfolding default_realloc
  default_realloc_cases s p size P lost moved = elim (Option-cases (M.realloc s p size).0) [
    | inl e ↦ rw (default_realloc, e) (lost e)
    | inr (q, e) ↦ rw (default_realloc, e) (moved q e)
  ]

  abbrev pub default_lawful : AllocatorLaws (default_allocator M)
  default_lawful = record {
    live = live;
    alloc_some = λ s size p e. let (took, fits, _) = L.malloc_some s size p e in (took, fits);
    alloc_none = L.malloc_none;
    free_live = L.free_live;
  }

  pub default_realloc-moves :
      (s : State) (p size q : ℕ) (after : List ℕ)
      → ((q : ℕ)
          → (M.realloc s p size).0 ≡ some q
          → Perm (live (M.realloc s p size).1) (q ∷ after) × (q ≢ 0))
      → (default_realloc M s p size).0 ≡ some q
      → Perm (live (default_realloc M s p size).1) (q ∷ after) × (q ≢ 0)
  default_realloc-moves s p size q after moved =
      default_realloc_cases s p size (λ r. r.0 ≡ some q → Perm (live r.1) (q ∷ after) × (q ≢ 0))
        (λ lost e. absurd (cc))
        λ q' e same.
          subst (λ k. Perm (live (M.realloc s p size).1) (k ∷ after) × (k ≢ 0))
            (some-injective q' q same) (moved q' e)

  default_realloc-frees :
      (s : State) (p size : ℕ) (rest : List ℕ)
      → Perm (live s) (p ∷ rest)
      → (default_realloc M s p size).0 ≡ none
      → Perm (live (default_realloc M s p size).1) rest
  default_realloc-frees s p size rest h =
      default_realloc_cases s p size (λ r. r.0 ≡ none → Perm (live r.1) rest)
        (λ lost e.
          L.free_live _ p rest
            (subst (λ l. Perm l (p ∷ rest)) (sym (L.realloc_none s p size lost)) h))
        λ q e same. absurd (cc)

  -- The default functions of the allocator satisfy, over a C library whose failing calls change
  -- nothing, what the detection and the loading of servers rely on: a block that was moved takes
  -- the place of the old one, a copy is a new block, no block is at 0, and the block that
  -- default_realloc could not move is given back.
  pub default_allocator_lawful :
      CopyLaws (default_allocator M) default_lawful
      × RefusalLaws (default_allocator M) default_lawful
  default_allocator_lawful = (
    record {
      moves_null = λ s size q. default_realloc-moves s 0 size q (live s) (L.realloc_null s size);
      moves_some = λ s p size q rest nonzero h.
          default_realloc-moves s p size q rest (λ q'. L.realloc_some s p size q' rest nonzero h);
      copies = L.strdup_some;
    },
    record {
      nonzero = λ s size p e. (L.malloc_some s size p e).2;
      freed = λ s p size rest nonzero. default_realloc-frees s p size rest;
      uncopied = L.strdup_none;
    },
  )
