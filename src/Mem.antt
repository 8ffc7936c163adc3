-- ===== src/Mem.antt =====
-- dacloud_mem.c, the memory blocks: `struct da_cloud_mem` and the allocation inside one block.
-- A pointer is its address, a number below 2 ^ 64; sizes are those of an LP64 platform.
-- The replaceable allocator `g_allocator` is the parameter `Allocator`.
pub mod Bounds
pub mod Overrun
pub mod Moving
pub mod Default
use deviceatlas_cloud_c.Prelude.{
  ℕ, ◌+◌, ◌-◌, ◌*◌, ◌/◌, ◌%◌, ◌^◌, ◌≤◌, ◌<◌, ◌≡◌, Option, none, some, List, ◌∷◌, Perm, Bool, ltb,
  if◌then◌else◌,
}

abbrev pub size_mod : ℕ
size_mod = 2 ^ 64

-- The functions of `struct da_cloud_allocator`, over whatever state they keep. A result of `none`
-- is a null pointer. `realloc` takes the old block and the new size; where it fails it has freed
-- the old block, as `default_realloc` does. `strdup` takes the length of the text that it copies.
pub record Allocator : Type 1 where
  pub State : Type 0
  pub alloc : State → ℕ → Option ℕ × State
  pub realloc : State → ℕ → ℕ → Option ℕ × State
  pub strdup : State → ℕ → Option ℕ × State
  pub free : State → ℕ → State

-- What the library relies on: the blocks handed out and not yet given back are known; a block lies
-- in the address space; a refused request changes nothing.
pub record AllocatorLaws (A : Allocator) : Type 0 where
  pub live : A.State → List ℕ
  pub alloc_some :
      (s : A.State) (size p : ℕ)
      → (A.alloc s size).0 ≡ some p
      → Perm (live (A.alloc s size).1) (p ∷ live s) × (p + size < size_mod)
  pub alloc_none :
      (s : A.State) (size : ℕ) → (A.alloc s size).0 ≡ none → live (A.alloc s size).1 ≡ live s
  pub free_live :
      (s : A.State) (p : ℕ) (rest : List ℕ)
      → Perm (live s) (p ∷ rest)
      → Perm (live (A.free s p)) rest

-- An allocator that is never out of memory.
pub record NeverFails (A : Allocator) : Type 0 where
  pub allocates : (s : A.State) (size : ℕ) → (p : ℕ) × ((A.alloc s size).0 ≡ some p)
  pub moves : (s : A.State) (p size : ℕ) → (q : ℕ) × ((A.realloc s p size).0 ≡ some q)
  pub copies : (s : A.State) (strlen : ℕ) → (p : ℕ) × ((A.strdup s strlen).0 ≡ some p)

-- struct da_cloud_mem: the size, the next free byte and the end of the block.
pub record Mem : Type 0 where
  pub a : ℕ
  pub n : ℕ
  pub e : ℕ

abbrev pub sizeof_mem : ℕ
sizeof_mem = 24

-- (size_t)(dcm->e - dcm->n)
unfoldable pub room : Mem → ℕ
room dcm = (dcm.e + size_mod - dcm.n) % size_mod

-- (needed + 3) & 0xfffffffc: the mask has 32 bits, so it also clears the upper half.
unfoldable pub rounded : ℕ → ℕ
rounded needed = (needed + 3) % size_mod % 2 ^ 32 / 4 * 4

-- `none` is the null pointer, with the block left as it was.
unfoldable pub mem_alloc : Option Mem → ℕ → Option (ℕ × Mem)
mem_alloc none needed = none
mem_alloc (some dcm) needed =
    if ltb needed (room dcm)
    then some (dcm.n, record dcm { n = (dcm.n + rounded needed) % size_mod })
    else none

-- The copy of a text of `strlen` bytes.
unfoldable pub mem_strdup : Option Mem → ℕ → Option (ℕ × Mem)
unfolding mem_alloc
mem_strdup dcm strlen = mem_alloc dcm ((strlen + 1) % size_mod)

module _ (A : Allocator) where
  open A use {State, alloc, free}

  -- The address of the new struct, and its contents.
  unfoldable pub mem_create : State → ℕ → Option (ℕ × Mem) × State
  mem_create s needed =
      let (dcm, s') = alloc s ((sizeof_mem + needed) % size_mod) in
      elim dcm [
        | none ↦ (none, s')
        | some p ↦ (
          some (
            p,
            record { a = needed; n = p + sizeof_mem; e = (p + sizeof_mem + needed) % size_mod },
          ),
          s',
        )
      ]

  -- if (dcm) g_allocator.free(g_allocator.child_ctx, dcm)
  unfoldable pub mem_free : State → Option ℕ → State
  mem_free s none = s
  mem_free s (some p) = free s p
