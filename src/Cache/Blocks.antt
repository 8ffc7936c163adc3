-- ===== src/Cache/Blocks.antt =====
-- What da_cloud_detect of dacloud.c relies on of a cache provider's memory, as laws on the operations
-- of struct da_cloud_cache_ops.
use deviceatlas_cloud_c.Prelude.{
  ℕ, ◌≡◌, Option, none, some, List, [], ◌∷◌, ◌++◌, Perm, Bytes, returns,
}
use deviceatlas_cloud_c.Mem.{Allocator, AllocatorLaws}
use deviceatlas_cloud_c.Cache.{CString, Got, Left, CacheOps}

-- The block of a text that was handed out.
abbrev pub text_blocks : Option CString → List ℕ
text_blocks none = []
text_blocks (some (p, t)) = p ∷ []

-- The text that a `get` left in a null pointer.
abbrev pub value_blocks : Option (Option CString) → List ℕ
value_blocks none = []
value_blocks (some v) = text_blocks v

-- The blocks that the provider holds, in a state of the allocator that has those of `rest` besides:
-- a get adds the block of the text that it hands out, and neither call touches other blocks.
pub record KeepsBlocks (A : Allocator) (L : AllocatorLaws A) (C : CacheOps A) : Type 1 where
  pub owned : C.Cfg → List ℕ
  pub gets :
      (s : A.State) (cfg : C.Cfg) (key : Bytes) (g : Got A.State C.Cfg) (rest : List ℕ)
      → Perm (L.live s) (owned cfg ++ rest)
      → C.get s cfg key (some none) ≡ returns g
      → Perm (L.live g.heap) (value_blocks g.value ++ owned g.cfg ++ rest)
  pub sets :
      (s : A.State) (cfg : C.Cfg) (key text : Bytes) (left : Left A.State C.Cfg) (rest : List ℕ)
      → Perm (L.live s) (owned cfg ++ rest)
      → C.set s cfg key text ≡ returns left
      → Perm (L.live left.heap) (owned left.cfg ++ rest)
