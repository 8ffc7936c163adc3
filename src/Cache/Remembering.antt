-- ===== src/Cache/Remembering.antt =====
-- What da_cloud_detect of dacloud.c relies on of a cache provider that remembers, as laws on the
-- provider's operations.
use deviceatlas_cloud_c.Prelude.{ℕ, ◌≡◌, none, some, length, Bytes, done, returns, Returns}
use deviceatlas_cloud_c.Mem.{Allocator}
use deviceatlas_cloud_c.Cache.{Got, Left, CacheOps}

-- `Ready` says that the provider knows nothing under the key and can take a text in; `Has` that it
-- gives this text for the key. A get needs memory for its copy.
pub record Remembers (A : Allocator) (C : CacheOps A) : Type 1 where
  pub Ready : C.Cfg → Bytes → Type 0
  pub Has : C.Cfg → Bytes → Bytes → Type 0
  pub looks :
      (s : A.State) (cfg : C.Cfg) (key : Bytes) (g : Got A.State C.Cfg)
      → Ready cfg key
      → C.get s cfg key (some none) ≡ returns g
      → (g.value ≡ some none) × Ready g.cfg key
  pub takes :
      (s : A.State) (cfg : C.Cfg) (key text : Bytes) (left : Left A.State C.Cfg)
      → Ready cfg key
      → C.set s cfg key text ≡ returns left
      → left.status ≡ done
      → Has left.cfg key text
  pub gives :
      (s : A.State) (cfg : C.Cfg) (key text : Bytes) (p : ℕ)
      → Has cfg key text
      → (A.strdup s (length text)).0 ≡ some p
      → Returns
          (λ g. (g.value ≡ some (some (p, text))) × Has g.cfg key text)
          (C.get s cfg key (some none))
