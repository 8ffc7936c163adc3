-- ===== src/Client/Closing.antt =====
-- dacloud.c, what da_cloud_fini gives back of what da_cloud_init took.
use deviceatlas_cloud_c.Prelude.{
  ℕ, ◌≡◌, Option, none, some, List, ◌++◌, Perm, Bool, Bytes, ℤ, done, returns, Ensures,
  Ensures-known, Ensures-returns,
}
use deviceatlas_cloud_c.Mem.{Allocator, AllocatorLaws}
use deviceatlas_cloud_c.Mem.Moving.{CopyLaws, RefusalLaws}
use deviceatlas_cloud_c.Cache.{CString, Provider}
use deviceatlas_cloud_c.Cache.Blocks.{text_blocks}
use deviceatlas_cloud_c.Server.{Server}
use deviceatlas_cloud_c.Ranking.{Probes}
use deviceatlas_cloud_c.Config.{Platform, Plugin, free_pointer}
use deviceatlas_cloud_c.Client.Balance.{free_head-live}
use deviceatlas_cloud_c.Client.Life.{PluginBlocks, Kept, Good, init-Kept}
use deviceatlas_cloud_c.Client.{Config, Inited, init, pointer_of, fini}

module _ (A : Allocator) (plugins : Provider → Plugin A) (have_memcached : Bool) (P : Platform)
    (W : Probes) (qsort : (Server → Server → ℤ) → List Server → List Server) (L : AllocatorLaws A)
    (K : CopyLaws A L) (X : RefusalLaws A L) (B : (p : Provider) → PluginBlocks A L (plugins p))
    (sorts : (cmp : Server → Server → ℤ) (xs : List Server) → Perm (qsort cmp xs) xs) where
  open A use {State}
  open L use {live}

  free_key :
      (key : Option CString) (s : State) (rest : List ℕ)
      → Perm (live s) (text_blocks key ++ rest)
      → Perm (live (free_pointer A s (pointer_of A plugins have_memcached P W qsort key))) rest
  free_key none s rest h = h
  free_key (some (p, t)) s rest h = L.free_live s p rest h

  pub fini-live :
      (s : State) (config : Config A plugins have_memcached P W qsort) (before : List ℕ)
      → Kept A plugins have_memcached P W qsort L K X B sorts before s config
      → Ensures (λ s'. Perm (live s') before) (fini A plugins have_memcached P W qsort s config)
  unfolding fini
  fini-live s config before kept =
      let left_head =
        free_head-live A plugins have_memcached P W qsort L K config.shead.self _ (config.shead, s)
          kept in
      Ensures-known _ ((plugins config.provider).ops.fini _ config.cache_cfg) _ λ left ran.
        free_key config.licence_key left.heap before
          ((B config.provider).closes _ config.cache_cfg left _ left_head ran)

  -- Over a lawful allocator that also moves and copies blocks lawfully and gives none at the
  -- address 0, with providers whose fini gives back what their init took and a qsort that only
  -- reorders, where da_cloud_init returned 0 and da_cloud_fini returns for the config that it
  -- left, every block that was taken for the servers, the licence key, the settings and the cache
  -- has been given back: the live blocks are those from before da_cloud_init.
  pub init-fini :
      (s : State) (net : W.Net) (old_id : Option Provider) (old_ranking : Bool) (confpath : Bytes)
      (r : Inited A plugins have_memcached P W qsort)
      → init A plugins have_memcached P W qsort s net old_id old_ranking confpath ≡ returns (some r)
      → r.status ≡ done
      → Ensures
          (λ s'. Perm (live s') (live s))
          (fini A plugins have_memcached P W qsort r.heap r.config)
  init-fini s net old_id old_ranking confpath r ran ok = fini-live r.heap r.config (live s) (
      Ensures-returns (Good A plugins have_memcached P W qsort L K X B sorts (live s)) _ (some r)
        ran
        (init-Kept A plugins have_memcached P W qsort L K X B sorts s net old_id old_ranking
          confpath)
        ok)
