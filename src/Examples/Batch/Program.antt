-- ===== src/Examples/Batch/Program.antt =====
-- examples/dacloud_batch.c, the blocks of the whole program: da_cloud_init, the loop over the lines and
-- da_cloud_fini.
use mathlib.Core.List.Perm
use mathlib.Core.List.{perm_middle}
use deviceatlas_cloud_c.Prelude.{
  ℕ, ◌≤◌, ◌≡◌, none, some, Option-cases, inl, inr, List, [], ◌∷◌, ◌++◌, Perm, Bool, false,
  if◌then◌else◌, length, Bytes, ℤ, done, returns, Ensures, Ensures->>=, Ensures-returns, front_swap,
}
use deviceatlas_cloud_c.Mem.{Allocator, AllocatorLaws}
use deviceatlas_cloud_c.Mem.Moving.{CopyLaws, RefusalLaws}
use deviceatlas_cloud_c.Cache.{Provider}
use deviceatlas_cloud_c.Cache.Blocks.{text_blocks}
use deviceatlas_cloud_c.Server.{Server}
use deviceatlas_cloud_c.Ranking.{Probes}
use deviceatlas_cloud_c.Config.{Platform, Plugin}
use deviceatlas_cloud_c.Client.Balance.{blocks_of}
use deviceatlas_cloud_c.Client.Life.{PluginBlocks, Kept, Good, init-Kept}
use deviceatlas_cloud_c.Client.Closing.{fini-live}
use deviceatlas_cloud_c.Client.{Config, Inited, init, fini}
use deviceatlas_cloud_c.Detect.{Services}
use deviceatlas_cloud_c.Detect.FetchBlocks.{HasPieces}
use deviceatlas_cloud_c.Examples.Batch.{Streams, print_settings, rounds, run_rounds}
use deviceatlas_cloud_c.Examples.Batch.Balance.{rounds-balanced}

-- The blocks of a head of servers, `self` behind the others, around those of a provider.
pub around :
    (self : ℕ) (f o rest : List ℕ) → Perm (f ++ (self ∷ (o ++ rest))) (o ++ ((self ∷ f) ++ rest))
around self f o rest = Perm.trans (perm_middle f (o ++ rest)) (front_swap (self ∷ f) o rest)

-- Blocks in front of three groups of others, or behind them.
pub behind_three :
    (lost o f k rest : List ℕ)
    → Perm (lost ++ (o ++ (f ++ (k ++ rest)))) (o ++ (f ++ (k ++ (lost ++ rest))))
behind_three lost o f k rest = Perm.trans (front_swap lost o (f ++ (k ++ rest))) (
    Perm.append_left o
      (Perm.trans (front_swap lost f (k ++ rest)) (Perm.append_left f (front_swap lost k rest))))

module _ (A : Allocator) (xxh64 : Bytes → ℕ → ℕ) (plugins : Provider → Plugin A)
    (have_memcached : Bool) (P : Platform) (W : Probes)
    (qsort : (Server → Server → ℤ) → List Server → List Server) (L : AllocatorLaws A)
    (K : CopyLaws A L) (X : RefusalLaws A L) (B : (p : Provider) → PluginBlocks A L (plugins p))
    (sorts : (cmp : Server → Server → ℤ) (xs : List Server) → Perm (qsort cmp xs) xs) (V : Services)
    (pieces : HasPieces V) (print_time : ℤ → Bytes) where
  open A use {State}
  open L use {live}

  abbrev Ends : List ℕ → List Bytes → State × Streams → Type 0
  Ends before input r =
      (lost : List ℕ) × (length lost ≤ length input) × Perm (live r.0) (lost ++ before)

  run_rounds-balanced :
      (s : State) (net : V.Net) (config : Config A plugins have_memcached P W qsort)
      (input : List Bytes) (before : List ℕ)
      → Kept A plugins have_memcached P W qsort L K X B sorts before s config
      → Ensures
          (Ends before input)
          (run_rounds A xxh64 plugins have_memcached P W qsort V print_time s net config input)
  unfolding run_rounds
  run_rounds-balanced s net config input before (mine, t, array, held) =
      elim (Option-cases config.licence_key) [
        | inl no_key ↦ rw (run_rounds, no_key) tt
        | inr ((p, licence_key), e) ↦
            let head = config.shead in
            let st = print_settings print_time head.dservers config.manual_ranking head.servers in
            let G = B config.provider in
            let f = t ∷ (if head.dservers then [] else blocks_of head.servers) in
            let key = text_blocks config.licence_key in
            rw (run_rounds, e)
              (Ensures->>=
                (rounds A xxh64 (plugins config.provider).ops V licence_key head.servers s
                  config.cache_cfg net st input)
                _
                (λ r.
                  (lost : List ℕ) × (length lost ≤ length input)
                  × Perm (live r.heap)
                      (lost ++ (G.keeps.owned r.cfg ++ ((head.self ∷ f) ++ (key ++ before)))))
                _
                (rounds-balanced A L K X xxh64 (plugins config.provider).ops G.keeps V pieces
                  licence_key head.servers s config.cache_cfg net st input
                  ((head.self ∷ f) ++ (key ++ before))
                  (Perm.trans held
                    (around head.self f (G.keeps.owned config.cache_cfg) (key ++ before))))
                λ r (lost, few, kept).
                  Ensures->>=
                    (fini A plugins have_memcached P W qsort r.heap
                      (record config { cache_cfg = r.cfg }))
                    _ (λ s'. Perm (live s') (lost ++ before)) _
                    (fini-live A plugins have_memcached P W qsort L K X B sorts r.heap
                      (record config { cache_cfg = r.cfg }) (lost ++ before)
                      (
                        mine,
                        t,
                        array,
                        Perm.trans kept (
                            Perm.trans
                              (behind_three lost (G.keeps.owned r.cfg) (head.self ∷ f) key before)
                              (Perm.symm (
                                around head.self f (G.keeps.owned r.cfg)
                                  (key ++ (lost ++ before))))),
                      ))
                    λ s' freed. (lost, few, freed))
      ]

  -- Over a lawful allocator that also moves and copies blocks lawfully and gives none at the
  -- address 0, with providers that keep their own blocks and whose fini gives back what their init
  -- took, a qsort that only reorders and a libcurl that hands over no empty piece, where
  -- da_cloud_init returned 0 in dacloud_batch.c and the rest of the program returns for any lines,
  -- the live blocks at its end are those from its start and at most one more for each line:
  -- headers, pools, responses and properties of every detection and all of the config were given
  -- back.
  pub program-balanced :
      (s : State) (net : W.Net) (vnet : V.Net) (configpath : Bytes) (input : List Bytes)
      (r : Inited A plugins have_memcached P W qsort)
      → init A plugins have_memcached P W qsort s net none false configpath ≡ returns (some r)
      → r.status ≡ done
      → Ensures
          (λ left.
            (lost : List ℕ) × (length lost ≤ length input) × Perm (live left.0) (lost ++ live s))
          (run_rounds A xxh64 plugins have_memcached P W qsort V print_time r.heap vnet r.config
            input)
  program-balanced s net vnet configpath input r ran ok =
      run_rounds-balanced r.heap vnet r.config input (live s) (
        Ensures-returns (Good A plugins have_memcached P W qsort L K X B sorts (live s)) _ (some r)
          ran
          (init-Kept A plugins have_memcached P W qsort L K X B sorts s net none false configpath)
          ok)
