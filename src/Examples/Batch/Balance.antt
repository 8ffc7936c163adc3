-- ===== src/Examples/Batch/Balance.antt =====
-- examples/dacloud_batch.c, the blocks that the loop over the lines takes and gives back.
use mathlib.Core.List.Perm
use mathlib.Core.List.{append_assoc}
use deviceatlas_cloud_c.Prelude.{
  ℕ, suc, ◌≤◌, sym, subst, List, [], ◌∷◌, ◌++◌, Perm, true, inl, inr, Bool-cases, Option-cases,
  length, length-append, ◌==◌, arith, Bytes, Ensures, Ensures->>=, front_swap, Ensures-mono,
}
use deviceatlas_cloud_c.Mem.{Allocator, AllocatorLaws}
use deviceatlas_cloud_c.Mem.Moving.{CopyLaws, RefusalLaws}
use deviceatlas_cloud_c.Membuf.{nodes}
use deviceatlas_cloud_c.Membuf.Leaks.{footprint, membuf_free-live}
use deviceatlas_cloud_c.Header.{HeaderHead, header_init, useragent_add}
use deviceatlas_cloud_c.Header.Blocks.{
  Inits-some, Adds, header_init-live, header_add-live, header_free-live,
}
use deviceatlas_cloud_c.Property.{properties_free}
use deviceatlas_cloud_c.Cache.{CacheOps}
use deviceatlas_cloud_c.Cache.Blocks.{KeepsBlocks}
use deviceatlas_cloud_c.Server.{Server}
use deviceatlas_cloud_c.Detect.{Services, Detected, detect}
use deviceatlas_cloud_c.Detect.FetchBlocks.{HasPieces}
use deviceatlas_cloud_c.Detect.Balance.{Leaves, pool_blocks, detect-Leaves}
use deviceatlas_cloud_c.Examples.Batch.{Streams, Round, finish_round, line_of, round, rounds}

module _ (A : Allocator) (L : AllocatorLaws A) (K : CopyLaws A L) (X : RefusalLaws A L)
    (xxh64 : Bytes → ℕ → ℕ) (C : CacheOps A) (B : KeepsBlocks A L C) (V : Services)
    (pieces : HasPieces V) (licence_key : Bytes) (servers : List Server) where
  open A use {State}
  open L use {live}
  open C use {Cfg}
  open V use {Net}

  -- The provider's blocks are live, those of `rest`, and at most so many others.
  pub record Within (most : ℕ) (rest : List ℕ) (r : Round A xxh64 C V licence_key servers)
      : Type 0 where
    pub lost : List ℕ
    pub few : length lost ≤ most
    pub held : Perm (live r.heap) (lost ++ (B.owned r.cfg ++ rest))

  finish_round-Within :
      (st : Streams) (hhead : HeaderHead) (d : Detected A C V) (rest : List ℕ)
      → Leaves A L K X C B V pieces (footprint (nodes hhead.pool) ++ rest) d
      → Ensures (Within 1 rest) (finish_round A xxh64 C V licence_key servers st hhead d)
  unfolding finish_round properties_free
  finish_round-Within st hhead d rest v = elim (Option-cases d.phead) [
    | inl no_pool ↦ rw (finish_round, no_pool) tt
    | inr (phead, e) ↦
        let head = footprint (nodes hhead.pool) in
        let behind = v.lost ++ (B.owned d.cfg ++ (head ++ rest)) in
        let held = subst (λ o. Perm (live d.heap) (pool_blocks o ++ behind)) e v.held in
        let freed = membuf_free-live A L d.heap (nodes phead.pool) behind held in
        let moved = Perm.trans freed (
          Perm.trans (Perm.append_left v.lost (front_swap (B.owned d.cfg) head rest))
            (front_swap v.lost head (B.owned d.cfg ++ rest))) in
        rw (finish_round, e)
          (record {
            lost = v.lost;
            few = v.few;
            held = header_free-live A L _ hhead (v.lost ++ (B.owned d.cfg ++ rest)) moved;
          })
  ]

  round-Within :
      (s : State) (cfg : Cfg) (net : Net) (st : Streams) (p : Bytes) (rest : List ℕ)
      → Perm (live s) (B.owned cfg ++ rest)
      → Ensures (Within 1 rest) (round A xxh64 C V licence_key servers s cfg net st p)
  unfolding round useragent_add
  round-Within s cfg net st p rest h = elim (Option-cases (header_init A s).0) [
    | inl no_pool ↦ rw (round, no_pool) tt
    | inr (hhead, made) ↦
        let held = Inits-some A L (live s) (header_init A s) hhead (header_init-live A L s) made in
        rw (round, made)
          (Ensures->>= (useragent_add A xxh64 (header_init A s).1 hhead p) _
            (Adds A L xxh64 (live s)) _
            (header_add-live A L xxh64 (header_init A s).1 hhead _ p (live s) held)
            λ r kept.
              Ensures->>= (detect A C V r.heap cfg net r.head licence_key servers true) _
                (Leaves A L K X C B V pieces (footprint (nodes r.head.pool) ++ rest)) _
                (detect-Leaves A L K X C B V pieces r.heap cfg net r.head licence_key servers true
                  (footprint (nodes r.head.pool) ++ rest)
                  (Perm.trans kept (
                    Perm.trans (Perm.append_left (footprint (nodes r.head.pool)) h)
                      (front_swap (footprint (nodes r.head.pool)) (B.owned cfg) rest))))
                λ d left. finish_round-Within st r.head d rest left)
  ]

  -- The blocks that were lost before are among those of the rest afterwards.
  Within-more :
      (most : ℕ) (rest before : List ℕ) (r : Round A xxh64 C V licence_key servers)
      → length before ≤ 1
      → Within most (before ++ rest) r
      → Within (suc most) rest r
  Within-more most rest before r h v = record {
    lost = v.lost ++ before;
    few = omega (arith, length-append v.lost before, v.few);
    held =
        subst (Perm (live r.heap)) (sym (append_assoc v.lost before (B.owned r.cfg ++ rest)))
          (Perm.trans v.held (Perm.append_left v.lost (front_swap (B.owned r.cfg) before rest)));
  }

  rounds-Within :
      (s : State) (cfg : Cfg) (net : Net) (st : Streams) (input : List Bytes) (rest : List ℕ)
      → Perm (live s) (B.owned cfg ++ rest)
      → Ensures
          (Within (length input) rest)
          (rounds A xxh64 C V licence_key servers s cfg net st input)
  unfolding rounds
  rounds-Within s cfg net st [] rest h = record { lost = []; few = omega arith; held = h }
  rounds-Within s cfg net st (buf ∷ input) rest h = elim (Bool-cases (length (line_of buf) == 0)) [
    | inl blank ↦ rw (rounds, blank) (record { lost = []; few = omega arith; held = h })
    | inr more ↦
        rw (rounds, more)
          (Ensures->>= (round A xxh64 C V licence_key servers s cfg net st (line_of buf)) _
            (Within 1 rest) _ (round-Within s cfg net st (line_of buf) rest h)
            λ r v.
              Ensures-mono (Within (length input) (v.lost ++ rest)) _ _
                (λ r'. Within-more (length input) rest v.lost r' v.few)
                (rounds-Within r.heap r.cfg r.net r.streams input (v.lost ++ rest)
                  (Perm.trans v.held (front_swap v.lost (B.owned r.cfg) rest))))
  ]

  -- Over the same allocator, cache provider and libcurl, when the loop of dacloud_batch.c over its
  -- lines returns, the blocks that are live are those that were live besides the provider's, those
  -- that the provider now has, and at most one more for each line: headers and properties of every
  -- round were given back.
  pub rounds-balanced :
      (s : State) (cfg : Cfg) (net : Net) (st : Streams) (input : List Bytes) (rest : List ℕ)
      → Perm (live s) (B.owned cfg ++ rest)
      → Ensures
          (λ r.
            (lost : List ℕ) × (length lost ≤ length input)
            × Perm (live r.heap) (lost ++ (B.owned r.cfg ++ rest)))
          (rounds A xxh64 C V licence_key servers s cfg net st input)
  rounds-balanced s cfg net st input rest h =
      Ensures-mono (Within (length input) rest) _ _ (λ r v. (v.lost, v.few, v.held))
        (rounds-Within s cfg net st input rest h)
