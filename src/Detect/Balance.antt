-- ===== src/Detect/Balance.antt =====
-- dacloud.c, the blocks that `da_cloud_detect` leaves, and what da_cloud_properties_free of
-- dacloud_header_property.c gives back of them.
use mathlib.Core.List.Perm
use mathlib.Core.List.{perm_middle}
use deviceatlas_cloud_c.Prelude.{
  ℕ, ◌*◌, ◌≤◌, ◌≡◌, refl, subst, Option, none, some, List, [], ◌∷◌, ◌++◌, Perm, Bool, true, false,
  inl, inr, Bool-cases, Option-cases, ltb, length, arith, Bytes, codes, Status, done, failed,
  Ensures, Ensures->>=, Ensures-known, Ensures-mono,
}
use deviceatlas_cloud_c.Mem.{Allocator, AllocatorLaws}
use deviceatlas_cloud_c.Mem.Moving.{CopyLaws, RefusalLaws}
use deviceatlas_cloud_c.Membuf.{Membuf, nodes, membuf_create}
use deviceatlas_cloud_c.Membuf.Creation.{Created-none, Created-some, membuf_create-Created}
use deviceatlas_cloud_c.Membuf.Leaks.{footprint, membuf_free-live}
use deviceatlas_cloud_c.Header.{HeaderHead}
use deviceatlas_cloud_c.Property.{PropertyHead, properties_free}
use deviceatlas_cloud_c.Cache.{CString, Got, CacheOps}
use deviceatlas_cloud_c.Cache.Blocks.{value_blocks, text_blocks, KeepsBlocks}
use deviceatlas_cloud_c.Server.{Server}
use deviceatlas_cloud_c.Detect.Request.{header_lines}
use deviceatlas_cloud_c.Detect.Answer.{Listed, list_properties}
use deviceatlas_cloud_c.Detect.ListBlocks.{list_properties-live}
use deviceatlas_cloud_c.Detect.FetchBlocks.{
  HasPieces, answer_of, two_behind, Fetches, fetch-Fetches,
}
use deviceatlas_cloud_c.Detect.{
  Services, Fetch, Fetched, answered, refused, unreachable, Detected, free_cacheval, keep_list,
  load_answer, read_answer, use_cached, cacheval_of, after_fetch, ask_servers, detect, new_phead,
  fetch, opens_object,
}

got_blocks :
    (value : Option (Option CString)) (held o rest : List ℕ)
    → Perm held (value_blocks value ++ o ++ rest)
    → Perm held (text_blocks (elim value [ none ↦ none | some v ↦ v ]) ++ o ++ rest)
got_blocks none held o rest h = h
got_blocks (some v) held o rest h = h

-- The blocks of the pool of properties.
abbrev pub pool_blocks : Option PropertyHead → List ℕ
pool_blocks none = []
pool_blocks (some phead) = footprint (nodes phead.pool)

module _ (A : Allocator) where
  -- The heap when a head, if there is one with a pool, was given to da_cloud_properties_free.
  abbrev pub after_free : A.State → Option PropertyHead → A.State
  after_free s none = s
  after_free s (some phead) = (properties_free A s phead).0

module _ (A : Allocator) (L : AllocatorLaws A) (K : CopyLaws A L) (X : RefusalLaws A L)
    (C : CacheOps A) (B : KeepsBlocks A L C) (W : Services) (pieces : HasPieces W) where
  open A use {State}
  open L use {live}
  open C use {Cfg}
  open W use {Net}

  -- What is live besides the blocks of `rest`: those of the pool, those of the cache, and at most one
  -- that nothing points to any more.
  pub record Leaves (rest : List ℕ) (r : Detected A C W) : Type 0 where
    pub lost : List ℕ
    pub few : length lost ≤ 1
    pub held : Perm (live r.heap) (pool_blocks r.phead ++ (lost ++ (B.owned r.cfg ++ rest)))

  free_cacheval-live :
      (s : State) (v : Option CString) (f o : List ℕ)
      → Perm (live s) (f ++ (text_blocks v ++ o))
      → Perm (live (free_cacheval A C W s v)) (f ++ o)
  unfolding free_cacheval
  free_cacheval-live s none f o h = h
  free_cacheval-live s (some (p, t)) f o h =
      L.free_live s p (f ++ o) (Perm.trans h (perm_middle f o))

  length-text_blocks : (v : Option CString) → length (text_blocks v) ≤ 1
  length-text_blocks none = omega arith
  length-text_blocks (some (p, t)) = omega arith

  keep_list-Leaves :
      (status : Status) (cfg : Cfg) (net : Net) (phead : PropertyHead) (v : Option CString)
      (r : Listed A) (rest : List ℕ)
      → Perm (live r.heap) (footprint (nodes r.pool) ++ (text_blocks v ++ (B.owned cfg ++ rest)))
      → Ensures (Leaves rest) (keep_list A C W status cfg net phead v r)
  unfolding keep_list
  keep_list-Leaves status cfg net phead v r rest h = elim (Bool-cases r.complete) [
    | inl whole ↦
        rw (keep_list, whole)
          (record {
            lost = [];
            few = omega arith;
            held = free_cacheval-live r.heap v (footprint (nodes r.pool)) (B.owned cfg ++ rest) h;
          })
    | inr short ↦
        rw (keep_list, short)
          (record { lost = text_blocks v; few = length-text_blocks v; held = h })
  ]

  load_answer-Leaves :
      (status : Status) (cfg : Cfg) (net : Net) (s : State) (phead : PropertyHead)
      (v : Option CString) (body : Option Bytes) (rest : List ℕ)
      → Perm (live s) (footprint (nodes phead.pool) ++ (text_blocks v ++ (B.owned cfg ++ rest)))
      → Ensures (Leaves rest) (load_answer A C W status cfg net s phead v body)
  unfolding load_answer
  load_answer-Leaves status cfg net s phead v body rest h =
      let loaded = W.json_loads body in
      elim (Bool-cases (ltb 0 (length loaded.error_text))) [
        | inl bad ↦
            rw (load_answer, bad)
              (record {
                lost = [];
                few = omega arith;
                held =
                    free_cacheval-live s v (footprint (nodes phead.pool)) (B.owned cfg ++ rest) h;
              })
        | inr good ↦
            rw (load_answer, good)
              (Ensures->>= (list_properties A s phead.pool phead.list loaded.properties)
                (keep_list A C W status cfg net phead v) _ (Leaves rest)
                (list_properties-live A L s phead.pool phead.list loaded.properties
                  (text_blocks v ++ (B.owned cfg ++ rest)) h)
                λ r kept. keep_list-Leaves status cfg net phead v r rest kept)
      ]

  read_answer-Leaves :
      (status : Status) (cfg : Cfg) (net : Net) (s : State) (phead : PropertyHead)
      (v : Option CString) (rest : List ℕ)
      → Perm (live s) (footprint (nodes phead.pool) ++ (text_blocks v ++ (B.owned cfg ++ rest)))
      → Ensures (Leaves rest) (read_answer A C W status cfg net s phead v)
  unfolding read_answer
  read_answer-Leaves status cfg net s phead none rest h =
      load_answer-Leaves status cfg net s phead none none rest h
  read_answer-Leaves status cfg net s phead (some (p, body)) rest h =
      elim (Bool-cases (opens_object body)) [
        | inl object ↦
            rw (read_answer, object)
              (load_answer-Leaves status cfg net s phead (some (p, body)) (some body) rest h)
        | inr other ↦
            rw (read_answer, other)
              (record {
                lost = [];
                few = omega arith;
                held =
                    free_cacheval-live s (some (p, body)) (footprint (nodes phead.pool))
                      (B.owned cfg ++ rest) h;
              })
      ]

  -- The pool of a detection, before anything is taken from it.
  abbrev new_head : Membuf → Bytes → PropertyHead
  new_head d from = record (new_phead (record { before = []; dcm = d })) { cachesource = from }

  after_fetch-Leaves :
      (d : Membuf) (f : Fetch A C W) (o : Fetched) (rest : List ℕ)
      → f.result ≡ o
      → Fetches A L K X C B W pieces (d.block ∷ d.node ∷ rest) f
      → Ensures (Leaves rest) (after_fetch A C W (new_head d (codes "none")) f)
  unfolding after_fetch footprint
  after_fetch-Leaves d f (answered (p, body)) rest e h =
      let taken =
        subst (λ o. Perm (live f.heap) (answer_of o ++ B.owned f.cfg ++ d.block ∷ d.node ∷ rest)) e
          h in
      rw (after_fetch, e)
        (read_answer-Leaves done f.cfg f.net f.heap (new_head d (codes "cloud")) (some (p, body))
          rest (Perm.trans taken (Perm.symm (two_behind d.block d.node (p ∷ B.owned f.cfg) rest))))
  after_fetch-Leaves d f refused rest e h =
      let taken =
        subst (λ o. Perm (live f.heap) (answer_of o ++ B.owned f.cfg ++ d.block ∷ d.node ∷ rest)) e
          h in
      rw (after_fetch, e)
        (record {
          lost = [];
          few = omega arith;
          held = Perm.trans taken (Perm.symm (two_behind d.block d.node (B.owned f.cfg) rest));
        })
  after_fetch-Leaves d f unreachable rest e h =
      let taken =
        subst (λ o. Perm (live f.heap) (answer_of o ++ B.owned f.cfg ++ d.block ∷ d.node ∷ rest)) e
          h in
      rw (after_fetch, e)
        (read_answer-Leaves failed f.cfg f.net f.heap (new_head d (codes "none")) none rest
          (Perm.trans taken (Perm.symm (two_behind d.block d.node (B.owned f.cfg) rest))))

  use_cached-Leaves :
      (net : Net) (d : Membuf) (head : HeaderHead) (licence_key : Bytes) (servers : List Server)
      (g : Got State Cfg) (v : Option CString) (rest : List ℕ)
      → Perm (live g.heap) (text_blocks v ++ B.owned g.cfg ++ d.block ∷ d.node ∷ rest)
      → Ensures
          (Leaves rest)
          (use_cached A C W net (new_head d (codes "none")) head licence_key servers g v)
  unfolding use_cached ask_servers footprint
  use_cached-Leaves net d head licence_key servers g (some (p, body)) rest h =
      read_answer-Leaves done g.cfg net g.heap (new_head d (codes "cache")) (some (p, body)) rest
        (Perm.trans h (Perm.symm (two_behind d.block d.node (p ∷ B.owned g.cfg) rest)))
  use_cached-Leaves net d head licence_key servers g none rest h =
      elim (Bool-cases (W.easy_init net).0) [
        | inl handle ↦
            rw (use_cached, handle, ask_servers)
              (Ensures->>=
                (fetch A C W g.heap g.cfg (W.easy_init net).1 head.cachekey licence_key
                  (header_lines head.list) servers)
                _ (Fetches A L K X C B W pieces (d.block ∷ d.node ∷ rest)) _
                (fetch-Fetches A L K X C B W pieces g.heap g.cfg (W.easy_init net).1 head.cachekey
                  licence_key (header_lines head.list) servers (d.block ∷ d.node ∷ rest) h)
                λ f taken. after_fetch-Leaves d f f.result rest refl taken)
        | inr no_handle ↦
            rw (use_cached, no_handle, ask_servers)
              (record {
                lost = [];
                few = omega arith;
                held = Perm.trans h (Perm.symm (two_behind d.block d.node (B.owned g.cfg) rest));
              })
      ]

  pub detect-Leaves :
      (s : State) (cfg : Cfg) (net : Net) (head : HeaderHead) (licence_key : Bytes)
      (servers : List Server) (given : Bool) (rest : List ℕ)
      → Perm (live s) (B.owned cfg ++ rest)
      → Ensures (Leaves rest) (detect A C W s cfg net head licence_key servers given)
  unfolding detect
  detect-Leaves s cfg net head licence_key servers false rest h = record {
    lost = [];
    few = omega arith;
    held = h;
  }
  detect-Leaves s cfg net head licence_key servers true rest h =
      let created = membuf_create-Created A L s (1024 * 4) (omega arith) in
      elim (Option-cases (membuf_create A s (1024 * 4)).0) [
        | inl no_pool ↦
            rw (detect, no_pool)
              (record {
                lost = [];
                few = omega arith;
                held = Perm.trans (Created-none A L (1024 * 4) (live s) _ created no_pool) h;
              })
        | inr (d, pool) ↦
            let (took, _) = Created-some A L (1024 * 4) (live s) _ d created pool in
            rw (detect, pool)
              (Ensures-known _
                (C.get (membuf_create A s (1024 * 4)).1 cfg head.cachekey (some none)) _
                λ g ran.
                  use_cached-Leaves net d head licence_key servers g (cacheval_of A C W g) rest (
                    got_blocks g.value (live g.heap) (B.owned g.cfg) (d.block ∷ d.node ∷ rest) (
                      B.gets _ cfg head.cachekey g (d.block ∷ d.node ∷ rest)
                        (Perm.trans took (
                          Perm.trans (Perm.cons d.block (Perm.cons d.node h))
                            (two_behind d.block d.node (B.owned cfg) rest)))
                        ran)))
      ]

  after_free-live :
      (s : State) (phead : Option PropertyHead) (rest : List ℕ)
      → Perm (live s) (pool_blocks phead ++ rest)
      → Perm (live (after_free A s phead)) rest
  unfolding properties_free
  after_free-live s none rest h = h
  after_free-live s (some phead) rest h = membuf_free-live A L s (nodes phead.pool) rest h

  -- Over a lawful allocator that also moves and copies blocks lawfully, with a cache provider that
  -- keeps its own blocks and hands out one for a text, and with no empty piece from libcurl,
  -- whatever a detection that returns comes to, when da_cloud_properties_free has freed the pool
  -- of its properties the blocks that are live are those that were live besides the provider's,
  -- those that the provider now has, and at most one more: the reader of each response and all it
  -- received were given back once.
  pub detect-balanced :
      (s : State) (cfg : Cfg) (net : Net) (head : HeaderHead) (licence_key : Bytes)
      (servers : List Server) (given : Bool) (rest : List ℕ)
      → Perm (live s) (B.owned cfg ++ rest)
      → Ensures
          (λ r.
            (lost : List ℕ) × (length lost ≤ 1)
            × Perm (live (after_free A r.heap r.phead)) (lost ++ (B.owned r.cfg ++ rest)))
          (detect A C W s cfg net head licence_key servers given)
  detect-balanced s cfg net head licence_key servers given rest h =
      Ensures-mono (Leaves rest) _ _
        (λ r v. (v.lost, v.few, after_free-live r.heap r.phead _ v.held))
        (detect-Leaves s cfg net head licence_key servers given rest h)
