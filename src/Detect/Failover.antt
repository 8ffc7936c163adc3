-- ===== src/Detect/Failover.antt =====
-- dacloud.c, the loop of `da_cloud_detect` over the servers: which server's answer is used.
use mathlib.Core.List.{append-nil}
use deviceatlas_cloud_c.Prelude.{
  ℕ, ◌+◌, ◌<◌, ◌≡◌, refl, ap, ◌∙◌, sym, none, some, List, [], ◌∷◌, ◌++◌, Bool, true, false, length,
  arith, Bytes, returns, crashes, ◌>>=◌,
}
use deviceatlas_cloud_c.Mem.{Allocator}
use deviceatlas_cloud_c.Cache.{CacheOps}
use deviceatlas_cloud_c.Server.{Server}
use deviceatlas_cloud_c.Detect.Reader.{
  null, dangling, DataReader, Transferred, transfer, data_reader_free,
}
use deviceatlas_cloud_c.Detect.Request.{detect_url}
use deviceatlas_cloud_c.Detect.{Services, unreachable, accept, fetch, sizeof_reader}

abbrev new_reader : ℕ → DataReader
new_reader d = record { self = d; buf = null; buflen = 0 }

module _ (A : Allocator) (C : CacheOps A) (W : Services) (licence_key : Bytes)
    (lines : List Bytes) where
  open A use {State}
  open C use {Cfg}
  open W use {Net}

  -- One round: the server is asked, and its transfer comes to `t`.
  pub record Asked (s : State) (net : Net) (srv : Server) (net' : Net) (t : Transferred State)
      : Type 0 where
    pub d : ℕ
    pub allocated : (A.alloc s sizeof_reader).0 ≡ some d
    pub moved : (W.perform net (detect_url srv licence_key) lines).2 ≡ net'
    pub transferred :
        let r = W.perform net (detect_url srv licence_key) lines in
        transfer A (A.alloc s sizeof_reader).1 (new_reader d) r.0 r.1 ≡ returns t

  -- The servers are asked in turn, none of their transfers ends well, and each reader is freed.
  pub data AllFail : State → Net → List Server → State → Net → Type 0 where
    nobody : {s : State} {net : Net} → AllFail s net [] s net
    fails :
        {s s' s'' : State} {net net' net'' : Net} {srv : Server} {servers : List Server}
        (t : Transferred State)
        → Asked s net srv net' t
        → t.is_ok ≡ false
        → data_reader_free A t.heap t.reader ≡ returns s'
        → AllFail s' net' servers s'' net''
        → AllFail s net (srv ∷ servers) s'' net''

  fetch_failed :
      (s s' : State) (cfg : Cfg) (net net' : Net) (cachekey : Bytes) (srv : Server)
      (servers : List Server) (t : Transferred State)
      → Asked s net srv net' t
      → t.is_ok ≡ false
      → data_reader_free A t.heap t.reader ≡ returns s'
      → fetch A C W s cfg net cachekey licence_key lines (srv ∷ servers)
        ≡ fetch A C W s' cfg net' cachekey licence_key lines servers
  unfolding fetch
  fetch_failed s s' cfg net net' cachekey srv servers t a bad freed =
      rw (a.allocated, fetch, a.transferred, ◌>>=◌, bad, freed, a.moved) refl

  -- A server whose transfer ends well is the last that is asked.
  fetch_ok :
      (s : State) (cfg : Cfg) (net net' : Net) (cachekey : Bytes) (srv : Server)
      (servers : List Server) (t : Transferred State)
      → Asked s net srv net' t
      → t.is_ok ≡ true
      → fetch A C W s cfg net cachekey licence_key lines (srv ∷ servers)
        ≡ accept A C W cfg net' cachekey t
  unfolding fetch
  fetch_ok s cfg net net' cachekey srv servers t a ok =
      rw (a.allocated, fetch, a.transferred, ◌>>=◌, ok, a.moved) refl

  fetch-skips :
      {s s' : State} {net net' : Net} {before : List Server} (cfg : Cfg) (cachekey : Bytes)
      (after : List Server)
      → AllFail s net before s' net'
      → fetch A C W s cfg net cachekey licence_key lines (before ++ after)
        ≡ fetch A C W s' cfg net' cachekey licence_key lines after
  fetch-skips cfg cachekey after nobody = refl
  fetch-skips cfg cachekey after (fails t a bad freed rest) =
      fetch_failed _ _ cfg _ _ cachekey _ _ t a bad freed ∙ fetch-skips cfg cachekey after rest

  -- Where the transfers of the servers in front fail and their readers can be freed, the next
  -- server whose transfer ends well decides: those behind it are not asked, and those in front of
  -- it change nothing in the cache. If there is none, the loop ends with no answer and the cache as
  -- it was.
  pub fetch-failover :
      (s s' : State) (cfg : Cfg) (net net' : Net) (cachekey : Bytes) (before : List Server)
      → AllFail s net before s' net'
      → ((srv : Server) (after : List Server) (net'' : Net) (t : Transferred State)
          → Asked s' net' srv net'' t
          → t.is_ok ≡ true
          → fetch A C W s cfg net cachekey licence_key lines (before ++ srv ∷ after)
            ≡ accept A C W cfg net'' cachekey t)
        × (fetch A C W s cfg net cachekey licence_key lines before
            ≡ returns (record { result = unreachable; cfg = cfg; net = net'; heap = s' }))
  unfolding fetch
  fetch-failover s s' cfg net net' cachekey before failed = (
    λ srv after net'' t a ok.
        fetch-skips cfg cachekey (srv ∷ after) failed
        ∙ fetch_ok s' cfg net' net'' cachekey srv after t a ok,
    ap (fetch A C W s cfg net cachekey licence_key lines) (sym (append-nil before))
        ∙ fetch-skips cfg cachekey [] failed,
  )

  -- Where there is memory for the reader, a first server whose transfer of an empty body ends well
  -- makes the call write through a null pointer.
  pub fetch_empty_body :
      (s : State) (cfg : Cfg) (net : Net) (cachekey : Bytes) (srv : Server) (servers : List Server)
      (d : ℕ)
      → (A.alloc s sizeof_reader).0 ≡ some d
      → (W.perform net (detect_url srv licence_key) lines).0 ≡ []
      → (W.perform net (detect_url srv licence_key) lines).1 ≡ true
      → fetch A C W s cfg net cachekey licence_key lines (srv ∷ servers) ≡ crashes
  unfolding fetch accept transfer
  fetch_empty_body s cfg net cachekey srv servers d got empty well =
      rw (got, fetch, empty, well) refl

  transfer_lost :
      (s : State) (d q : ℕ) (first second : Bytes) (pieces : List Bytes) (ends_well : Bool)
      → let s' = (A.alloc s (length first + 1)).1 in
        0 < length first
        → 0 < length second
        → (A.alloc s (length first + 1)).0 ≡ some q
        → (A.realloc s' q (length first + length second + 1)).0 ≡ none
        → transfer A s (new_reader d) (first ∷ second ∷ pieces) ends_well
          ≡ returns (record {
            is_ok = false;
            reader = record { self = d; buf = dangling; buflen = length first };
            heap = (A.realloc s' q (length first + length second + 1)).1;
          })
  unfolding transfer
  transfer_lost s d q first second pieces ends_well some_first some_second got lost =
      ground (arith, got, lost)

  -- Where the memory for the reader and a first piece is there and the realloc for a second piece
  -- fails, the first server's reader, whose block realloc has freed, is freed again.
  pub fetch_double_free :
      (s : State) (cfg : Cfg) (net : Net) (cachekey : Bytes) (srv : Server) (servers : List Server)
      (d q : ℕ) (first second : Bytes) (pieces : List Bytes)
      → let s' = (A.alloc s sizeof_reader).1 in
        let s'' = (A.alloc s' (length first + 1)).1 in
        (A.alloc s sizeof_reader).0 ≡ some d
        → (W.perform net (detect_url srv licence_key) lines).0 ≡ first ∷ second ∷ pieces
        → 0 < length first
        → 0 < length second
        → (A.alloc s' (length first + 1)).0 ≡ some q
        → (A.realloc s'' q (length first + length second + 1)).0 ≡ none
        → fetch A C W s cfg net cachekey licence_key lines (srv ∷ servers) ≡ crashes
  unfolding fetch data_reader_free
  fetch_double_free s cfg net cachekey srv servers d q first second pieces got body some_first
        some_second block_got lost =
      rw
        (
          got,
          fetch,
          body,
          transfer_lost _ d q first second pieces _ some_first some_second block_got lost,
        )
        refl
