-- ===== src/Detect/FetchBlocks.antt =====
-- dacloud.c, the blocks that the loop of `da_cloud_detect` over the servers takes and gives back.
use mathlib.Core.List.Perm
use mathlib.Core.List.{perm_middle}
use deviceatlas_cloud_c.Prelude.{
  ℕ, ◌<◌, ◌≡◌, ◌≢◌, refl, List, [], ◌∷◌, ◌++◌, Perm, inl, inr, Bool-cases, Option-cases, length,
  All, Bytes, c_text, Ensures, Ensures->>=, Ensures-known, some,
}
use deviceatlas_cloud_c.Mem.{Allocator, AllocatorLaws}
use deviceatlas_cloud_c.Mem.Moving.{CopyLaws, RefusalLaws}
use deviceatlas_cloud_c.Cache.{Left, CacheOps}
use deviceatlas_cloud_c.Cache.Blocks.{text_blocks, KeepsBlocks}
use deviceatlas_cloud_c.Server.{Server}
use deviceatlas_cloud_c.Detect.Reader.{
  null, block, DataReader, Transferred, transfer, data_reader_free,
}
use deviceatlas_cloud_c.Detect.ReaderBlocks.{
  Held, empty, full, gone, transfer-Held, data_reader_free-live,
}
use deviceatlas_cloud_c.Detect.Request.{detect_url}
use deviceatlas_cloud_c.Detect.{
  Services, Fetch, Fetched, answered, refused, unreachable, keep_answer, accept, fetch,
  opens_object, sizeof_reader,
}

-- Two blocks behind others, or in front of them.
pub two_behind : (a b : ℕ) (o rest : List ℕ) → Perm (a ∷ b ∷ o ++ rest) (o ++ a ∷ b ∷ rest)
two_behind a b o rest =
    Perm.symm (Perm.trans (perm_middle o (b ∷ rest)) (Perm.cons a (perm_middle o rest)))

-- libcurl hands over no empty piece.
abbrev pub HasPieces : Services → Type 0
HasPieces W =
    (net : W.Net) (url : Bytes) (lines : List Bytes)
    → All (λ piece. 0 < length piece) (W.perform net url lines).0

abbrev pub answer_of : Fetched → List ℕ
answer_of (answered v) = text_blocks (some v)
answer_of refused = []
answer_of unreachable = []

module _ (A : Allocator) (L : AllocatorLaws A) (K : CopyLaws A L) (X : RefusalLaws A L)
    (C : CacheOps A) (B : KeepsBlocks A L C) (W : Services) (pieces : HasPieces W) where
  open A use {State}
  open L use {live}
  open C use {Cfg}
  open W use {Net}

  abbrev pub Fetches : List ℕ → Fetch A C W → Type 0
  Fetches rest f = Perm (live f.heap) (answer_of f.result ++ B.owned f.cfg ++ rest)

  -- A reader whose buffer was not freed, with a block besides.
  keep_answer-Fetches :
      (net : Net) (dr : DataReader) (text : Bytes) (left : Left State Cfg) (rest : List ℕ) (p : ℕ)
      (bytes : Bytes)
      → dr.buf ≡ block p bytes
      → 0 < dr.buflen
      → p ≢ 0
      → Perm (live left.heap) (p ∷ dr.self ∷ B.owned left.cfg ++ rest)
      → Ensures (Fetches rest) (keep_answer A C W net dr text left)
  unfolding keep_answer
  keep_answer-Fetches net dr text left rest p bytes e more nonzero held =
      elim (Option-cases (A.strdup left.heap (length text)).0) [
        | inl lost ↦
            rw (keep_answer, lost)
              (Ensures->>= (data_reader_free A _ dr) _
                (λ s. Perm (live s) (B.owned left.cfg ++ rest)) _
                (data_reader_free-live A L K X _ dr _
                  (full p bytes e more nonzero (rw (X.uncopied left.heap (length text) lost) held)))
                λ s freed. freed)
        | inr (q, copied) ↦
            let taken = Perm.trans (K.copies left.heap (length text) q copied) (
              Perm.trans (Perm.cons q held)
                (Perm.symm (perm_middle (p ∷ dr.self ∷ []) (B.owned left.cfg ++ rest)))) in
            rw (keep_answer, copied)
              (Ensures->>= (data_reader_free A _ dr) _
                (λ s. Perm (live s) (q ∷ B.owned left.cfg ++ rest)) _
                (data_reader_free-live A L K X _ dr _ (full p bytes e more nonzero taken))
                λ s freed. freed)
      ]

  accept-Fetches :
      (cfg : Cfg) (net : Net) (key : Bytes) (t : Transferred State) (rest : List ℕ)
      → Held A L K X t.reader (B.owned cfg ++ rest) t.heap
      → Ensures (Fetches rest) (accept A C W cfg net key t)
  unfolding accept
  accept-Fetches cfg net key t rest (empty e z held) = rw (accept, e) tt
  accept-Fetches cfg net key t rest (gone e more held) = rw (accept, e) tt
  accept-Fetches cfg net key t rest (full p bytes e more nonzero held) =
      elim (Bool-cases (opens_object bytes)) [
        | inl object ↦
            rw (accept, e, object)
              (Ensures-known _ (C.set t.heap cfg key (c_text bytes)) _ λ left ran.
                keep_answer-Fetches net t.reader (c_text bytes) left rest p bytes e more nonzero (
                  Perm.trans
                    (B.sets t.heap cfg key (c_text bytes) left (p ∷ t.reader.self ∷ rest)
                      (Perm.trans held (two_behind p t.reader.self (B.owned cfg) rest)) ran)
                    (Perm.symm (two_behind p t.reader.self (B.owned left.cfg) rest))))
        | inr other ↦
            rw (accept, e, other)
              (Ensures->>= (data_reader_free A t.heap t.reader) _
                (λ s. Perm (live s) (B.owned cfg ++ rest)) _
                (data_reader_free-live A L K X _ t.reader _ (full p bytes e more nonzero held))
                λ s freed. freed)
      ]

  pub fetch-Fetches :
      (s : State) (cfg : Cfg) (net : Net) (key licence_key : Bytes) (lines : List Bytes)
      (servers : List Server) (rest : List ℕ)
      → Perm (live s) (B.owned cfg ++ rest)
      → Ensures (Fetches rest) (fetch A C W s cfg net key licence_key lines servers)
  unfolding fetch
  fetch-Fetches s cfg net key licence_key lines [] rest h = h
  fetch-Fetches s cfg net key licence_key lines (srv ∷ servers) rest h =
      elim (Option-cases (A.alloc s sizeof_reader).0) [
        | inl lost ↦ rw (fetch, lost) tt
        | inr (d, got) ↦
            let url = detect_url srv licence_key in
            rw (fetch, got)
              (Ensures->>= (transfer A (A.alloc s sizeof_reader).1 _ _ _) _
                (λ t. Held A L K X t.reader (B.owned cfg ++ rest) t.heap) _
                (transfer-Held A L K X _ (record { self = d; buf = null; buflen = 0 })
                  (W.perform net url lines).0 (W.perform net url lines).1 (B.owned cfg ++ rest)
                  (pieces net url lines)
                  (empty refl refl
                    (Perm.trans (L.alloc_some s sizeof_reader d got).0 (Perm.cons d h))))
                λ t held. elim (Bool-cases t.is_ok) [
                  | inl ok ↦ rw (ok) (accept-Fetches cfg _ key t rest held)
                  | inr bad ↦ rw (bad) (
                      Ensures->>= (data_reader_free A t.heap t.reader) _
                        (λ s'. Perm (live s') (B.owned cfg ++ rest)) _
                        (data_reader_free-live A L K X _ t.reader _ held)
                        λ freed kept.
                          fetch-Fetches freed cfg _ key licence_key lines servers rest kept)
                ])
      ]
