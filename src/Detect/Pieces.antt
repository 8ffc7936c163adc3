-- ===== src/Detect/Pieces.antt =====
-- dacloud.c, what `_write_servers_response` has gathered when a transfer ends well.
use mathlib.Core.List.{flatten, append-nil, append_assoc}
use deviceatlas_cloud_c.Prelude.{
  ℕ, ◌+◌, ◌<◌, ◌≡◌, refl, sym, subst, inl, inr, List, [], ◌∷◌, ◌++◌, Bool, true, false, Bool-cases,
  Option-cases, ◌==◌, ==_iff, length, length-append, All, arith, Bytes, Ensures, Ensures->>=,
  Ensures-mono,
}
use deviceatlas_cloud_c.Mem.{Allocator}
use deviceatlas_cloud_c.Detect.Reader.{
  null, block, DataReader, first_piece, next_piece, write_response, transfer,
}

-- The reader holds the bytes: in a block of their length, or in none if there are none yet.
pub data Holds (bytes : Bytes) (dr : DataReader) : Type 0 where
  nothing_yet : dr.buf ≡ null → dr.buflen ≡ 0 → bytes ≡ [] → Holds bytes dr
  in_block : (p : ℕ) → dr.buf ≡ block p bytes → dr.buflen ≡ length bytes → Holds bytes dr

module _ (A : Allocator) where
  open A use {State}

  first_piece-Holds :
      (s : State) (dr : DataReader) (piece : Bytes)
      → dr.buflen ≡ 0
      → Ensures (λ w. Holds piece w.reader) (first_piece A s dr piece)
  unfolding first_piece
  first_piece-Holds s dr piece z = elim (Option-cases (A.alloc s (length piece + 1)).0) [
    | inl lost ↦ rw (lost, first_piece) tt
    | inr (q, got) ↦ rw (got, first_piece) (in_block q refl (omega arith))
  ]

  next_piece-Holds :
      (s : State) (dr : DataReader) (bytes piece : Bytes) (p : ℕ)
      → 0 < length piece
      → dr.buflen ≡ length bytes
      → Ensures
          (λ w. w.count ≡ length piece → Holds (bytes ++ piece) w.reader)
          (next_piece A s dr piece (block p bytes))
  unfolding next_piece
  next_piece-Holds s dr bytes piece p some_bytes l =
      elim (Option-cases (A.realloc s p (dr.buflen + length piece + 1)).0) [
        | inl lost ↦ rw (lost, next_piece) (λ none_taken. absurd (omega arith))
        | inr (q, got) ↦
            rw (got, next_piece) (λ _. in_block q refl (omega (arith, length-append bytes piece)))
      ]

  write_response-Holds :
      (s : State) (dr : DataReader) (bytes piece : Bytes)
      → 0 < length piece
      → Holds bytes dr
      → Ensures
          (λ w. w.count ≡ length piece → Holds (bytes ++ piece) w.reader)
          (write_response A s dr piece)
  unfolding write_response
  write_response-Holds s dr [] piece some_bytes (nothing_yet e z n) =
      rw ((==_iff dr.buflen 0).1 z, write_response)
        (Ensures-mono (λ w. Holds piece w.reader) _ _ (λ w h _. h) (first_piece-Holds s dr piece z))
  write_response-Holds s dr (b ∷ bs) piece some_bytes (nothing_yet e z n) = absurd (cc)
  write_response-Holds s dr [] piece some_bytes (in_block p e z) =
      rw ((==_iff dr.buflen 0).1 z, write_response)
        (Ensures-mono (λ w. Holds piece w.reader) _ _ (λ w h _. h) (first_piece-Holds s dr piece z))
  write_response-Holds s dr (b ∷ bs) piece some_bytes (in_block p e l) =
      let more : (dr.buflen == 0) ≡ false = ground arith in
      rw (more, write_response, e) (next_piece-Holds s dr (b ∷ bs) piece p some_bytes l)

  -- Where no piece is empty and the transfer ends well, a reader that held some bytes holds all
  -- pieces behind them, in their order and nothing else.
  pub transfer-Holds :
      (s : State) (dr : DataReader) (bytes : Bytes) (pieces : List Bytes) (ends_well : Bool)
      → All (λ piece. 0 < length piece) pieces
      → Holds bytes dr
      → Ensures
          (λ t. t.is_ok ≡ true → Holds (bytes ++ flatten pieces) t.reader)
          (transfer A s dr pieces ends_well)
  unfolding transfer flatten
  transfer-Holds s dr bytes [] ends_well h held =
      λ _. subst (λ b. Holds b dr) (sym (append-nil bytes)) held
  transfer-Holds s dr bytes (piece ∷ pieces) ends_well h held =
      Ensures->>= (write_response A s dr piece) _
        (λ w. w.count ≡ length piece → Holds (bytes ++ piece) w.reader) _
        (write_response-Holds s dr bytes piece h.0 held)
        λ w got. elim (Bool-cases (w.count == length piece)) [
          | inl taken ↦ rw taken (
              subst
                (λ b.
                  Ensures (λ t. t.is_ok ≡ true → Holds b t.reader)
                    (transfer A w.heap w.reader pieces ends_well))
                (append_assoc bytes piece (flatten pieces))
                (transfer-Holds w.heap w.reader (bytes ++ piece) pieces ends_well h.1
                  (got ((==_iff w.count (length piece)).0 taken))))
          | inr short ↦ rw short (λ bad. absurd (cc))
        ]
