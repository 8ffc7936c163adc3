-- ===== src/Detect/ReaderBlocks.antt =====
-- dacloud.c, the blocks of `struct data_reader` while a response is received.
use mathlib.Core.List.Perm
use deviceatlas_cloud_c.Prelude.{
  ℕ, ◌+◌, ◌<◌, ◌≡◌, ◌≢◌, refl, List, [], ◌∷◌, Perm, Bool, false, inl, inr, Bool-cases, Option-cases,
  ◌==◌, ==_iff, length, All, arith, Bytes, Ensures, Ensures->>=,
}
use deviceatlas_cloud_c.Mem.{Allocator, AllocatorLaws}
use deviceatlas_cloud_c.Mem.Moving.{CopyLaws, RefusalLaws}
use deviceatlas_cloud_c.Detect.Reader.{
  null, block, dangling, DataReader, first_piece, next_piece, write_response, transfer, free_buffer,
  data_reader_free,
}

module _ (A : Allocator) (L : AllocatorLaws A) (K : CopyLaws A L) (X : RefusalLaws A L) where
  open A use {State}
  open L use {live}

  -- The blocks that the reader holds are live besides those of `rest`: its own, and that of the buffer
  -- if there is one that was not freed.
  pub data Held (dr : DataReader) (rest : List ℕ) (s : State) : Type 0 where
    empty : dr.buf ≡ null → dr.buflen ≡ 0 → Perm (live s) (dr.self ∷ rest) → Held dr rest s
    full :
        (p : ℕ) (bytes : Bytes)
        → dr.buf ≡ block p bytes
        → 0 < dr.buflen
        → p ≢ 0
        → Perm (live s) (p ∷ dr.self ∷ rest)
        → Held dr rest s
    gone : dr.buf ≡ dangling → 0 < dr.buflen → Perm (live s) (dr.self ∷ rest) → Held dr rest s

  write_response-Held :
      (s : State) (dr : DataReader) (piece : Bytes) (rest : List ℕ)
      → 0 < length piece
      → Held dr rest s
      → Ensures (λ w. Held w.reader rest w.heap) (write_response A s dr piece)
  unfolding write_response first_piece next_piece
  write_response-Held s dr piece rest h (empty e z held) =
      elim (Option-cases (A.alloc s (length piece + 1)).0) [
        | inl lost ↦ rw (write_response, (==_iff dr.buflen 0).1 z, first_piece, lost) tt
        | inr (q, got) ↦
            rw (write_response, (==_iff dr.buflen 0).1 z, first_piece, got)
              (full q piece refl (omega arith) (X.nonzero s _ q got)
                (Perm.trans (L.alloc_some s _ q got).0 (Perm.cons q held)))
      ]
  write_response-Held s dr piece rest h (full p bytes e some_bytes nonzero held) =
      let more : (dr.buflen == 0) ≡ false = ground arith in
      elim (Option-cases (A.realloc s p (dr.buflen + length piece + 1)).0) [
        | inl lost ↦
            rw (write_response, more, e, next_piece, lost)
              (gone refl some_bytes (X.freed s p _ _ nonzero held lost))
        | inr (q, got) ↦
            let (moved, nonzero') = K.moves_some s p _ q _ nonzero held got in
            rw (write_response, more, e, next_piece, got)
              (full q _ refl (omega arith) nonzero' moved)
      ]
  write_response-Held s dr piece rest h (gone e some_bytes held) =
      let more : (dr.buflen == 0) ≡ false = ground arith in
      rw (write_response, more, e, next_piece) tt

  pub transfer-Held :
      (s : State) (dr : DataReader) (pieces : List Bytes) (ends_well : Bool) (rest : List ℕ)
      → All (λ piece. 0 < length piece) pieces
      → Held dr rest s
      → Ensures (λ t. Held t.reader rest t.heap) (transfer A s dr pieces ends_well)
  unfolding transfer
  transfer-Held s dr [] ends_well rest h held = held
  transfer-Held s dr (piece ∷ pieces) ends_well rest h held =
      Ensures->>= (write_response A s dr piece) _ (λ w. Held w.reader rest w.heap) _
        (write_response-Held s dr piece rest h.0 held)
        λ w held'. elim (Bool-cases (w.count == length piece)) [
          | inl taken ↦ rw taken (transfer-Held w.heap w.reader pieces ends_well rest h.1 held')
          | inr short ↦ rw short held'
        ]

  pub data_reader_free-live :
      (s : State) (dr : DataReader) (rest : List ℕ)
      → Held dr rest s
      → Ensures (λ s'. Perm (live s') rest) (data_reader_free A s dr)
  unfolding data_reader_free free_buffer
  data_reader_free-live s dr rest (empty e z held) =
      rw (data_reader_free, e, free_buffer) (L.free_live s dr.self rest held)
  data_reader_free-live s dr rest (full p bytes e more nonzero held) =
      rw (data_reader_free, e, free_buffer) (L.free_live _ dr.self rest (L.free_live s p _ held))
  data_reader_free-live s dr rest (gone e more held) = rw (data_reader_free, e, free_buffer) tt
