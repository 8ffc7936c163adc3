-- ===== src/Detect/Reader.antt =====
-- dacloud.c, `struct data_reader`: the body of a response as libcurl delivers it, piece by piece.
use deviceatlas_cloud_c.Prelude.{
  ℕ, ◌+◌, none, some, List, [], ◌∷◌, ◌++◌, Bool, true, false, ◌==◌, if◌then◌else◌, length, Bytes,
  Outcome, returns, crashes, ◌>>=◌,
}
use deviceatlas_cloud_c.Mem.{Allocator}

-- The field `buf`: null, a block with the bytes written to it, or a block that was freed already.
pub data Buffer : Type 0 where
  null : Buffer
  block : ℕ → Bytes → Buffer
  dangling : Buffer

-- struct data_reader, with its own address.
pub record DataReader : Type 0 where
  pub self : ℕ
  pub buf : Buffer
  pub buflen : ℕ

-- What a call of the write function returns and leaves.
pub record Written (H : Type 0) : Type 0 where
  pub count : ℕ
  pub reader : DataReader
  pub heap : H

-- The state of a transfer when libcurl is done with it: whether it ended well.
pub record Transferred (H : Type 0) : Type 0 where
  pub is_ok : Bool
  pub reader : DataReader
  pub heap : H

module _ (A : Allocator) where
  open A use {State, alloc, realloc, free}

  -- memcpy to the new block, whose address is not tested.
  unfoldable pub first_piece : State → DataReader → Bytes → Outcome (Written State)
  first_piece s dr piece =
      let (p, s') = alloc s (length piece + 1) in
      elim p [
        | none ↦ crashes
        | some q ↦ returns (record {
          count = length piece;
          reader = record dr { buf = block q piece; buflen = dr.buflen + length piece };
          heap = s';
        })
      ]

  unfoldable pub next_piece : State → DataReader → Bytes → Buffer → Outcome (Written State)
  next_piece s dr piece (block p bytes) =
      let (q, s') = realloc s p (dr.buflen + length piece + 1) in
      elim q [
        | none ↦ returns (record { count = 0; reader = record dr { buf = dangling }; heap = s' })
        | some q' ↦ returns (record {
          count = length piece;
          reader = record dr { buf = block q' (bytes ++ piece); buflen = dr.buflen + length piece };
          heap = s';
        })
      ]
  next_piece s dr piece _ = crashes

  -- _write_servers_response
  unfoldable pub write_response : State → DataReader → Bytes → Outcome (Written State)
  unfolding first_piece next_piece
  write_response s dr piece =
      if dr.buflen == 0 then first_piece s dr piece else next_piece s dr piece dr.buf

  -- libcurl's transfer of the pieces of a body: it fails where the write function does not take a
  -- whole piece, and otherwise ends as the server's side does.
  unfoldable pub transfer : State → DataReader → List Bytes → Bool → Outcome (Transferred State)
  unfolding write_response
  transfer s dr [] ends_well = returns (record { is_ok = ends_well; reader = dr; heap = s })
  transfer s dr (piece ∷ pieces) ends_well = do
    w ← write_response s dr piece
    elim (w.count == length piece) [
      | true ↦ transfer w.heap w.reader pieces ends_well
      | false ↦ returns (record { is_ok = false; reader = w.reader; heap = w.heap })
    ]

  -- data_reader_free: to free a block again is undefined.
  unfoldable pub free_buffer : State → Buffer → Outcome State
  free_buffer s null = returns s
  free_buffer s (block p bytes) = returns (free s p)
  free_buffer s dangling = crashes

  unfoldable pub data_reader_free : State → DataReader → Outcome State
  unfolding free_buffer
  data_reader_free s dr = do s' ← free_buffer s dr.buf; returns (free s' dr.self)
