-- ===== src/Ranking.antt =====
-- dacloud.c, the ranking of the servers: `_da_cloud_servers_fireup` asks each one and sorts them by
-- the time that they took.
pub mod Times
pub mod Sorting
use deviceatlas_cloud_c.Prelude.{
  ℕ, Option, none, some, List, [], ◌∷◌, Bool, true, false, ◌&&◌, not, ltb, ◌==◌, if◌then◌else◌,
  Bytes, ℤ, pos, negsuc, Status, done, failed,
}
use deviceatlas_cloud_c.Server.{Server}

-- a > b
unfoldable pub exceeds : ℤ → ℤ → Bool
exceeds (pos m) (pos n) = ltb n m
exceeds (pos m) (negsuc n) = true
exceeds (negsuc m) (pos n) = false
exceeds (negsuc m) (negsuc n) = ltb m n

-- _servers_cmp: times in microseconds differ by more than the epsilon or not at all, so the result
-- 0, for a difference of the epsilon itself, does not occur.
unfoldable pub servers_cmp : Server → Server → ℤ
unfolding exceeds
servers_cmp a b = if exceeds a.response_time b.response_time then pos 1 else negsuc 0

-- What the function uses of libcurl: whether there is a handle; and for a host and a port, if the
-- transfer ends well, the response code and the time in microseconds.
pub record Probes : Type 1 where
  pub Net : Type 0
  pub easy_init : Net → Bool × Net
  pub perform : Net → Bytes → ℕ → Option (ℕ × ℕ) × Net

-- -1.0 seconds
abbrev pub unreached : ℤ
unreached = negsuc 999999

-- The response time after a transfer.
unfoldable pub time_of : Option (ℕ × ℕ) → ℤ
time_of none = unreached
time_of (some (response_code, total_time)) =
    if response_code == 200 then pos total_time else unreached

-- `_ret` after a transfer.
unfoldable pub ret_of : Status → Option (ℕ × ℕ) → Status
ret_of ret none = ret
ret_of ret (some (response_code, total_time)) = if response_code == 200 then done else ret

-- The loop's result: whether it went through all servers, `_ret`, and the servers.
pub record Measured (Net : Type 0) : Type 0 where
  pub complete : Bool
  pub ret : Status
  pub servers : List Server
  pub net : Net

-- What the function returns and leaves.
pub record Fired (Net : Type 0) : Type 0 where
  pub status : Status
  pub servers : List Server
  pub net : Net

abbrev pub is_done : Status → Bool
is_done done = true
is_done failed = false

module _ (W : Probes) where
  open W use {Net, easy_init, perform}

  -- The loop, with `_ret` so far; without a handle it is left at once.
  unfoldable pub measure : Net → Status → List Server → Measured Net
  unfolding time_of ret_of
  measure net ret [] = record { complete = true; ret = ret; servers = []; net = net }
  measure net ret (s ∷ servers) =
      let (handle, net') = easy_init net in
      let (answer, net'') = perform net' s.host s.port in
      let rest = measure net'' (ret_of ret answer) servers in
      elim handle [
        | false ↦ record { complete = false; ret = ret; servers = s ∷ servers; net = net' }
        | true ↦ record rest {
          servers = record s { response_time = time_of answer } ∷ rest.servers;
        }
      ]

-- `qsort` is the one of the C library.
module _ (W : Probes) (qsort : (Server → Server → ℤ) → List Server → List Server) where
  open W use {Net}

  -- Behind the loop.
  unfoldable pub rank : Bool → Measured Net → Fired Net
  unfolding servers_cmp
  rank manual_ranking m = record {
    status = m.ret;
    servers =
        if is_done m.ret && not manual_ranking then qsort servers_cmp m.servers else m.servers;
    net = m.net;
  }

  unfoldable pub servers_fireup : Net → Bool → List Server → Fired Net
  unfolding measure rank
  servers_fireup net manual_ranking servers =
      let m = measure W net failed servers in
      elim m.complete [
        | false ↦ record { status = failed; servers = m.servers; net = m.net }
        | true ↦ rank manual_ranking m
      ]
