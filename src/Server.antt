-- ===== src/Server.antt =====
-- dacloud.h, the servers: `struct da_cloud_server` and `struct da_cloud_server_head`.
use deviceatlas_cloud_c.Prelude.{
  ℕ, Option, none, some, List, [], ◌∷◌, ◌++◌, Bool, Bytes, codes, ℤ, print_ulong,
}

-- `response_time` is a double number of seconds, from libcurl's clock of microseconds: it is kept
-- as that many microseconds. `blocks` are the addresses of the struct and of its host, which the
-- allocator gave; the four default servers are static and have none.
pub record Server : Type 0 where
  pub response_time : ℤ
  pub host : Bytes
  pub port : ℕ
  pub blocks : Option (ℕ × ℕ)

-- The struct's own address, that of the array `servers`, and what the array points to; `nb` is the
-- number of those.
pub record ServerHead : Type 0 where
  pub self : ℕ
  pub array : Option ℕ
  pub servers : List Server
  pub dservers : Bool

-- da_cloud_print_server of dacloud_header_property.c, onto what a stream holds; `none` is a null
-- stream. `print_time` is printf of a double with "%4.4f".
module _ (print_time : ℤ → Bytes) where
  unfoldable pub print_server : Option Bytes → Server → Option Bytes
  print_server none s = none
  print_server (some out) s = some (
      out
      ++ codes "host("
      ++ s.host
      ++ codes "), port("
      ++ print_ulong s.port
      ++ codes "), rank("
      ++ print_time s.response_time
      ++ codes ")"
      ++ 10 ∷ [])

  -- da_cloud_servers_ranking of dacloud_util.c, the loop over the servers.
  unfoldable pub servers_ranking : Option Bytes → List Server → Option Bytes
  unfolding print_server
  servers_ranking fp [] = fp
  servers_ranking fp (s ∷ servers) = servers_ranking (print_server fp s) servers
