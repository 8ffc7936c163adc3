-- ===== src/Config.antt =====
-- dacloud.c, the configuration file: what is looked up in it, and the servers that it names.
pub mod Loading
pub mod Hostless
use deviceatlas_cloud_c.Prelude.{
  ℕ, zero, suc, ◌+◌, ◌*◌, ◌%◌, Option, none, some, List, [], ◌∷◌, ◌++◌, Bool, true, false, ◌&&◌,
  ◌||◌, leb, ◌==◌, if◌then◌else◌, length, map, Bytes, codes, same_text, ℤ, pos, negsuc, Status,
  done, failed, Outcome, returns, crashes, hangs, ◌>>=◌,
}
use deviceatlas_cloud_c.Mem.{Allocator}
use deviceatlas_cloud_c.Cache.{CString, Left, CacheOps, Provider, mock, Ops, cache_set, cache_id}
use deviceatlas_cloud_c.Server.{Server, ServerHead}
use deviceatlas_cloud_c.Ranking.{Probes, Fired, unreached, servers_fireup}

-- What libconfig finds in a file: the strings and the integer that are looked up, and the elements
-- of the list "servers". `none` is a setting that is missing or has another type.
pub record Element : Type 0 where
  pub host : Option Bytes
  pub port : Option ℤ

pub record Settings : Type 0 where
  pub error_path : Option Bytes
  pub licence_key : Option Bytes
  pub cache_type : Option Bytes
  pub cache_config : Option Bytes
  pub manual_ranking : Option ℤ
  pub servers : Option (List Element)

-- What is used of the system: config_read_file, and whether a file can be opened for appending.
pub record Platform : Type 0 where
  pub read_file : Bytes → Option Settings
  pub fopen_append : Bytes → Bool

-- The field `efp`.
pub data Stream : Type 0 where
  stdin stderr : Stream
  appended : Bytes → Stream

abbrev pub cache_expiration : ℕ
cache_expiration = 2952000

abbrev pub default_server : Bytes → Server
default_server host = record { response_time = unreached; host = host; port = 80; blocks = none }

abbrev pub default_servers : List Server
default_servers =
    default_server (codes "http://region0.deviceatlascloud.com")
    ∷ default_server (codes "http://region1.deviceatlascloud.com")
    ∷ default_server (codes "http://region2.deviceatlascloud.com")
    ∷ default_server (codes "http://region3.deviceatlascloud.com")
    ∷ []

-- The name "stdin" and the name "2" both stand for stdin.
unfoldable pub efp_of : Platform → Option Bytes → Stream
efp_of P none = stderr
efp_of P (some path) =
    if same_text path (codes "stdin") || same_text path (codes "2")
    then stdin
    else if P.fopen_append path
    then appended path
    else stderr

-- The assignment of an int to a bit field of one bit.
unfoldable pub low_bit : ℤ → Bool
low_bit (pos n) = n % 2 == 1
low_bit (negsuc n) = n % 2 == 0

unfoldable pub ranking_of : Bool → Option ℤ → Bool
unfolding low_bit
ranking_of old none = old
ranking_of old (some tmp) = low_bit tmp

-- tmp >= 80 && tmp <= 65535
unfoldable pub port_of : Option ℤ → ℕ
port_of none = 80
port_of (some (pos tmp)) = if leb 80 tmp && leb tmp 65535 then tmp else 80
port_of (some (negsuc n)) = 80

abbrev pub sizeof_server_head : ℕ
sizeof_server_head = 24

abbrev pub sizeof_server : ℕ
sizeof_server = 24

abbrev pub sizeof_pointer : ℕ
sizeof_pointer = 8

-- The null pointer is the address 0.
abbrev pub address_of : Option ℕ → ℕ
address_of none = 0
address_of (some p) = p

-- A provider, and its part of a zeroed struct da_cloud_cache_cfg with a text and an expiration.
pub record Plugin (A : Allocator) : Type 1 where
  pub ops : CacheOps A
  pub zeroed : Option Bytes → ℕ → ops.Cfg

module _ (A : Allocator) where
  open A use {State, alloc, realloc, strdup, free}

  -- What the loop over the elements leaves: whether it came to the end of the list.
  pub record LoadedServers : Type 0 where
    pub complete : Bool
    pub head : ServerHead
    pub heap : State

  -- The new server at the end of the array. Its struct is written to without a test; a host that
  -- could not be copied is a null pointer that is printed later, and counted as undefined here.
  unfoldable pub add_server : State → ServerHead → ℕ → Bytes → ℕ → Outcome (ServerHead × State)
  add_server s head ts host port =
      let (at, s') = alloc s sizeof_server in
      let (copy, s'') = strdup s' (length host) in
      elim at [
        | none ↦ crashes
        | some p ↦ elim copy [
          | none ↦ crashes
          | some q ↦ returns (
            record head {
              array = some ts;
              servers =
                  head.servers
                  ++ record {
                    response_time = unreached;
                    host = host;
                    port = port;
                    blocks = some (p, q);
                  }
                    ∷ [];
            },
            s'',
          )
        ]
      ]

  -- The loop, with the elements from the index `nservers` on; `continue` comes back to the same one.
  -- A round takes one of the fuel, and a loop that is out of fuel counts as one that does not end.
  unfoldable pub load_each : ℕ → State → ServerHead → List Element → Outcome LoadedServers
  unfolding port_of add_server
  load_each zero s head elements = hangs
  load_each (suc fuel) s head [] = returns (record { complete = true; head = head; heap = s })
  load_each (suc fuel) s head (server ∷ rest) = elim server.host [
    | none ↦ load_each fuel s head (server ∷ rest)
    | some host ↦
        let (ts, s') =
          realloc s (address_of head.array) ((length head.servers + 1) * sizeof_pointer) in
        elim ts [
          | none ↦ returns (record { complete = false; head = head; heap = s' })
          | some t ↦ do
            r ← add_server s' head t host (port_of server.port)
            load_each fuel r.1 r.0 rest
        ]
  ]

  -- One round for each element and one for the end of the list.
  unfoldable pub load_servers : State → ServerHead → List Element → Outcome LoadedServers
  unfolding load_each
  load_servers s head elements = load_each (suc (length elements)) s head elements

  -- The default servers where there is none yet; the array is written to without a test.
  unfoldable pub use_defaults : State → ServerHead → Outcome (ServerHead × State)
  use_defaults s head = elim head.servers [
    | [] ↦
        let (servers, s') = alloc s (length default_servers * sizeof_pointer) in
        elim servers [
          | none ↦ crashes
          | some t ↦
              returns
                (record head { array = some t; servers = default_servers; dservers = true }, s')
        ]
    | x ∷ xs ↦ returns (head, s)
  ]

  -- g_allocator.free, of a null pointer as well.
  abbrev pub free_pointer : State → Option ℕ → State
  free_pointer s none = s
  free_pointer s (some p) = free s p

  -- The host and the struct of each server that has blocks of its own.
  unfoldable pub free_servers : State → List Server → State
  free_servers s [] = s
  free_servers s (server ∷ rest) = elim server.blocks [
    | none ↦ free_servers s rest
    | some (p, q) ↦ free_servers (free (free s q) p) rest
  ]
