-- ===== src/Config/Loading.antt =====
-- dacloud.c, the servers that `da_cloud_init` takes from the configuration.
use deviceatlas_cloud_c.Prelude.{
  ℕ, ◌≤◌, ◌<◌, ◌≡◌, some, List, [], ◌∷◌, ◌++◌, map, true, ◌⊎◌, length, All, Bytes, ◌>>=◌,
}
use deviceatlas_cloud_c.Mem.{Allocator}
use deviceatlas_cloud_c.Server.{Server, ServerHead}
use deviceatlas_cloud_c.Ranking.Times.{address}
use deviceatlas_cloud_c.Config.{Element, LoadedServers, port_of, default_servers}

-- The hosts and the ports that the elements name: each has a host.
abbrev pub Names : List Element → List (Bytes × ℕ) → Type 0
Names [] [] = Unit
Names [] (w ∷ ws) = ⊥
Names (e ∷ es) [] = ⊥
Names (e ∷ es) ((host, port) ∷ ws) = (e.host ≡ some host) × (port ≡ port_of e.port) × Names es ws

abbrev pub InRange : ℕ → Type 0
InRange port = (80 ≤ port) × (port ≤ 65535)

-- Every port is in range.
abbrev pub Ports : List Server → Type 0
Ports = All (λ s. InRange s.port)

module _ (A : Allocator) where
  open A use {State}

  -- The head has one more server, of that host and port.
  Adds : ServerHead → Bytes → ℕ → ServerHead × State → Type 0
  Adds head host port r =
      (map address r.0.servers ≡ map address head.servers ++ (host, port) ∷ [])
      × (Ports head.servers → InRange port → Ports r.0.servers)
      × (0 < length r.0.servers)

  -- Where the loop comes to the end of the elements, all of them name a host, and the servers are
  -- those that were there and those that the elements name.
  Loads : ServerHead → List Element → LoadedServers A → Type 0
  Loads head elements r =
      r.complete ≡ true
      → (ws : List (Bytes × ℕ)) × Names elements ws
        × (map address r.head.servers ≡ map address head.servers ++ ws)
        × (Ports head.servers → Ports r.head.servers)

  -- What the ranking is given: the servers of the configuration, or the default ones.
  abbrev pub Chosen : List Element → ServerHead × State → Type 0
  Chosen elements h =
      (0 < length h.0.servers)
      × Ports h.0.servers
      × (((elements ≡ []) × (h.0.servers ≡ default_servers))
          ⊎ ((ws : List (Bytes × ℕ)) × Names elements ws × (map address h.0.servers ≡ ws)))
