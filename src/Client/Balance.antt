-- ===== src/Client/Balance.antt =====
-- dacloud.c, the blocks that da_cloud_init takes for the servers and da_cloud_fini gives back.
use mathlib.Core.List.Perm
use mathlib.Core.List.{perm_middle}
use deviceatlas_cloud_c.Prelude.{
  ℕ, zero, suc, ◌+◌, ◌*◌, ◌≡◌, ◌≢◌, refl, sym, ◌∙◌, subst, Option, none, some, Option-cases, List,
  [], ◌∷◌, ◌++◌, Perm, Bool, true, false, inl, inr, if◌then◌else◌, length, length-append, ◌<◌,
  arith, Bytes, ℤ, returns, Bool-cases, Ensures, Ensures-returns, Ensures->>=, Ensures-mono,
}
use deviceatlas_cloud_c.Mem.{Allocator, AllocatorLaws}
use deviceatlas_cloud_c.Mem.Moving.{CopyLaws}
use deviceatlas_cloud_c.Cache.{Provider}
use deviceatlas_cloud_c.Server.{Server, ServerHead}
use deviceatlas_cloud_c.Ranking.{Probes, unreached}
use deviceatlas_cloud_c.Client.{free_head}
use deviceatlas_cloud_c.Config.{
  Element, Platform, Plugin, LoadedServers, use_defaults, default_servers, port_of, add_server,
  load_each, load_servers, free_servers, address_of, sizeof_pointer, sizeof_server,
}

-- The blocks of the servers.
abbrev pub blocks_of : List Server → List ℕ
blocks_of [] = []
blocks_of (server ∷ rest) = elim server.blocks [
  | none ↦ blocks_of rest
  | some (p, q) ↦ q ∷ p ∷ blocks_of rest
]

blocks_of-snoc :
    (l : List Server) (host : Bytes) (port p q : ℕ) (time : ℤ) (rest : List ℕ)
    → Perm (q ∷ p ∷ blocks_of l ++ rest) (
        blocks_of (
          l ++ record { response_time = time; host = host; port = port; blocks = some (p, q) } ∷ [])
        ++ rest)
blocks_of-snoc [] host port p q time rest = Perm.rfl
blocks_of-snoc (x ∷ l) host port p q time rest = elim (Option-cases x.blocks) [
  | inl e ↦ rw (e) (blocks_of-snoc l host port p q time rest)
  | inr ((p', q'), e) ↦
      let pair = q' ∷ p' ∷ [] in
      rw (e) (
        Perm.trans (Perm.cons q (Perm.symm (perm_middle pair (blocks_of l ++ rest)))) (
          Perm.trans (Perm.symm (perm_middle pair (p ∷ blocks_of l ++ rest)))
            (Perm.cons q' (Perm.cons p' (blocks_of-snoc l host port p q time rest)))))
]

module _ (A : Allocator) (L : AllocatorLaws A) where
  open A use {State}

  free_servers-live :
      (l : List Server) (s : State) (rest : List ℕ)
      → Perm (L.live s) (blocks_of l ++ rest)
      → Perm (L.live (free_servers A s l)) rest
  unfolding free_servers
  free_servers-live [] s rest h = h
  free_servers-live (x ∷ l) s rest h = elim (Option-cases x.blocks) [
    | inl e ↦
        rw (free_servers, e)
          (free_servers-live l s rest (
            subst
              (λ b. Perm (L.live s) (
                (elim b as (λ _. List ℕ) [ none ↦ blocks_of l | some (p, q) ↦ q ∷ p ∷ blocks_of l ])
                ++ rest))
              e h))
    | inr ((p, q), e) ↦
        let owned =
          subst
            (λ b. Perm (L.live s) (
              (elim b as (λ _. List ℕ) [ none ↦ blocks_of l | some (p, q) ↦ q ∷ p ∷ blocks_of l ])
              ++ rest))
            e h in
        rw (free_servers, e)
          (free_servers-live l _ rest (L.free_live _ p _ (L.free_live s q _ owned)))
  ]

module _ (A : Allocator) (L : AllocatorLaws A) (K : CopyLaws A L) where
  open A use {State}

  -- A head that da_cloud_init fills has no array and no server, or an array with servers; its blocks
  -- are all that is live besides those of `rest`.
  abbrev pub Holds : Option ℕ → List Server → List ℕ → State → Type 0
  Holds none servers rest s = (servers ≡ []) × Perm (L.live s) rest
  Holds (some t) servers rest s =
      (0 < length servers) × (t ≢ 0) × Perm (L.live s) (t ∷ blocks_of servers ++ rest)

  abbrev pub Owns : ServerHead → List ℕ → State → Type 0
  Owns head rest s = (head.dservers ≡ false) × Holds head.array head.servers rest s

  add_server-Owns :
      (s : State) (head : ServerHead) (t : ℕ) (host : Bytes) (port : ℕ) (rest : List ℕ)
      → head.dservers ≡ false
      → Perm (L.live s) (t ∷ blocks_of head.servers ++ rest)
      → t ≢ 0
      → Ensures (λ r. (r.0.self ≡ head.self) × Owns r.0 rest r.1) (add_server A s head t host port)
  unfolding add_server
  add_server-Owns s head t host port rest loaded h nonzero =
      elim (Option-cases (A.alloc s sizeof_server).0) [
        | inl lost ↦ rw (lost, add_server) tt
        | inr (p, at) ↦
            let s' = (A.alloc s sizeof_server).1 in
            elim (Option-cases (A.strdup s' (length host)).0) [
              | inl lost ↦ rw (at, add_server, lost) tt
              | inr (q, copy) ↦
                  let (block, _) = L.alloc_some s sizeof_server p at in
                  let copied = K.copies s' (length host) q copy in
                  let pair = q ∷ p ∷ [] in
                  rw (at, add_server, copy)
                    (
                      refl,
                      (
                        loaded,
                        (
                          omega (arith, length-append head.servers),
                          nonzero,
                          Perm.trans copied (
                              Perm.trans (Perm.cons q (Perm.trans block (Perm.cons p h))) (
                                Perm.trans (perm_middle pair (blocks_of head.servers ++ rest)) (
                                  Perm.cons t
                                    (blocks_of-snoc head.servers host port p q unreached rest)))),
                        ),
                      ),
                    )
            ]
      ]

  realloc-live :
      (array : Option ℕ) (servers : List Server) (rest : List ℕ) (s : State) (size t : ℕ)
      → Holds array servers rest s
      → (A.realloc s (address_of array) size).0 ≡ some t
      → Perm (L.live (A.realloc s (address_of array) size).1) (t ∷ blocks_of servers ++ rest)
        × (t ≢ 0)
  realloc-live none servers rest s size t (empty, h) got =
      let (moved, nonzero) = K.moves_null s size t got in
      (
        Perm.trans moved
            (Perm.cons t (subst (λ l. Perm (L.live s) (blocks_of l ++ rest)) (sym empty) h)),
        nonzero,
      )
  realloc-live (some p) servers rest s size t (_, nonzero, h) got =
      K.moves_some s p size t _ nonzero h got

  load_each-Owns :
      (fuel : ℕ) (elements : List Element) (s : State) (head : ServerHead) (rest : List ℕ)
      → Owns head rest s
      → Ensures
          (λ r. r.complete ≡ true → (r.head.self ≡ head.self) × Owns r.head rest r.heap)
          (load_each A fuel s head elements)
  unfolding load_each
  load_each-Owns zero elements s head rest h = tt
  load_each-Owns (suc fuel) [] s head rest h = λ _. (refl, h)
  load_each-Owns (suc fuel) (e ∷ elements) s head rest (loaded, h) = elim (Option-cases e.host) [
    | inl missing ↦
        rw (missing, load_each) (load_each-Owns fuel (e ∷ elements) s head rest (loaded, h))
    | inr (host, named) ↦
        let size = (length head.servers + 1) * sizeof_pointer in
        let more = A.realloc s (address_of head.array) size in
        elim (Option-cases more.0) [
          | inl lost ↦ rw (named, load_each, lost) (λ bad. absurd (cc))
          | inr (t, got) ↦
              let (moved, nonzero) = realloc-live head.array head.servers rest s size t h got in
              rw (named, load_each, got)
                (Ensures->>= (add_server A more.1 head t host (port_of e.port)) _
                  (λ r. (r.0.self ≡ head.self) × Owns r.0 rest r.1) _
                  (add_server-Owns more.1 head t host (port_of e.port) rest loaded moved nonzero)
                  λ r (same, owned).
                    Ensures-mono
                      (λ l. l.complete ≡ true → (l.head.self ≡ r.0.self) × Owns l.head rest l.heap)
                      (λ l. l.complete ≡ true → (l.head.self ≡ head.self) × Owns l.head rest l.heap)
                      _ (λ l next all. ((next all).0 ∙ same, (next all).1))
                      (load_each-Owns fuel elements r.1 r.0 rest owned))
        ]
  ]

  pub load_servers-Owns :
      (elements : List Element) (s : State) (head : ServerHead) (rest : List ℕ)
      → Owns head rest s
      → Ensures
          (λ r. r.complete ≡ true → (r.head.self ≡ head.self) × Owns r.head rest r.heap)
          (load_servers A s head elements)
  unfolding load_servers
  load_servers-Owns elements s head rest h =
      load_each-Owns (suc (length elements)) elements s head rest h

  -- What the ranking is given: servers of its own, or the static ones in an array.
  abbrev pub Given : ℕ → List ℕ → ServerHead × State → Type 0
  Given self rest h =
      (h.0.self ≡ self)
      × (t : ℕ) × (h.0.array ≡ some t)
      × Perm (L.live h.1) (t ∷ (if h.0.dservers then [] else blocks_of h.0.servers) ++ rest)

  pub use_defaults-Given :
      (head : ServerHead) (s : State) (self : ℕ) (rest : List ℕ) (array : Option ℕ)
      (servers : List Server)
      → head.self ≡ self
      → head.dservers ≡ false
      → head.array ≡ array
      → head.servers ≡ servers
      → Holds array servers rest s
      → Ensures (Given self rest) (use_defaults A s head)
  unfolding use_defaults
  use_defaults-Given head s self rest none [] mine loaded a l (_, h) =
      elim (Option-cases (A.alloc s (length default_servers * sizeof_pointer)).0) [
        | inl lost ↦ rw (use_defaults, l, lost) tt
        | inr (t, got) ↦
            let (block, _) = L.alloc_some s (length default_servers * sizeof_pointer) t got in
            rw (use_defaults, l, got) (mine, t, refl, Perm.trans block (Perm.cons t h))
      ]
  use_defaults-Given head s self rest none (x ∷ xs) mine loaded a l (empty, h) = absurd (cc)
  use_defaults-Given head s self rest (some t) [] mine loaded a l (many, _, _) =
      absurd (omega (arith, many))
  use_defaults-Given head s self rest (some t) (x ∷ xs) mine loaded a l (many, nonzero, h) =
      rw (use_defaults, l)
        (
          mine,
          t,
          a,
          subst (λ b. Perm (L.live s) (t ∷ (if b then [] else blocks_of head.servers) ++ rest))
              (sym loaded) (subst (λ ss. Perm (L.live s) (t ∷ blocks_of ss ++ rest)) (sym l) h),
        )

module _ (A : Allocator) (plugins : Provider → Plugin A) (have_memcached : Bool) (P : Platform)
    (W : Probes) (qsort : (Server → Server → ℤ) → List Server → List Server) (L : AllocatorLaws A)
    (K : CopyLaws A L) where
  open A use {State}

  pub free_head-live :
      (self : ℕ) (rest : List ℕ) (h : ServerHead × State)
      → Given A L K self (self ∷ rest) h
      → Perm (L.live (free_head A plugins have_memcached P W qsort h.1 h.0)) rest
  unfolding free_head
  free_head-live self rest h (mine, t, array, owned) = elim (Bool-cases h.0.dservers) [
    | inl static ↦
        let only : Perm (L.live h.1) (t ∷ self ∷ rest) =
          subst
            (λ b. Perm (L.live h.1) (t ∷ (if b then [] else blocks_of h.0.servers) ++ self ∷ rest))
            static owned in
        rw (free_head, static, array, mine) (L.free_live _ self rest (L.free_live h.1 t _ only))
    | inr loaded ↦
        let all : Perm (L.live h.1) (t ∷ blocks_of h.0.servers ++ self ∷ rest) =
          subst
            (λ b. Perm (L.live h.1) (t ∷ (if b then [] else blocks_of h.0.servers) ++ self ∷ rest))
            loaded owned in
        let left =
          free_servers-live A L h.0.servers h.1 (t ∷ self ∷ rest)
            (Perm.trans all (Perm.symm (perm_middle (blocks_of h.0.servers) (self ∷ rest)))) in
        rw (free_head, loaded, array, mine) (L.free_live _ self rest (L.free_live _ t _ left))
  ]

  -- Over a lawful allocator that also moves and copies blocks lawfully and never hands out the
  -- address 0, where the loop of da_cloud_init comes to the end of the elements and the default
  -- servers are put in if it gave none, freeing the head as da_cloud_fini does gives back every
  -- block that was taken for the servers, their array and the head, and nothing else.
  pub free_head-balanced :
      (s : State) (self : ℕ) (rest : List ℕ) (elements : List Element) (r : LoadedServers A)
      (h : ServerHead × State)
      → Perm (L.live s) (self ∷ rest)
      → load_servers A s
          (record { self = self; array = none; servers = []; dservers = false })
          elements
        ≡ returns r
      → r.complete ≡ true
      → use_defaults A r.heap r.head ≡ returns h
      → Perm (L.live (free_head A plugins have_memcached P W qsort h.1 h.0)) rest
  free_head-balanced s self rest elements r h live ran all given =
      let (mine, (loaded, held)) =
        Ensures-returns _ _ r ran
          (load_servers-Owns A L K elements s
            (record { self = self; array = none; servers = []; dservers = false }) (self ∷ rest)
            (refl, (refl, live)))
          all in
      free_head-live self rest h (
        Ensures-returns _ _ h given (
          use_defaults-Given A L K r.head r.heap self (self ∷ rest) r.head.array r.head.servers mine
            loaded refl refl held))
