-- ===== src/Membuf.antt =====
-- dacloud_mem.c, the growing pools: `struct da_cloud_membuf`, a list of blocks that is read from
-- its root and extended at its last node.
pub mod Creation
pub mod Growth
pub mod Leaks
pub mod Overruns
pub mod Fitting
use deviceatlas_cloud_c.Prelude.{
  ℕ, zero, suc, ◌+◌, ◌-◌, ◌/◌, ◌%◌, ◌^◌, ◌≤◌, ◌≡◌, Option, none, some, List, [], ◌∷◌, ◌++◌, leb,
  ltb, if◌then◌else◌, Outcome, returns, crashes, hangs, ◌>>=◌,
}
use deviceatlas_cloud_c.Mem.{Allocator, Mem, size_mod, mem_alloc, mem_create, mem_free}

-- One struct da_cloud_membuf: its own address, and its field `p` as an address with the struct
-- that stands there.
pub record Membuf : Type 0 where
  pub node : ℕ
  pub block : ℕ
  pub p : Mem

-- The nodes that lead from a root over the fields `n` to the last one, which the caller's cursor
-- `dcm` points to; `before` are those in front of it, the root first.
pub record Pool : Type 0 where
  pub before : List Membuf
  pub dcm : Membuf

abbrev pub nodes : Pool → List Membuf
nodes c = c.before ++ c.dcm ∷ []

abbrev pub sizeof_membuf : ℕ
sizeof_membuf = 16

abbrev pub long_max : ℕ
long_max = 2 ^ 63 - 1

-- (*dcm)->p->a + ((*dcm)->p->a / 2 + needed)
unfoldable pub newsize : Mem → ℕ → ℕ
newsize m needed = (m.a + (m.a / 2 + needed)) % size_mod

module _ (A : Allocator) where
  open A use {State, alloc, free}

  unfoldable pub membuf_create : State → ℕ → Option Membuf × State
  unfolding mem_create
  membuf_create s needed =
      let (dcm, s') = alloc s sizeof_membuf in
      elim dcm [
        | none ↦ (none, s')
        | some q ↦
            let (p, s'') = mem_create A s' needed in
            elim p [
              | none ↦ (none, free s'' q)
              | some (b, m) ↦ (some (record { node = q; block = b; p = m }), s'')
            ]
      ]

  -- What a call leaves: the region or a null pointer, the pool, and the allocator's state.
  pub record Grant : Type 0 where
    pub region : Option ℕ
    pub pool : Pool
    pub heap : State

  -- The call of itself on the new node is made on fuel; without fuel the call counts as one that
  -- does not return.
  unfoldable pub membuf_alloc : ℕ → State → Pool → ℕ → Outcome Grant
  membuf_alloc zero s c needed = hangs
  membuf_alloc (suc fuel) s c needed = elim (mem_alloc (some c.dcm.p) needed) [
    | some (r, m) ↦
        returns
          (record { region = some r; pool = record c { dcm = record (c.dcm) { p = m } }; heap = s })
    | none ↦
        if leb long_max (newsize c.dcm.p needed)
        then returns (record { region = none; pool = c; heap = s })
        else let (n, s') = membuf_create s (newsize c.dcm.p needed) in
          elim n [
            | none ↦ returns (record { region = none; pool = c; heap = s' })
            | some d ↦ membuf_alloc fuel s' (record { before = nodes c; dcm = d }) needed
          ]
  ]

  -- The copy of a text of the given length with its terminator.
  unfoldable pub membuf_strdup : ℕ → State → Pool → ℕ → Outcome Grant
  membuf_strdup fuel s c strlen = membuf_alloc fuel s c (strlen + 1)

  -- The caller writes to all bytes of a region in the last block, if it was given one: a byte at the
  -- block's end or behind it is not the block's.
  unfoldable pub written : Option ℕ → ℕ → Grant → Outcome Grant
  written none needed g = returns g
  written (some r) needed g = if ltb g.pool.dcm.p.e (r + needed) then crashes else returns g

  -- A request whose region the caller fills.
  unfoldable pub membuf_fill : ℕ → State → Pool → ℕ → Outcome Grant
  unfolding written
  membuf_fill fuel s c needed = do g ← membuf_alloc fuel s c needed; written g.region needed g

  -- The copy of a text of the given length, with the strcpy.
  unfoldable pub membuf_copy : ℕ → State → Pool → ℕ → Outcome Grant
  unfolding membuf_fill
  membuf_copy fuel s c strlen = membuf_fill fuel s c (strlen + 1)

  -- The loop from the root on.
  unfoldable pub membuf_free : State → List Membuf → State
  unfolding mem_free
  membuf_free s [] = s
  membuf_free s (h ∷ n) = membuf_free (free (mem_free A s (some h.block)) h.node) n
