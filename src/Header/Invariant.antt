-- ===== src/Header/Invariant.antt =====
-- What holds of the header list of dacloud_header_property.c after any sequence of additions.
use deviceatlas_cloud_c.Prelude.{
  ℕ, ◌<◌, ◌^◌, ◌≡◌, refl, sym, ap, ◌∙◌, subst, List, [], ◌∷◌, ◌++◌, false, inl, inr, Option-cases,
  length, All, arith, Bytes, Outcome, returns, ◌>>=◌, Ensures, Ensures->>=, IfSome,
}
use deviceatlas_cloud_c.Mem.{Allocator, AllocatorLaws}
use deviceatlas_cloud_c.Membuf.{membuf_create}
use deviceatlas_cloud_c.Membuf.Creation.{Created-some, membuf_create-Created}
use deviceatlas_cloud_c.Membuf.Growth.{IsUsable}
use deviceatlas_cloud_c.Header.{
  Header, HeaderHead, Added, header_prefix, make_header, has_key, cachekey_of, link_header,
  header_init, header_add, pool_size,
}
use deviceatlas_cloud_c.Header.Adding.{
  full_key-eq, orig_key-make_header, SameList, Adds, exhausted, duplicate, added, no_room, overrun,
  header_add-Adds,
}

-- No two headers have the same key.
abbrev pub Distinct : List Header → Type 0
Distinct [] = Unit
Distinct (h ∷ hs) = (has_key h.key hs ≡ false) × Distinct hs

module _ (xxh64 : Bytes → ℕ → ℕ) where
  -- The cache key that belongs to a list: none has been computed for the empty one.
  abbrev pub key_for : List Header → Bytes
  key_for [] = []
  key_for (h ∷ hs) = cachekey_of xxh64 (h ∷ hs)

  pub record IsValid (head : HeaderHead) : Type 0 where
    pub distinct : Distinct head.list
    pub prefixed : All (λ h. h.key ≡ header_prefix ++ h.orig_key) head.list
    pub keyed : head.cachekey ≡ key_for head.list
    pub usable : IsUsable head.pool

  SameList-IsValid : (g h : HeaderHead) → SameList g h → IsUsable g.pool → IsValid h → IsValid g
  SameList-IsValid g h (same, _, key) u v = record {
    distinct = subst Distinct (sym same) v.distinct;
    prefixed = subst (All _) (sym same) v.prefixed;
    keyed = key ∙ v.keyed ∙ ap key_for (sym same);
    usable = u;
  }

  link_header-IsValid :
      (g h : HeaderHead) (key value : Bytes)
      → has_key (header_prefix ++ key) h.list ≡ false
      → SameList g (link_header xxh64 h (make_header key value))
      → IsUsable g.pool
      → IsValid h
      → IsValid g
  unfolding link_header make_header
  link_header-IsValid g h key value new same u v =
      let front = make_header key value in
      SameList-IsValid g (record (link_header xxh64 h front) { pool = g.pool }) same u
        (record {
          distinct = (rw (full_key-eq key) new, v.distinct);
          prefixed = (
            full_key-eq key ∙ ap (◌++◌ header_prefix) (sym (orig_key-make_header key value)),
            v.prefixed,
          );
          keyed = refl;
          usable = u;
        })

module _ (A : Allocator) (xxh64 : Bytes → ℕ → ℕ) where
  open A use {State}

  Adds-IsValid :
      {s : State} {head : HeaderHead} {key value : Bytes} {m : Outcome (Added A)}
      → IsValid xxh64 head
      → Adds A xxh64 s head key value m
      → Ensures (λ r. IsValid xxh64 r.head) m
  Adds-IsValid v (exhausted r _ _ same u) = SameList-IsValid xxh64 r.head _ same u v
  Adds-IsValid v (duplicate r _ _ same u) = SameList-IsValid xxh64 r.head _ same u v
  Adds-IsValid v (added r new _ same u) = link_header-IsValid xxh64 r.head _ _ _ new same u v
  Adds-IsValid v (no_room _) = tt
  Adds-IsValid v (overrun _) = tt

  -- Calls of `header_add` one after another; the caller ignores what they return.
  pub header_add_each : State → HeaderHead → List (Bytes × Bytes) → Outcome (HeaderHead × State)
  header_add_each s head [] = returns (head, s)
  header_add_each s head ((key, value) ∷ rest) = do
    r ← header_add A xxh64 s head key value
    header_add_each r.heap r.head rest

module _ (A : Allocator) (L : AllocatorLaws A) (xxh64 : Bytes → ℕ → ℕ) where
  open A use {State}

  -- With a lawful allocator, a head that was just made is valid.
  pub header_init-IsValid : (s : State) → IfSome (IsValid xxh64) (header_init A s).0
  unfolding header_init
  header_init-IsValid s = elim (Option-cases (membuf_create A s pool_size).0) [
    | inl n ↦ rw (n, header_init) tt
    | inr (d, n) ↦
        let created = membuf_create-Created A L s pool_size (omega arith) in
        let fresh = (Created-some A L pool_size (L.live s) _ d created n).1 in
        rw (n, header_init)
          (record {
            distinct = tt;
            prefixed = tt;
            keyed = refl;
            usable = record { nonempty = omega arith; bounded = omega arith };
          })
  ]

  -- Names and values of less than 2 ^ 61 bytes, added one after another to a valid head over a
  -- lawful allocator, leave it valid if no call crashes: no key stands there twice, every key has
  -- the prefix, and the cache key is the one that belongs to the list.
  pub header_add_each-IsValid :
      (s : State) (head : HeaderHead) (pairs : List (Bytes × Bytes))
      → IsValid xxh64 head
      → All (λ p. (length p.0 < 2 ^ 61) × (length p.1 < 2 ^ 61)) pairs
      → Ensures (λ r. IsValid xxh64 r.0) (header_add_each A xxh64 s head pairs)
  unfolding header_add_each
  header_add_each-IsValid s head [] v h = v
  header_add_each-IsValid s head ((key, value) ∷ rest) v h =
      Ensures->>= (header_add A xxh64 s head key value) _ (λ r. IsValid xxh64 r.head) _
        (Adds-IsValid A xxh64 v
          (header_add-Adds A L xxh64 s head key value v.usable (omega arith) (omega arith)))
        λ r w. header_add_each-IsValid r.heap r.head rest w h.1
