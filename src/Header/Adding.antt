-- ===== src/Header/Adding.antt =====
-- What `da_cloud_header_add` of dacloud_header_property.c does on each branch.
use deviceatlas_cloud_c.Prelude.{
  ℕ, ◌+◌, ◌<◌, ◌^◌, ◌≡◌, refl, ap, ◌∙◌, none, List, [], ◌∷◌, ◌++◌, true, false, ◌⊎◌, inl, inr,
  Option-cases, Bool-cases, length, take, take_all, arith, Bytes, done, failed, Outcome, returns,
  crashes, ◌>>=◌,
}
use deviceatlas_cloud_c.Mem.{Allocator, AllocatorLaws}
use deviceatlas_cloud_c.Membuf.{Grant, membuf_alloc, membuf_strdup, membuf_copy}
use deviceatlas_cloud_c.Membuf.Growth.{IsUsable}
use deviceatlas_cloud_c.Membuf.Overruns.{Overruns, Overruns-here, Overruns-more, membuf_fill-total}
use deviceatlas_cloud_c.Header.{
  HeaderHead, Added, header_prefix, sizeof_prefix, full_key, make_header, has_key, link_header,
  link_new, fill_header, header_add, pool_fuel, sizeof_header,
}

-- The buffer's arithmetic comes to the prefix and the name.
pub full_key-eq : (key : Bytes) → full_key key ≡ header_prefix ++ key
unfolding full_key
full_key-eq key =
    ap (λ k. take (length key + sizeof_prefix) (header_prefix ++ k)) (take_all _ key (omega arith))
    ∙ take_all _ (header_prefix ++ key) (omega arith)

pub orig_key-make_header : (key value : Bytes) → (make_header key value).orig_key ≡ key
unfolding make_header
orig_key-make_header key value = rw full_key-eq refl

-- The list and the key that belong to it, apart from the pool.
abbrev pub SameList : HeaderHead → HeaderHead → Type 0
SameList g h = (g.list ≡ h.list) × (g.hash ≡ h.hash) × (g.cachekey ≡ h.cachekey)

-- What a call asks of the pool: the header's struct, its key and its value.
abbrev pub requests : Bytes → Bytes → List ℕ
requests key value =
    sizeof_header ∷ (length key + sizeof_prefix + sizeof_prefix + 1) ∷ (length value + 1) ∷ []

module _ (A : Allocator) (xxh64 : Bytes → ℕ → ℕ) where
  open A use {State}

  abbrev Refused : Outcome (Grant A) → Type 0
  Refused m = (g : Grant A) × (m ≡ returns g) × (g.region ≡ none)

  -- The pool has room for the header's struct and not for the copy of the name or of the value.
  abbrev pub NoRoom : State → HeaderHead → Bytes → Bytes → Type 0
  NoRoom s head key value =
      (dh : Grant A) × (membuf_alloc A pool_fuel s head.pool sizeof_header ≡ returns dh)
      × (Refused (
            membuf_alloc A pool_fuel dh.heap dh.pool
              (length key + sizeof_prefix + sizeof_prefix + 1))
          ⊎ ((k : Grant A) × (membuf_alloc A pool_fuel dh.heap dh.pool
                  (length key + sizeof_prefix + sizeof_prefix + 1)
                ≡ returns k)
              × Refused (membuf_strdup A pool_fuel k.heap k.pool (length value))))

  -- The call fails and leaves the list, for want of memory or because the key is there; or it puts
  -- the new header in front and computes the key of the new list; or it crashes for want of room,
  -- or because the pool has run past the end of a block.
  pub data Adds (s : State) (head : HeaderHead) (key value : Bytes)
      : Outcome (Added A) → Type 0 where
    exhausted :
        (r : Added A)
        → Refused (membuf_alloc A pool_fuel s head.pool sizeof_header)
        → r.status ≡ failed
        → SameList r.head head
        → IsUsable r.head.pool
        → Adds s head key value (returns r)
    duplicate :
        (r : Added A)
        → has_key (header_prefix ++ key) head.list ≡ true
        → r.status ≡ failed
        → SameList r.head head
        → IsUsable r.head.pool
        → Adds s head key value (returns r)
    added :
        (r : Added A)
        → has_key (header_prefix ++ key) head.list ≡ false
        → r.status ≡ done
        → SameList r.head (link_header xxh64 head (make_header key value))
        → IsUsable r.head.pool
        → Adds s head key value (returns r)
    no_room : NoRoom s head key value → Adds s head key value crashes
    overrun : Overruns A s head.pool (requests key value) → Adds s head key value crashes

module _ (A : Allocator) (L : AllocatorLaws A) (xxh64 : Bytes → ℕ → ℕ) where
  open A use {State}

  link_new-Adds :
      (s : State) (head : HeaderHead) (key value : Bytes) (v : Grant A)
      → (v.region ≡ none → NoRoom A xxh64 s head key value)
      → IsUsable v.pool
      → Adds A xxh64 s head key value (link_new A xxh64 head (make_header key value) v)
  unfolding link_new make_header link_header
  link_new-Adds s head key value v missing u =
      elim (Bool-cases (has_key (header_prefix ++ key) head.list)) [
        | inl old ↦ rw (full_key-eq key, old) (duplicate _ old refl (refl, refl, refl) u)
        | inr new ↦ elim (Option-cases v.region) [
          | inl n ↦ rw (full_key-eq key, new, n) (no_room (missing n))
          | inr (p, n) ↦ rw (full_key-eq key, new, n) (added _ new refl (refl, refl, refl) u)
        ]
      ]

  fill_header-Adds :
      (s : State) (head : HeaderHead) (key value : Bytes) (dh : Grant A)
      → membuf_alloc A pool_fuel s head.pool sizeof_header ≡ returns dh
      → IsUsable dh.pool
      → length key + 13 < 2 ^ 62
      → length value + 1 < 2 ^ 62
      → Adds A xxh64 s head key value (fill_header A xxh64 head key value dh)
  unfolding fill_header membuf_copy membuf_strdup
  fill_header-Adds s head key value dh first u short_key short_value =
      let size = length key + sizeof_prefix + sizeof_prefix + 1 in
      let small : size < 2 ^ 62 = omega arith in
      let text = length value + 1 in
      let after = Overruns-more A s head.pool sizeof_header (size ∷ text ∷ []) dh first in
      elim (membuf_fill-total A L dh.heap dh.pool size u small) [
        | inl (e, past) ↦
            rw (e, ◌>>=◌)
              (overrun (after (Overruns-here A dh.heap dh.pool (size ∷ text ∷ []) past)))
        | inr (k, e, asked, ku) ↦ elim (Option-cases k.region) [
          | inl n ↦ rw (e, n, ◌>>=◌) (no_room (dh, first, inl (k, asked, n)))
          | inr (p, n) ↦ elim (membuf_fill-total A L k.heap k.pool text ku short_value) [
            | inl (e', past) ↦
                rw (e, n, e', ◌>>=◌)
                  (overrun (
                    after (
                      Overruns-more A dh.heap dh.pool size (text ∷ []) k asked
                        (Overruns-here A k.heap k.pool (text ∷ []) past))))
            | inr (v, e', asked', vu) ↦
                rw (e, n, e', ◌>>=◌)
                  (link_new-Adds s head key value v
                    (λ lost. (dh, first, inr (k, asked, (v, asked', lost)))) vu)
          ]
        ]
      ]

  -- With a lawful allocator, a pool fit to grow, and a name and a value of less than 2 ^ 62 bytes,
  -- the call fails for want of memory or because the key is there, and leaves the list and its
  -- keys; or it puts the header in front and computes the key of the new list; or it crashes where
  -- the pool has room for the header's struct and not for its name or its value, or where the
  -- requests for these have left a block past its end, behind which the next one is written. It
  -- never hangs.
  pub header_add-Adds :
      (s : State) (head : HeaderHead) (key value : Bytes)
      → IsUsable head.pool
      → length key + 13 < 2 ^ 62
      → length value + 1 < 2 ^ 62
      → Adds A xxh64 s head key value (header_add A xxh64 s head key value)
  unfolding header_add
  header_add-Adds s head key value u short_key short_value =
      elim (membuf_fill-total A L s head.pool sizeof_header u (omega arith)) [
        | inl (e, past) ↦
            rw (e, ◌>>=◌) (overrun (Overruns-here A s head.pool (requests key value) past))
        | inr (dh, e, asked, du) ↦ elim (Option-cases dh.region) [
          | inl n ↦ rw (e, n, ◌>>=◌) (exhausted _ (dh, asked, n) refl (refl, refl, refl) du)
          | inr (p, n) ↦
              rw (e, n, ◌>>=◌) (fill_header-Adds s head key value dh asked du short_key short_value)
        ]
      ]
