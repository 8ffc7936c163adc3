-- ===== src/MemoryCache/Refinement.antt =====
-- memory_cache_provider.c, the tail queue against what a cache promises: a map in which the first value
-- of a key stays, and which is emptied at every get once it has taken in HASH_THRESHOLD values.
use deviceatlas_cloud_c.Prelude.{
  ℕ, ◌+◌, ◌%◌, ◌^◌, ◌≤◌, ◌<◌, ◌≡◌, refl, ap, sym, ◌∙◌, subst, Option, none, some, List, [], ◌∷◌,
  Bool, true, false, Bool-cases, inl, inr, if◌then◌else◌, leb, length, arith, Bytes, same_text,
  Status, done, failed, returns, Ensures-returns, Returns, Returns-returns,
}
use deviceatlas_cloud_c.Mem.{Allocator, NeverFails}
use deviceatlas_cloud_c.Cache.{CString, Got, Left}
use deviceatlas_cloud_c.MemoryCache.{
  Entry, MemoryCache, Cfg, find_entry, insert_tail, removeall, hash_threshold, hand_out, get_from,
  memory_cache_get, memory_cache_set,
}
use deviceatlas_cloud_c.MemoryCache.Flush.{remove_each-nil}
use deviceatlas_cloud_c.MemoryCache.Reads.{
  or_else, value_of, find_entry-append, memory_cache_set-Sets,
}

-- What a caller sees of a call: the text that a get gave, or `none` for its -1, and whether a set
-- returned 0.
pub data Seen : Type 0 where
  got : Bytes → Option Bytes → Seen
  put : Status → Bytes → Bytes → Seen

-- The abstract cache: the value of each key, and the number of values that were taken in.
pub record View : Type 0 where
  pub value : Bytes → Option Bytes
  pub taken : ℕ

abbrev pub first_of : Option Bytes → Option Bytes → Option Bytes
first_of none b = b
first_of (some a) b = some a

abbrev pub with_value : View → Bytes → Bytes → View
with_value v key value = record {
  value = λ other. first_of (v.value other) (if same_text other key then some value else none);
  taken = (v.taken + 1) % 2 ^ 64;
}

abbrev pub emptied : View → View
emptied v = record { value = λ key. none; taken = v.taken }

-- What the abstract cache may do.
pub data May (v : View) : Seen → View → Type 0 where
  reads : (key : Bytes) → v.taken < hash_threshold → May v (got key (v.value key)) v
  flushes : (key : Bytes) → hash_threshold ≤ v.taken → May v (got key none) (emptied v)
  takes : (key value : Bytes) → May v (put done key value) (with_value v key value)
  refuses : (key value : Bytes) → May v (put failed key value) v

-- Any number of steps, with what is seen of them.
pub data Steps {ℓ} {S : Type ℓ} (Step : S → Seen → S → Type ℓ) (s : S)
    : List Seen → S → Type ℓ where
  stop : Steps Step s [] s
  step :
      {seen : List Seen} {e : Seen} {t u : S}
      → Steps Step s seen t
      → Step t e u
      → Steps Step s (e ∷ seen) u

value_of-or_else :
    (found : Option Entry) (same : Bool) (e : Entry)
    → value_of (or_else found (if same then some e else none))
      ≡ first_of (value_of found) (if same then some e.value else none)
value_of-or_else (some x) same e = refl
value_of-or_else none true e = refl
value_of-or_else none false e = refl

module _ (A : Allocator) (E : NeverFails A) where
  open A use {State}

  -- The text that a get handed out.
  abbrev pub text_of : Status → Option (Option CString) → Option Bytes
  text_of done (some (some (p, t))) = some t
  text_of _ _ = none

  -- A call of the provider that returns.
  pub data Call (cfg : Cfg) : Seen → Cfg → Type 0 where
    gets :
        {g : Got State Cfg} (h : State) (key : Bytes) (old : Option CString)
        → memory_cache_get A h cfg key (some old) ≡ returns g
        → Call cfg (got key (text_of g.status g.value)) g.cfg
    sets :
        {left : Left State Cfg} (h : State) (key value : Bytes)
        → memory_cache_set A h cfg key value ≡ returns left
        → Call cfg (put left.status key value) left.cfg

  -- The cache is open and holds what the abstract one holds.
  abbrev pub Shows : Cfg → View → Type 0
  Shows cfg v =
      (mc : MemoryCache) × (cfg.cache_obj ≡ some mc)
      × ((key : Bytes) → value_of (find_entry key mc.entries) ≡ v.value key)
      × (mc.cnt ≡ v.taken)

  -- A get, by what the abstract cache allows.
  abbrev Reads : View → Bytes → Got State Cfg → Type 0
  Reads v key g = (v' : View) × May v (got key (text_of g.status g.value)) v' × Shows g.cfg v'

  hand_out-text :
      (h : State) (cfg : Cfg) (old : Option CString) (found : Option Entry)
      → let g = hand_out A h cfg (some old) found in
        (text_of g.status g.value ≡ value_of found) × (g.cfg ≡ cfg)
  unfolding hand_out
  hand_out-text h cfg old none = (refl, refl)
  hand_out-text h cfg old (some e) =
      let (q, copied) = E.copies h (length e.value) in rw (hand_out, copied) (refl, refl)

  get-Reads :
      (h : State) (cfg : Cfg) (v : View) (key : Bytes) (old : Option CString)
      → Shows cfg v
      → Returns (Reads v key) (memory_cache_get A h cfg key (some old))
  unfolding memory_cache_get get_from removeall find_entry
  get-Reads h cfg v key old (mc, open_on, same, count) =
      elim (Bool-cases (leb hash_threshold mc.cnt)) [
        | inl full ↦
            rw (open_on, memory_cache_get, full, get_from)
              (
                emptied v,
                flushes key (ground arith),
                (
                  removeall mc,
                  refl,
                  (λ other. ap (λ es. value_of (find_entry other es)) (remove_each-nil mc.entries)),
                  count,
                ),
              )
        | inr room ↦
            let (text, kept) = hand_out-text h cfg old (find_entry key mc.entries) in
            rw (open_on, memory_cache_get, room, get_from)
              (
                v,
                subst (λ a. May v (got key a) v) (sym (text ∙ same key)) (reads key (ground arith)),
                (mc, ap (λ c. c.cache_obj) kept ∙ open_on, same, count),
              )
      ]

  -- A queue with one entry more shows the abstract cache with that value.
  insert_tail-Shows :
      (cfg : Cfg) (mc : MemoryCache) (v : View) (key value : Bytes)
      → cfg.cache_obj ≡ some (insert_tail mc (record { key = key; value = value }))
      → ((other : Bytes) → value_of (find_entry other mc.entries) ≡ v.value other)
      → mc.cnt ≡ v.taken
      → Shows cfg (with_value v key value)
  unfolding insert_tail
  insert_tail-Shows cfg mc v key value holds same count =
      let e : Entry = record { key = key; value = value } in
      (
        insert_tail mc e,
        holds,
        (λ other.
            ap value_of (find_entry-append other mc.entries e)
            ∙ value_of-or_else (find_entry other mc.entries) (same_text other key) e
            ∙ ap (λ o. first_of o (if same_text other key then some value else none)) (same other)),
        ap (λ n. (n + 1) % 2 ^ 64) count,
      )

  Call-Shows :
      (cfg cfg' : Cfg) (v : View) (e : Seen)
      → Shows cfg v
      → Call cfg e cfg'
      → (v' : View) × May v e v' × Shows cfg' v'
  Call-Shows cfg cfg' v e shows (gets {g} h key old ran) =
      Returns-returns (Reads v key) _ g ran (get-Reads h cfg v key old shows)
  Call-Shows cfg cfg' v e (mc, open_on, same, count) (sets {left} h key value ran) =
      elim (Ensures-returns _ _ left ran (memory_cache_set-Sets A h cfg mc key value open_on)) [
        | inl (ok, holds) ↦ (
          with_value v key value,
          subst (λ s. May v (put s key value) (with_value v key value)) (sym ok) (takes key value),
          insert_tail-Shows left.cfg mc v key value holds same count,
        )
        | inr (lost, kept) ↦ (
          v,
          subst (λ s. May v (put s key value) v) (sym lost) (refuses key value),
          (mc, kept ∙ open_on, same, count),
        )
      ]

  -- With an allocator that is never out of memory, whatever calls of memory_cache_get and
  -- memory_cache_set an open cache has gone through, what was seen of them is a run of an abstract
  -- map that the cache still shows: a get below HASH_THRESHOLD values gives the first value taken
  -- in for its key, or -1 where there is none; from then on each get empties the map and gives -1;
  -- a set that returns 0 takes in its value, and one that returns -1 changes nothing.
  pub Steps-Shows :
      (cfg cfg' : Cfg) (v : View) (seen : List Seen)
      → Shows cfg v
      → Steps Call cfg seen cfg'
      → (v' : View) × Steps May v seen v' × Shows cfg' v'
  Steps-Shows cfg cfg' v seen shows stop = (v, stop, shows)
  Steps-Shows cfg cfg'' v seen' shows (step {seen} {e} {t} before call) =
      let (v', allowed, shows') = Steps-Shows cfg t v seen shows before in
      let (v'', may, shows'') = Call-Shows t cfg'' v' e shows' call in
      (v'', step allowed may, shows'')
