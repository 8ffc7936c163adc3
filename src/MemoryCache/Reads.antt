-- ===== src/MemoryCache/Reads.antt =====
-- What the queue of memory_cache_provider.c gives back of what was put in.
use deviceatlas_cloud_c.Prelude.{
  ◌+◌, ◌<◌, ◌≡◌, refl, Option, none, some, List, [], ◌∷◌, ◌++◌, ◌⊎◌, inl, inr, Option-cases,
  if◌then◌else◌, arith, Bytes, same_text, done, failed, returns, Ensures, Ensures-returns,
}
use deviceatlas_cloud_c.Mem.{Allocator}
use deviceatlas_cloud_c.Membuf.{Pool}
use deviceatlas_cloud_c.Cache.{CString, Left}
use deviceatlas_cloud_c.MemoryCache.{
  Entry, MemoryCache, Cfg, find_entry, insert_tail, hash_threshold, hand_out, memory_cache_get,
  put_in, memory_cache_set,
}

-- The first of two answers that is one.
abbrev pub or_else : Option Entry → Option Entry → Option Entry
or_else none b = b
or_else (some a) b = some a

-- The value of an entry, if there is one.
abbrev pub value_of : Option Entry → Option Bytes
value_of none = none
value_of (some e) = some e.value

pub find_entry-append :
    (key : Bytes) (es : List Entry) (e : Entry)
    → find_entry key (es ++ e ∷ [])
      ≡ or_else (find_entry key es) (if same_text key e.key then some e else none)
unfolding find_entry
find_entry-append key [] e = refl
find_entry-append key (x ∷ es) e = ground (arith, find_entry-append key es e)

module _ (A : Allocator) where
  open A use {State}

  -- A set that returns 0 has put its entry behind the others; one that returns -1 has put none.
  abbrev pub Sets : Cfg → MemoryCache → Bytes → Bytes → Left State Cfg → Type 0
  Sets cfg mc key value left =
      ((left.status ≡ done)
        × (left.cfg.cache_obj ≡ some (insert_tail mc (record { key = key; value = value }))))
      ⊎ ((left.status ≡ failed) × (left.cfg.cache_obj ≡ cfg.cache_obj))

  put_in-Sets :
      (s : State) (cfg : Cfg) (pool : Pool) (mc : MemoryCache) (key value : Bytes)
      → Ensures (Sets cfg mc key value) (put_in A s cfg pool mc key value)
  unfolding put_in
  put_in-Sets s cfg pool mc key value = ground arith

  pub memory_cache_set-Sets :
      (s : State) (cfg : Cfg) (mc : MemoryCache) (key value : Bytes)
      → cfg.cache_obj ≡ some mc
      → Ensures (Sets cfg mc key value) (memory_cache_set A s cfg key value)
  unfolding memory_cache_set
  memory_cache_set-Sets s cfg mc key value e = elim (Option-cases cfg.pool) [
    | inl p ↦ ground arith
    | inr (pool, p) ↦ ground (arith, put_in-Sets s cfg pool mc key value)
  ]

  -- In an open cache with less than 4095 entries put in, after a set that returned 0 a get hands
  -- out what it would have handed out before, and the new value only for the new entry's key where
  -- no older entry has it.
  pub get-set :
      (s t : State) (cfg : Cfg) (mc : MemoryCache) (key value other : Bytes) (old : Option CString)
      (left : Left State Cfg)
      → cfg.cache_obj ≡ some mc
      → mc.cnt + 1 < hash_threshold
      → memory_cache_set A s cfg key value ≡ returns left
      → left.status ≡ done
      → memory_cache_get A t left.cfg other (some old)
        ≡ returns (
            hand_out A t left.cfg (some old) (
              or_else
                (find_entry other mc.entries)
                (if same_text other key then some (record { key = key; value = value }) else none)))
  unfolding memory_cache_get insert_tail
  get-set s t cfg mc key value other old left e few ran ok =
      let entry : Entry = record { key = key; value = value } in
      let sets =
        Ensures-returns (Sets cfg mc key value) _ left ran
          (memory_cache_set-Sets s cfg mc key value e) in
      ground (arith, sets, find_entry-append other mc.entries entry)
