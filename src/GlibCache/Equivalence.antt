-- ===== src/GlibCache/Equivalence.antt =====
-- memory_cache_provider.c, the two versions of the memory cache side by side.
use mathlib.Core.List.{foldl}
use deviceatlas_cloud_c.Prelude.{
  ◌≡◌, refl, ap, ◌∙◌, Option, none, some, List, [], ◌∷◌, ◌++◌, Bool, true, false, Bool-cases, inl,
  inr, if◌then◌else◌, Bytes, same_text, same_text→eq,
}
use deviceatlas_cloud_c.MemoryCache.{Entry, MemoryCache, find_entry, insert_tail}
use deviceatlas_cloud_c.MemoryCache.Reads.{or_else, value_of, find_entry-append}
use deviceatlas_cloud_c.GlibCache.{HashTable, table_put}

-- What is relied on of GLib's table.
pub record KeepsEntries (H : HashTable) : Type 0 where
  pub lookup_insert :
      (t : H.Table) (key value other : Bytes)
      → H.contains t key ≡ false
      → H.lookup (H.insert t key value) other
        ≡ (if same_text other key then some value else H.lookup t other)
  pub contains_none : (t : H.Table) (key : Bytes) → H.contains t key ≡ false → H.lookup t key ≡ none
  pub contains_some :
      (t : H.Table) (key : Bytes)
      → H.contains t key ≡ true
      → (v : Bytes) × (H.lookup t key ≡ some v)

-- An entry behind one that has the key already is never found.
behind_old :
    (found : Option Entry) (same : Bool) (e : Entry) (l : Option Bytes)
    → value_of found ≡ l
    → (same ≡ true → (v : Bytes) × (l ≡ some v))
    → value_of (or_else found (if same then some e else none)) ≡ l
behind_old (some x) same e l eq there = eq
behind_old none true e l eq there = let (v, is_some) = there refl in absurd (cc)
behind_old none false e l eq there = eq

-- An entry of a new key is found under its key alone.
behind_new :
    (found : Option Entry) (same : Bool) (e : Entry) (l : Option Bytes)
    → value_of found ≡ l
    → (same ≡ true → l ≡ none)
    → value_of (or_else found (if same then some e else none)) ≡ (if same then some e.value else l)
behind_new (some x) true e l eq lost = let gone = lost refl in absurd (cc)
behind_new (some x) false e l eq lost = eq
behind_new none true e l eq lost = refl
behind_new none false e l eq lost = eq

module _ (H : HashTable) (K : KeepsEntries H) where
  -- The two hold the same value for every key.
  abbrev pub Agree : List Entry → H.Table → Type 0
  Agree es t = (key : Bytes) → value_of (find_entry key es) ≡ H.lookup t key

  abbrev put : H.Table → Entry → H.Table
  put t e = table_put H t e.key e.value

  put-Agree :
      (es : List Entry) (t : H.Table) (e : Entry) → Agree es t → Agree (es ++ e ∷ []) (put t e)
  unfolding table_put
  put-Agree es t e agree key =
      rw (find_entry-append key es e) (elim (Bool-cases (H.contains t e.key)) [
        | inl old ↦
            rw (old, table_put)
              (behind_old (find_entry key es) (same_text key e.key) e (H.lookup t key) (agree key)
                λ same.
                  let (v, there) = K.contains_some t e.key old in
                  (v, ap (H.lookup t) (same_text→eq key e.key same) ∙ there))
        | inr new ↦
            rw (new, table_put, K.lookup_insert t e.key e.value key new)
              (behind_new (find_entry key es) (same_text key e.key) e (H.lookup t key) (agree key)
                λ same. ap (H.lookup t) (same_text→eq key e.key same) ∙ K.contains_none t e.key new)
      ])

  -- A tail queue and a GLib table that hold the same value for every key still do after the same
  -- entries were inserted into both, repeated keys included: TAILQ_INSERT_TAIL with a search from
  -- the head keeps what g_hash_table_insert behind a test of g_hash_table_contains does. It is a
  -- statement on the two containers, without the locks and counts around them.
  pub puts-Agree :
      (entries : List Entry) (mc : MemoryCache) (t : H.Table)
      → Agree mc.entries t
      → Agree (foldl insert_tail mc entries).entries (foldl put t entries)
  unfolding insert_tail
  puts-Agree [] mc t agree = agree
  puts-Agree (e ∷ entries) mc t agree =
      puts-Agree entries (insert_tail mc e) (put t e) (put-Agree mc.entries t e agree)
