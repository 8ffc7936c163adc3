-- ===== src/MemoryCache/Remembering.antt =====
-- memory_cache_provider.c as a provider that remembers.
use deviceatlas_cloud_c.Prelude.{
  ℕ, ◌+◌, ◌<◌, ◌≡◌, refl, none, some, inl, inr, arith, Bytes, same_text_refl, leb, returns, done,
  false, Ensures, Returns, subst, sym, ap, Ensures-returns, length,
}
use deviceatlas_cloud_c.Mem.{Allocator}
use deviceatlas_cloud_c.Cache.{Left}
use deviceatlas_cloud_c.Cache.Remembering.{Remembers}
use deviceatlas_cloud_c.MemoryCache.{
  Entry, MemoryCache, Cfg, find_entry, insert_tail, hash_threshold, hand_out, get_from,
  memory_cache, memory_cache_get, memory_cache_set,
}
use deviceatlas_cloud_c.MemoryCache.Reads.{Sets, find_entry-append, memory_cache_set-Sets}

-- An open cache without an entry for the key, and with less than 4095 entries put in.
pub record IsReady (cfg : Cfg) (key : Bytes) : Type 0 where
  pub mc : MemoryCache
  pub opened : cfg.cache_obj ≡ some mc
  pub few : mc.cnt + 1 < hash_threshold
  pub absent : find_entry key mc.entries ≡ none

-- The first entry for the key has the text, and the next get does not empty the cache.
pub record HasText (cfg : Cfg) (key text : Bytes) : Type 0 where
  pub mc : MemoryCache
  pub entry : Entry
  pub opened : cfg.cache_obj ≡ some mc
  pub few : mc.cnt < hash_threshold
  pub found : find_entry key mc.entries ≡ some entry
  pub same : entry.value ≡ text

module _ (A : Allocator) where
  pub memory_cache_get-IsReady :
      (s : A.State) (cfg : Cfg) (key : Bytes)
      → IsReady cfg key
      → Ensures
          (λ g. (g.value ≡ some none) × IsReady g.cfg key)
          (memory_cache_get A s cfg key (some none))
  unfolding memory_cache_get get_from hand_out
  memory_cache_get-IsReady s cfg key v =
      let below : leb hash_threshold v.mc.cnt ≡ false = ground (arith, v.few) in
      rw (memory_cache_get, v.opened, get_from, below, v.absent) (refl, v)

  pub memory_cache_get-HasText :
      (s : A.State) (cfg : Cfg) (key text : Bytes) (p : ℕ)
      → HasText cfg key text
      → (A.strdup s (length text)).0 ≡ some p
      → Returns
          (λ g. (g.value ≡ some (some (p, text))) × HasText g.cfg key text)
          (memory_cache_get A s cfg key (some none))
  unfolding memory_cache_get get_from hand_out
  memory_cache_get-HasText s cfg key text p v copied =
      let below : leb hash_threshold v.mc.cnt ≡ false = ground (arith, v.few) in
      let copied' = subst (λ t. (A.strdup s (length t)).0 ≡ some p) (sym v.same) copied in
      rw (memory_cache_get, v.opened, get_from, below, v.found, hand_out, copied')
        (ap (λ t. some (some (p, t))) v.same, v)

  pub memory_cache_set-HasText :
      (s : A.State) (cfg : Cfg) (key text : Bytes) (left : Left A.State Cfg)
      → IsReady cfg key
      → memory_cache_set A s cfg key text ≡ returns left
      → left.status ≡ done
      → HasText left.cfg key text
  unfolding insert_tail
  memory_cache_set-HasText s cfg key text left v ran ok =
      let entry : Entry = record { key = key; value = text } in
      elim (Ensures-returns (Sets A cfg v.mc key text) _ left ran
        (memory_cache_set-Sets A s cfg v.mc key text v.opened)) [
          | inl (_, put) ↦ record {
            mc = insert_tail v.mc entry;
            entry = entry;
            opened = put;
            few = omega (arith, v.few);
            found =
                rw (find_entry-append key v.mc.entries entry, v.absent, same_text_refl key) refl;
            same = refl;
          }
          | inr (lost, _) ↦ absurd (cc)
        ]

  abbrev pub memory_cache_remembers : (stale : ℕ) → Remembers A (memory_cache A stale)
  memory_cache_remembers stale = record {
    Ready = IsReady;
    Has = HasText;
    looks = λ s cfg key g v ran.
        Ensures-returns (λ r. (r.value ≡ some none) × IsReady r.cfg key) _ g ran
          (memory_cache_get-IsReady s cfg key v);
    takes = memory_cache_set-HasText;
    gives = memory_cache_get-HasText;
  }
