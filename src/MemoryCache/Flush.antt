-- ===== src/MemoryCache/Flush.antt =====
-- memory_cache_provider.c at its limit: the queue is emptied and its count is not reset.
use deviceatlas_cloud_c.Prelude.{
  ℕ, zero, suc, ◌+◌, ◌≤◌, ◌<◌, ◌^◌, ◌≡◌, refl, ◌∙◌, inl, inr, Option, none, some, List, [], ◌∷◌,
  arith, Bytes, failed, returns, Ensures-returns, Returns, Returns-returns, Returns-mono,
}
use deviceatlas_cloud_c.Mem.{Allocator}
use deviceatlas_cloud_c.Cache.{CString, Got, Left}
use deviceatlas_cloud_c.MemoryCache.{
  Entry, MemoryCache, Cfg, insert_tail, removeall, remove_each, hash_threshold, memory_cache_get,
  memory_cache_set,
}
use deviceatlas_cloud_c.MemoryCache.Reads.{Sets, memory_cache_set-Sets}

pub remove_each-nil : (es : List Entry) → remove_each es ≡ []
unfolding remove_each
remove_each-nil [] = refl
remove_each-nil (e ∷ es) = remove_each-nil es

module _ (A : Allocator) where
  open A use {State}

  -- A call of the provider that returns.
  pub data Step (cfg : Cfg) : Cfg → Type 0 where
    gets :
        (s : State) (key : Bytes) (old : Option (Option CString)) (g : Got State Cfg)
        → memory_cache_get A s cfg key old ≡ returns g
        → Step cfg g.cfg
    sets :
        (s : State) (key value : Bytes) (left : Left State Cfg)
        → memory_cache_set A s cfg key value ≡ returns left
        → Step cfg left.cfg

  -- Any such calls, one after another, at most as many as the number.
  pub data Steps (cfg : Cfg) : ℕ → Cfg → Type 0 where
    here : Steps cfg zero cfg
    next : {n : ℕ} {c d : Cfg} → Steps cfg n c → Step c d → Steps cfg (suc n) d

  -- The number of entries put in has reached the limit.
  abbrev pub IsFull : ℕ → Cfg → Type 0
  IsFull n cfg =
      (mc : MemoryCache) × (cfg.cache_obj ≡ some mc)
      × (hash_threshold ≤ mc.cnt)
      × (mc.cnt + n < 2 ^ 64)

  -- At the limit a get fails, hands nothing out, and keeps the count.
  abbrev Fails : MemoryCache → Option (Option CString) → Got State Cfg → Type 0
  Fails mc old g =
      (g.status ≡ failed)
      × (g.value ≡ old)
      × ((mc' : MemoryCache) × (g.cfg.cache_obj ≡ some mc') × (mc'.cnt ≡ mc.cnt))

  get_full-Fails :
      (s : State) (cfg : Cfg) (mc : MemoryCache) (key : Bytes) (old : Option (Option CString))
      → cfg.cache_obj ≡ some mc
      → hash_threshold ≤ mc.cnt
      → Returns (Fails mc old) (memory_cache_get A s cfg key old)
  unfolding memory_cache_get
  get_full-Fails s cfg mc key none e full = (refl, refl, (mc, e, refl))
  get_full-Fails s cfg mc key (some old) e full =
      let ran : memory_cache_get A s cfg key (some old)
          ≡ returns (record {
            status = failed;
            value = some old;
            cfg = record cfg { cache_obj = some (removeall mc) };
            heap = s;
          }) =
        ground arith in
      rw ran (refl, refl, (removeall mc, refl, refl))

  Step-IsFull : {c d : Cfg} (n : ℕ) → IsFull (suc n) c → Step c d → IsFull n d
  unfolding insert_tail
  Step-IsFull {c} n (mc, e, full, room) (gets s key old g ran) =
      let (_, _, (mc', e', same)) =
        Returns-returns (Fails mc old) _ g ran (get_full-Fails s c mc key old e full) in
      (mc', e', omega arith, omega arith)
  Step-IsFull {c} n (mc, e, full, room) (sets s key value left ran) =
      elim (Ensures-returns (Sets A c mc key value) _ left ran
        (memory_cache_set-Sets A s c mc key value e)) [
          | inl (_, e') ↦
              (insert_tail mc (record { key = key; value = value }), e', omega arith, omega arith)
          | inr (_, e') ↦ (mc, e' ∙ e, full, omega arith)
        ]

  Steps-IsFull : {c d : Cfg} {n : ℕ} (m : ℕ) → IsFull (n + m) c → Steps c n d → IsFull m d
  Steps-IsFull m (mc, e, full, room) here = (mc, e, full, omega arith)
  Steps-IsFull m (mc, e, full, room) (next {n = k} steps step) =
      Step-IsFull m (Steps-IsFull (suc m) (mc, e, full, omega arith) steps) step

  -- Where the count is 4096 or more, after any further calls of get and set, fewer than overflow
  -- the count, a get returns -1 and leaves `*value`.
  pub get-dead :
      (c d : Cfg) (n : ℕ) (mc : MemoryCache) (s : State) (key : Bytes)
      (old : Option (Option CString))
      → c.cache_obj ≡ some mc
      → hash_threshold ≤ mc.cnt
      → mc.cnt + n < 2 ^ 64
      → Steps c n d
      → Returns (λ g. (g.status ≡ failed) × (g.value ≡ old)) (memory_cache_get A s d key old)
  get-dead c d n mc s key old e full room steps =
      let (mc', e', full', _) = Steps-IsFull 0 (mc, e, full, omega arith) steps in
      Returns-mono (Fails mc' old) _ _ (λ g f. (f.0, f.1)) (get_full-Fails s d mc' key old e' full')
