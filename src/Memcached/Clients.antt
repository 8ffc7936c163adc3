-- ===== src/Memcached/Clients.antt =====
-- memcached_cache_provider.c, the clients that its calls take and give back, and what they answer.
use deviceatlas_cloud_c.Prelude.{
  ℕ, suc, ◌+◌, ◌≡◌, ◌∙◌, Option, none, some, true, false, Bool-cases, inl, inr, arith, Bytes,
  returns, Returns, Returns-returns, Returns-mono, subst,
}
use deviceatlas_cloud_c.Mem.{Allocator}
use deviceatlas_cloud_c.Cache.{CString, Got, Left}
use deviceatlas_cloud_c.Memcached.{
  Memcached, MemcachedCfg, memcached_read, memcached_write, memcached_cache_get,
  memcached_cache_set,
}

-- What is relied on: the clients of a pool are counted. A call of pop that succeeds takes one, and
-- one that fails gives a null pointer; push of a null pointer gives none back; and the calls of
-- libmemcached on a client change no count.
pub record CountsClients (M : Memcached) : Type 0 where
  pub free_clients : M.World → M.Clients → ℕ
  pub pop_some :
      (w : M.World) (p : M.Clients)
      → (M.pool_pop w p).1 ≡ true
      → (c : M.Client) × ((M.pool_pop w p).0 ≡ some c)
        × (suc (free_clients (M.pool_pop w p).2 p) ≡ free_clients w p)
  pub pop_none :
      (w : M.World) (p : M.Clients)
      → (M.pool_pop w p).1 ≡ false
      → ((M.pool_pop w p).0 ≡ none) × (free_clients (M.pool_pop w p).2 p ≡ free_clients w p)
  pub push_some :
      (w : M.World) (p : M.Clients) (c : M.Client)
      → free_clients (M.pool_push w p (some c)) p ≡ suc (free_clients w p)
  pub push_none :
      (w : M.World) (p : M.Clients) → free_clients (M.pool_push w p none) p ≡ free_clients w p
  pub get_keeps :
      (w : M.World) (p : M.Clients) (c : Option M.Client) (key : Bytes)
      → free_clients (M.get w c key).2 p ≡ free_clients w p
  pub set_keeps :
      (w : M.World) (p : M.Clients) (c : Option M.Client) (key value : Bytes) (expiry : ℕ)
      → free_clients (M.set w c key value expiry).1 p ≡ free_clients w p

module _ (A : Allocator) (M : Memcached) (K : CountsClients M) where
  open A use {State}

  get-clients :
      (h : State) (cfg : MemcachedCfg M) (pool : M.Clients) (key : Bytes) (old : Option CString)
      → cfg.cache_obj ≡ some pool
      → Returns
          (λ g.
            (g.cfg.cache_obj ≡ some pool)
            × (K.free_clients g.cfg.world pool ≡ K.free_clients cfg.world pool))
          (memcached_cache_get A M h cfg key (some old))
  unfolding memcached_cache_get memcached_read
  get-clients h cfg pool key old e = elim (Bool-cases (M.pool_pop cfg.world pool).1) [
    | inl popped ↦
        let (c, client, took) = K.pop_some cfg.world pool popped in
        let kept = K.get_keeps (M.pool_pop cfg.world pool).2 pool (some c) key in
        let back = K.push_some (M.get (M.pool_pop cfg.world pool).2 (some c) key).2 pool c in
        rw (e, memcached_cache_get, popped, memcached_read, client) (e, omega arith)
    | inr lost ↦
        let (null, same) = K.pop_none cfg.world pool lost in
        let back = K.push_none (M.pool_pop cfg.world pool).2 pool in
        rw (e, memcached_cache_get, lost, memcached_read, null) (e, back ∙ same)
  ]

  set-clients :
      (h : State) (cfg : MemcachedCfg M) (pool : M.Clients) (key value : Bytes)
      → cfg.cache_obj ≡ some pool
      → Returns
          (λ left.
            (left.cfg.cache_obj ≡ some pool)
            × (K.free_clients left.cfg.world pool ≡ K.free_clients cfg.world pool))
          (memcached_cache_set A M h cfg key value)
  unfolding memcached_cache_set memcached_write
  set-clients h cfg pool key value e = elim (Bool-cases (M.pool_pop cfg.world pool).1) [
    | inl popped ↦
        let w = (M.pool_pop cfg.world pool).2 in
        let expiry = M.time w + cfg.expiration in
        let (c, client, took) = K.pop_some cfg.world pool popped in
        let kept = K.set_keeps w pool (some c) key value expiry in
        let back = K.push_some (M.set w (some c) key value expiry).1 pool c in
        rw (e, memcached_cache_set, popped, memcached_write, client) (e, omega arith)
    | inr lost ↦
        let (null, same) = K.pop_none cfg.world pool lost in
        let back = K.push_none (M.pool_pop cfg.world pool).2 pool in
        rw (e, memcached_cache_set, lost, memcached_write, null) (e, back ∙ same)
  ]

  -- The configurations that any number of calls of get and set come to.
  pub data Calls (cfg : MemcachedCfg M) : MemcachedCfg M → Type 0 where
    start : Calls cfg cfg
    then_gets :
        {cfg' cfg'' : MemcachedCfg M} (h : State) (key : Bytes) (old : Option CString)
        (g : Got State (MemcachedCfg M))
        → Calls cfg cfg'
        → memcached_cache_get A M h cfg' key (some old) ≡ returns g
        → g.cfg ≡ cfg''
        → Calls cfg cfg''
    then_sets :
        {cfg' cfg'' : MemcachedCfg M} (h : State) (key value : Bytes)
        (left : Left State (MemcachedCfg M))
        → Calls cfg cfg'
        → memcached_cache_set A M h cfg' key value ≡ returns left
        → left.cfg ≡ cfg''
        → Calls cfg cfg''

  -- The pool, with as many free clients.
  abbrev pub Keeps : M.Clients → ℕ → MemcachedCfg M → Type 0
  Keeps pool n cfg = (cfg.cache_obj ≡ some pool) × (K.free_clients cfg.world pool ≡ n)

  get-Keeps :
      (h : State) (cfg : MemcachedCfg M) (pool : M.Clients) (n : ℕ) (key : Bytes)
      (old : Option CString)
      → Keeps pool n cfg
      → Returns (λ g. Keeps pool n g.cfg) (memcached_cache_get A M h cfg key (some old))
  get-Keeps h cfg pool n key old (e, same) =
      Returns-mono (λ g. Keeps pool (K.free_clients cfg.world pool) g.cfg) (λ g. Keeps pool n g.cfg)
        _ (λ g kept. (kept.0, kept.1 ∙ same)) (get-clients h cfg pool key old e)

  set-Keeps :
      (h : State) (cfg : MemcachedCfg M) (pool : M.Clients) (n : ℕ) (key value : Bytes)
      → Keeps pool n cfg
      → Returns (λ left. Keeps pool n left.cfg) (memcached_cache_set A M h cfg key value)
  set-Keeps h cfg pool n key value (e, same) =
      Returns-mono (λ left. Keeps pool (K.free_clients cfg.world pool) left.cfg)
        (λ left. Keeps pool n left.cfg) _ (λ left kept. (kept.0, kept.1 ∙ same))
        (set-clients h cfg pool key value e)

  Calls-Keeps :
      (cfg cfg' : MemcachedCfg M) (pool : M.Clients) (n : ℕ)
      → Keeps pool n cfg
      → Calls cfg cfg'
      → Keeps pool n cfg'
  Calls-Keeps cfg cfg' pool n k start = k
  Calls-Keeps cfg cfg'' pool n k (then_gets {cfg'} h key old g before ran same) =
      subst (Keeps pool n) same (
        Returns-returns (λ r. Keeps pool n r.cfg) _ g ran
          (get-Keeps h cfg' pool n key old (Calls-Keeps cfg cfg' pool n k before)))
  Calls-Keeps cfg cfg'' pool n k (then_sets {cfg'} h key value left before ran same) =
      subst (Keeps pool n) same (
        Returns-returns (λ r. Keeps pool n r.cfg) _ left ran
          (set-Keeps h cfg' pool n key value (Calls-Keeps cfg cfg' pool n k before)))

  -- After any number of calls of memcached_cache_get and memcached_cache_set on a pool, whether
  -- they succeed or not, the pool has as many free clients as before, and each further call
  -- returns and keeps that number.
  pub clients_kept :
      (cfg cfg' : MemcachedCfg M) (pool : M.Clients) (n : ℕ)
      → Keeps pool n cfg
      → Calls cfg cfg'
      → Keeps pool n cfg'
        × ((h : State) (key : Bytes) (old : Option CString)
            → Returns (λ g. Keeps pool n g.cfg) (memcached_cache_get A M h cfg' key (some old)))
        × ((h : State) (key value : Bytes)
            → Returns (λ left. Keeps pool n left.cfg) (memcached_cache_set A M h cfg' key value))
  clients_kept cfg cfg' pool n k calls =
      let k' = Calls-Keeps cfg cfg' pool n k calls in
      (
        k',
        λ h key old. get-Keeps h cfg' pool n key old k',
        λ h key value. set-Keeps h cfg' pool n key value k',
      )
