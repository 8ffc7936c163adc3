-- ===== src/Client/Identity.antt =====
-- dacloud.c, the cache that a client has after `da_cloud_init`, and what `da_cloud_cache_id` says.
use deviceatlas_cloud_c.Prelude.{
  ℕ, ◌≡◌, refl, ap, sym, ◌∙◌, subst, Option, none, some, List, [], Bool, true, false, Option-cases,
  inl, inr, Bytes, ℤ, same_text_nocase, arith, returns, crashes, Ensures, Status-cases,
  Ensures-mono, Ensures-bind, IfSome,
}
use deviceatlas_cloud_c.Mem.{Allocator}
use deviceatlas_cloud_c.Cache.{CString, Left, Provider, mock, Ops, all_of, cache_set, cache_id}
use deviceatlas_cloud_c.Cache.Choice.{cache_set_only}
use deviceatlas_cloud_c.Server.{Server}
use deviceatlas_cloud_c.Ranking.{Probes}
use deviceatlas_cloud_c.Config.{
  Settings, Platform, Plugin, stderr, cache_expiration, sizeof_server_head,
}
use deviceatlas_cloud_c.Client.{
  Config, Inited, rank_servers, finish_servers, init_servers, after_init, open_provider, init_cache,
  read_settings, init, config_cache_id, ops_of, dup_setting, mock_ops,
}

module _ (A : Allocator) (plugins : Provider → Plugin A) (have_memcached : Bool) (P : Platform)
    (W : Probes) (qsort : (Server → Server → ℤ) → List Server → List Server) where
  open A use {State}
  open W use {Net}

  abbrev Client : Type 0
  Client = Config A plugins have_memcached P W qsort

  abbrev Result : Type 0
  Result = Inited A plugins have_memcached P W qsort

  -- The functions and the provider that the setting of the cache's type asks for: those of the mock
  -- provider, without a new id, where it is missing.
  abbrev pub Serves : Option Provider → Option Bytes → Result → Type 0
  Serves old_id none r =
      (config_cache_id A plugins have_memcached P W qsort r.config
        ≡ elim old_id [ none ↦ crashes | some p ↦ returns (cache_id p) ])
      × (r.config.provider ≡ mock)
      × (r.config.cops ≡ mock_ops A plugins have_memcached P W qsort old_id)
  Serves old_id (some name) r =
      (config_cache_id A plugins have_memcached P W qsort r.config
        ≡ returns (cache_id r.config.provider))
      × (same_text_nocase name (cache_id r.config.provider) ≡ true)
      × (r.config.cops ≡ all_of r.config.provider)

  -- The functions and the provider of one configuration are those of another.
  abbrev Same : Client → Result → Type 0
  Same config r = (r.config.cops ≡ config.cops) × (r.config.provider ≡ config.provider)

  init_servers-Same :
      (conf : Settings) (config : Client) (net : Net) (s : State)
      → Ensures
          (IfSome (Same config))
          (init_servers A plugins have_memcached P W qsort conf config net s)
  unfolding init_servers finish_servers rank_servers
  init_servers-Same conf config net s = ground arith

  -- The same for a configuration that is known to have some functions and some provider.
  abbrev Has : Ops → Provider → Result → Type 0
  Has cops p r = (r.config.cops ≡ cops) × (r.config.provider ≡ p)

  after_init-Has :
      (conf : Settings) (config : Client) (net : Net) (cops : Ops) (p : Provider) (text : Option ℕ)
      (left : Left State (ops_of A plugins have_memcached P W qsort p).Cfg)
      → Ensures
          (IfSome (Has cops p))
          (after_init A plugins have_memcached P W qsort conf config net cops p text left)
  unfolding after_init
  after_init-Has conf config net cops p text left = elim (Status-cases left.status) [
    | inl failure ↦ rw (after_init, failure) (refl, refl)
    | inr success ↦ rw (after_init, success) (init_servers-Same conf _ net _)
  ]

  open_provider-Has :
      (conf : Settings) (config : Client) (net : Net) (s : State) (cops : Ops) (p : Provider)
      (text : Option CString)
      → Ensures
          (IfSome (Has cops p))
          (open_provider A plugins have_memcached P W qsort conf config net s cops (some p) text)
  unfolding open_provider
  open_provider-Has conf config net s cops p none =
      Ensures-bind (IfSome (Has cops p)) _
        (after_init A plugins have_memcached P W qsort conf config net cops p none)
        (after_init-Has conf config net cops p none)
  open_provider-Has conf config net s cops p (some (q, t)) =
      Ensures-bind (IfSome (Has cops p)) _
        (after_init A plugins have_memcached P W qsort conf config net cops p (some q))
        (after_init-Has conf config net cops p (some q))

  Has-Serves :
      (old_id : Option Provider) (name : Bytes) (cops : Ops) (p : Provider) (r : Result)
      → cops ≡ all_of p
      → same_text_nocase name (cache_id p) ≡ true
      → Has cops p r
      → Serves old_id (some name) r
  unfolding config_cache_id all_of
  Has-Serves old_id name cops p r all same (c, q) =
      let functions : r.config.cops ≡ all_of r.config.provider = c ∙ all ∙ ap all_of (sym q) in
      (
        rw (functions) refl,
        subst (λ p'. same_text_nocase name (cache_id p') ≡ true) (sym q) same,
        functions,
      )

  Same-Serves :
      (old_id : Option Provider) (config : Client) (r : Result)
      → config.cops ≡ mock_ops A plugins have_memcached P W qsort old_id
      → config.provider ≡ mock
      → Same config r
      → Serves old_id none r
  unfolding config_cache_id
  Same-Serves old_id config r c p (c', p') = (rw (c', c) refl, p' ∙ p, c' ∙ c)

  IfSome-mono :
      (Q R : Result → Type 0) (o : Option Result)
      → ((r : Result) → Q r → R r)
      → IfSome Q o
      → IfSome R o
  IfSome-mono Q R none f q = tt
  IfSome-mono Q R (some r) f q = f r q

  init_cache-Serves :
      (conf : Settings) (config : Client) (net : Net) (s : State) (old_id : Option Provider)
      → config.cops ≡ mock_ops A plugins have_memcached P W qsort old_id
      → config.provider ≡ mock
      → Ensures
          (IfSome (Serves old_id conf.cache_type))
          (init_cache A plugins have_memcached P W qsort conf config net s)
  unfolding init_cache all_of
  init_cache-Serves conf config net s old_id c q = elim (Option-cases conf.cache_type) [
    | inl no_type ↦
        rw (init_cache, no_type)
          (Ensures-mono (IfSome (Same config)) (IfSome (Serves old_id none)) _
            (λ o.
              IfSome-mono (Same config) (Serves old_id none) o
                (λ r. Same-Serves old_id config r c q))
            (init_servers-Same conf config net s))
    | inr (name, type) ↦ elim (Option-cases (cache_set have_memcached config.cops name)) [
      | inl unknown ↦ rw (init_cache, type, unknown) tt
      | inr (cops, known) ↦
          let (p, all, built, same) = cache_set_only have_memcached config.cops cops name known in
          rw (init_cache, type, known, all)
            (chosen p name same
              (dup_setting A plugins have_memcached P W qsort s conf.cache_config))
    ]
  ]
    where
      chosen :
          (p : Provider) (name : Bytes)
          → same_text_nocase name (cache_id p) ≡ true
          → (d : Option CString × State)
          → Ensures (IfSome (Serves old_id (some name))) (
              open_provider A plugins have_memcached P W qsort conf config net d.1
                (all_of p)
                (some p)
                d.0)
      chosen p name same d =
          Ensures-mono (IfSome (Has (all_of p) p)) (IfSome (Serves old_id (some name))) _
            (λ o.
              IfSome-mono (Has (all_of p) p) (Serves old_id (some name)) o
                (λ r. Has-Serves old_id name (all_of p) p r refl same))
            (open_provider-Has conf config net d.1 (all_of p) p d.0)

  read_settings-Serves :
      (conf : Settings) (config : Client) (net : Net) (s : State) (old_id : Option Provider)
      → config.cops ≡ mock_ops A plugins have_memcached P W qsort old_id
      → config.provider ≡ mock
      → Ensures
          (IfSome (Serves old_id conf.cache_type))
          (read_settings A plugins have_memcached P W qsort conf config net s)
  unfolding read_settings
  read_settings-Serves conf config net s old_id c q = elim (Option-cases conf.licence_key) [
    | inl no_key ↦ rw (read_settings, no_key) tt
    | inr (k, key) ↦ rw (read_settings, key) (init_cache-Serves conf _ net _ old_id c q)
  ]

  -- Where the configuration file can be read and da_cloud_init returns, with 0 or -1, a client
  -- whose file names a type of cache has all functions and the data of one provider, whose
  -- identifier is that type in some spelling of its letters, and da_cloud_cache_id gives it.
  -- Without a type the client has the mock provider, and da_cloud_cache_id gives what the caller's
  -- struct held before, or calls an unset pointer.
  pub init-cache_id :
      (s : State) (net : Net) (old_id : Option Provider) (old_ranking : Bool) (confpath : Bytes)
      (conf : Settings)
      → P.read_file confpath ≡ some conf
      → Ensures
          (IfSome (Serves old_id conf.cache_type))
          (init A plugins have_memcached P W qsort s net old_id old_ranking confpath)
  unfolding init
  init-cache_id s net old_id old_ranking confpath conf file =
      elim (Option-cases (A.alloc s sizeof_server_head).0) [
        | inl no_head ↦ rw (init, no_head) tt
        | inr (at, head) ↦
            rw (init, head, file) (read_settings-Serves conf (started at) net _ old_id refl refl)
      ]
    where
      started : ℕ → Client
      started p = record {
        shead = record { self = p; array = none; servers = []; dservers = false };
        efp = stderr;
        licence_key = none;
        manual_ranking = old_ranking;
        cops = mock_ops A plugins have_memcached P W qsort old_id;
        provider = mock;
        cache_cfg = (plugins mock).zeroed none cache_expiration;
      }
