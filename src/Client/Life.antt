-- ===== src/Client/Life.antt =====
-- dacloud.c, the blocks of a client from da_cloud_init to da_cloud_fini.
use mathlib.Core.List.Perm
use mathlib.Core.List.{perm_middle}
use deviceatlas_cloud_c.Prelude.{
  ℕ, ◌≡◌, refl, sym, subst, Option, none, some, List, [], ◌∷◌, ◌++◌, Perm, Bool, true, false, inl,
  inr, Bool-cases, Option-cases, Status-cases, if◌then◌else◌, length, Bytes, ℤ, done, returns,
  Ensures, Ensures->>=, Ensures-known, IfSome,
}
use deviceatlas_cloud_c.Mem.{Allocator, AllocatorLaws}
use deviceatlas_cloud_c.Mem.Moving.{CopyLaws, RefusalLaws}
use deviceatlas_cloud_c.Cache.{CString, Left, Provider, mock, Ops, cache_set}
use deviceatlas_cloud_c.Cache.Blocks.{text_blocks, KeepsBlocks}
use deviceatlas_cloud_c.Server.{Server, ServerHead}
use deviceatlas_cloud_c.Ranking.{Probes, servers_fireup}
use deviceatlas_cloud_c.Config.{
  LoadedServers, Platform, Plugin, Settings, cache_expiration, free_pointer, load_servers,
  sizeof_server_head, stderr, use_defaults,
}
use deviceatlas_cloud_c.Client.Balance.{
  blocks_of, Owns, Holds, Given, load_servers-Owns, use_defaults-Given,
}
use deviceatlas_cloud_c.Client.Ranked.{servers_fireup-blocks}
use deviceatlas_cloud_c.Client.{
  Config, Inited, rank_servers, finish_servers, elements_of, init_servers, after_init,
  open_provider, dup_setting, init_cache, read_settings, init, mock_ops,
}

-- The blocks of a provider: its init takes some, its fini gives all back, and where it was not
-- opened it has none.
pub record PluginBlocks (A : Allocator) (L : AllocatorLaws A) (G : Plugin A) : Type 1 where
  pub keeps : KeepsBlocks A L G.ops
  pub closed : keeps.owned (G.zeroed none cache_expiration) ≡ []
  pub opens :
      (s : A.State) (text : Option Bytes) (left : Left A.State G.ops.Cfg) (rest : List ℕ)
      → Perm (L.live s) rest
      → G.ops.init s (G.zeroed text cache_expiration) ≡ returns left
      → left.status ≡ done
      → Perm (L.live left.heap) (keeps.owned left.cfg ++ rest)
  pub closes :
      (s : A.State) (cfg : G.ops.Cfg) (left : Left A.State G.ops.Cfg) (rest : List ℕ)
      → Perm (L.live s) (keeps.owned cfg ++ rest)
      → G.ops.fini s cfg ≡ returns left
      → Perm (L.live left.heap) rest

abbrev one_block : Option ℕ → List ℕ
one_block none = []
one_block (some p) = p ∷ []

module _ (A : Allocator) (plugins : Provider → Plugin A) (have_memcached : Bool) (P : Platform)
    (W : Probes) (qsort : (Server → Server → ℤ) → List Server → List Server) (L : AllocatorLaws A)
    (K : CopyLaws A L) (X : RefusalLaws A L) (B : (p : Provider) → PluginBlocks A L (plugins p))
    (sorts : (cmp : Server → Server → ℤ) (xs : List Server) → Perm (qsort cmp xs) xs) where
  open A use {State}
  open L use {live}

  abbrev pub Client : Type 0
  Client = Config A plugins have_memcached P W qsort

  abbrev pub Result : Type 0
  Result = Option (Inited A plugins have_memcached P W qsort)

  -- The blocks of the provider, of the licence key, and those there were before.
  abbrev pub behind : List ℕ → Client → List ℕ
  behind before config =
      (B config.provider).keeps.owned config.cache_cfg ++ (text_blocks config.licence_key ++ before)

  -- The blocks of a client that was opened, and those there were before, are live.
  abbrev pub Kept : List ℕ → State → Client → Type 0
  Kept before s config =
      Given A L K config.shead.self (config.shead.self ∷ behind before config) (config.shead, s)

  abbrev pub Good : List ℕ → Result → Type 0
  Good before = IfSome (λ r. r.status ≡ done → Kept before r.heap r.config)

  reordered :
      (d : Bool) (now old : List Server) (rest : List ℕ)
      → Perm (blocks_of now) (blocks_of old)
      → Perm ((if d then [] else blocks_of old) ++ rest) ((if d then [] else blocks_of now) ++ rest)
  reordered true now old rest h = Perm.rfl
  reordered false now old rest h = Perm.append_right rest (Perm.symm h)

  rank_servers-Kept :
      (config : Client) (net : W.Net) (h : ServerHead × State) (before : List ℕ)
      → Given A L K h.0.self (h.0.self ∷ behind before config) h
      → Ensures (Good before) (rank_servers A plugins have_memcached P W qsort config net h)
  unfolding rank_servers
  rank_servers-Kept config net (head, s) before (mine, t, array, held) = λ ok.
      let r = servers_fireup W qsort net config.manual_ranking head.servers in
      (
        refl,
        t,
        array,
        Perm.trans held (
            Perm.cons t (
              reordered head.dservers r.servers head.servers _
                (servers_fireup-blocks W qsort net config.manual_ranking head.servers sorts))),
      )

  -- The head of servers as it is made, and the blocks before it is filled.
  pub record Started (before : List ℕ) (s : State) (config : Client) : Type 0 where
    pub fresh :
        config.shead
        ≡ record { self = config.shead.self; array = none; servers = []; dservers = false }
    pub held : Perm (live s) (config.shead.self ∷ behind before config)

  finish_servers-Kept :
      (config : Client) (net : W.Net) (r : LoadedServers A) (before : List ℕ)
      → (r.complete ≡ true
          → (r.head.self ≡ config.shead.self)
            × Owns A L K r.head (config.shead.self ∷ behind before config) r.heap)
      → Ensures (Good before) (finish_servers A plugins have_memcached P W qsort config net r)
  unfolding finish_servers
  finish_servers-Kept config net r before h = elim (Bool-cases r.complete) [
    | inl whole ↦
        let (mine, (loaded, held)) = h whole in
        rw (finish_servers, whole)
          (Ensures->>= (use_defaults A r.heap r.head) _
            (Given A L K r.head.self (r.head.self ∷ behind before config)) _
            (use_defaults-Given A L K r.head r.heap r.head.self (r.head.self ∷ behind before config)
              r.head.array r.head.servers refl loaded refl refl
              (subst
                (λ k. Holds A L K r.head.array r.head.servers (k ∷ behind before config) r.heap)
                (sym mine) held))
            λ g given.
              rank_servers-Kept config net g before
                (subst (λ k. Given A L K k (k ∷ behind before config) g) (sym given.0) given))
    | inr short ↦ rw (finish_servers, short) (λ bad. absurd (cc))
  ]

  init_servers-Kept :
      (conf : Settings) (config : Client) (net : W.Net) (s : State) (before : List ℕ)
      → Started before s config
      → Ensures (Good before) (init_servers A plugins have_memcached P W qsort conf config net s)
  unfolding init_servers
  init_servers-Kept conf config net s before v =
      let rest = config.shead.self ∷ behind before config in
      Ensures->>=
        (load_servers A s config.shead
          (elements_of A plugins have_memcached P W qsort conf.servers))
        _
        (λ r. r.complete ≡ true → (r.head.self ≡ config.shead.self) × Owns A L K r.head rest r.heap)
        _
        (load_servers-Owns A L K (elements_of A plugins have_memcached P W qsort conf.servers) s
          config.shead rest (subst (λ h. Owns A L K h rest s) (sym v.fresh) (refl, (refl, v.held))))
        λ r h. finish_servers-Kept config net r before h

  -- The text is freed, and the head of servers is put in front of the provider's blocks.
  freed_text :
      (text : Option ℕ) (s : State) (owned : List ℕ) (self : ℕ) (rest : List ℕ)
      → Perm (live s) (owned ++ (one_block text ++ (self ∷ rest)))
      → Perm (live (free_pointer A s text)) (self ∷ (owned ++ rest))
  freed_text none s owned self rest h = Perm.trans h (perm_middle owned rest)
  freed_text (some q) s owned self rest h =
      Perm.trans (L.free_live s q _ (Perm.trans h (perm_middle owned (self ∷ rest))))
        (perm_middle owned rest)

  after_init-Kept :
      (conf : Settings) (config : Client) (net : W.Net) (cops : Ops) (p : Provider)
      (text : Option ℕ) (left : Left State (plugins p).ops.Cfg) (before : List ℕ)
      → config.shead
        ≡ record { self = config.shead.self; array = none; servers = []; dservers = false }
      → (left.status ≡ done
          → Perm (live left.heap) (
              (B p).keeps.owned left.cfg
              ++ (one_block text
                  ++ (config.shead.self ∷ (text_blocks config.licence_key ++ before)))))
      → Ensures
          (Good before)
          (after_init A plugins have_memcached P W qsort conf config net cops p text left)
  unfolding after_init
  after_init-Kept conf config net cops p text left before fresh opened =
      elim (Status-cases left.status) [
        | inl bad ↦ rw (after_init, bad) (λ ok. absurd (cc))
        | inr ok ↦
            rw (after_init, ok)
              (init_servers-Kept conf _ net _ before (record {
                fresh = fresh;
                held =
                    freed_text text left.heap ((B p).keeps.owned left.cfg) config.shead.self
                      (text_blocks config.licence_key ++ before) (opened ok);
              }))
      ]

  open_provider-Kept :
      (conf : Settings) (config : Client) (net : W.Net) (s : State) (cops : Ops)
      (p : Option Provider) (text : Option CString) (before : List ℕ)
      → config.shead
        ≡ record { self = config.shead.self; array = none; servers = []; dservers = false }
      → Perm
          (live s)
          (text_blocks text ++ (config.shead.self ∷ (text_blocks config.licence_key ++ before)))
      → Ensures
          (Good before)
          (open_provider A plugins have_memcached P W qsort conf config net s cops p text)
  unfolding open_provider
  open_provider-Kept conf config net s cops none text before fresh h = tt
  open_provider-Kept conf config net s cops (some p) none before fresh h =
      Ensures-known _ ((plugins p).ops.init s ((plugins p).zeroed none cache_expiration)) _
        λ left ran.
          after_init-Kept conf config net cops p none left before fresh
            (λ ok. (B p).opens s none left _ h ran ok)
  open_provider-Kept conf config net s cops (some p) (some (q, t)) before fresh h =
      Ensures-known _ ((plugins p).ops.init s ((plugins p).zeroed (some t) cache_expiration)) _
        λ left ran.
          after_init-Kept conf config net cops p (some q) left before fresh
            (λ ok. (B p).opens s (some t) left _ h ran ok)

  -- A copy is one block more, or none where there is nothing to copy or no memory.
  dup_setting-live :
      (s : State) (setting : Option Bytes) (rest : List ℕ)
      → Perm (live s) rest
      → let r = dup_setting A plugins have_memcached P W qsort s setting in
        Perm (live r.1) (text_blocks r.0 ++ rest)
  unfolding dup_setting
  dup_setting-live s none rest h = h
  dup_setting-live s (some t) rest h = elim (Option-cases (A.strdup s (length t)).0) [
    | inl lost ↦ rw (dup_setting, lost) (rw (X.uncopied s (length t) lost) h)
    | inr (q, copied) ↦
        rw (dup_setting, copied) (Perm.trans (K.copies s (length t) q copied) (Perm.cons q h))
  ]

  init_cache-Kept :
      (conf : Settings) (config : Client) (net : W.Net) (s : State) (before : List ℕ)
      → config.shead
        ≡ record { self = config.shead.self; array = none; servers = []; dservers = false }
      → (B config.provider).keeps.owned config.cache_cfg ≡ []
      → Perm (live s) (config.shead.self ∷ (text_blocks config.licence_key ++ before))
      → Ensures (Good before) (init_cache A plugins have_memcached P W qsort conf config net s)
  unfolding init_cache
  init_cache-Kept conf config net s before fresh nothing h = elim (Option-cases conf.cache_type) [
    | inl no_type ↦
        rw (init_cache, no_type)
          (init_servers-Kept conf config net s before (record {
            fresh = fresh;
            held =
                subst
                  (λ o.
                    Perm (live s)
                      (config.shead.self ∷ (o ++ (text_blocks config.licence_key ++ before))))
                  (sym nothing) h;
          }))
    | inr (name, named) ↦ elim (Option-cases (cache_set have_memcached config.cops name)) [
      | inl unknown ↦ rw (init_cache, named, unknown) tt
      | inr (cops, chosen) ↦
          let r = dup_setting A plugins have_memcached P W qsort s conf.cache_config in
          rw (init_cache, named, chosen)
            (open_provider-Kept conf config net r.1 cops cops.init r.0 before fresh
              (dup_setting-live s conf.cache_config _ h))
    ]
  ]

  read_settings-Kept :
      (conf : Settings) (config : Client) (net : W.Net) (s : State) (before : List ℕ)
      → config.shead
        ≡ record { self = config.shead.self; array = none; servers = []; dservers = false }
      → (B config.provider).keeps.owned config.cache_cfg ≡ []
      → Perm (live s) (config.shead.self ∷ before)
      → Ensures (Good before) (read_settings A plugins have_memcached P W qsort conf config net s)
  unfolding read_settings
  read_settings-Kept conf config net s before fresh nothing h =
      elim (Option-cases conf.licence_key) [
        | inl missing ↦ rw (read_settings, missing) tt
        | inr (key, found) ↦
            let r = dup_setting A plugins have_memcached P W qsort s (some key) in
            rw (read_settings, found)
              (init_cache-Kept conf _ net r.1 before fresh nothing (
                Perm.trans (dup_setting-live s (some key) _ h)
                  (perm_middle (text_blocks r.0) before)))
      ]

  pub init-Kept :
      (s : State) (net : W.Net) (old_id : Option Provider) (old_ranking : Bool) (confpath : Bytes)
      → Ensures
          (Good (live s))
          (init A plugins have_memcached P W qsort s net old_id old_ranking confpath)
  unfolding init
  init-Kept s net old_id old_ranking confpath =
      elim (Option-cases (A.alloc s sizeof_server_head).0) [
        | inl lost ↦ rw (init, lost) tt
        | inr (p, got) ↦ elim (Option-cases (P.read_file confpath)) [
          | inl unread ↦ rw (init, got, unread) (λ bad. absurd (cc))
          | inr (conf, read) ↦
              rw (init, got, read)
                (read_settings-Kept conf
                  (record {
                    shead = record { self = p; array = none; servers = []; dservers = false };
                    efp = stderr;
                    licence_key = none;
                    manual_ranking = old_ranking;
                    cops = mock_ops A plugins have_memcached P W qsort old_id;
                    provider = mock;
                    cache_cfg = (plugins mock).zeroed none cache_expiration;
                  })
                  net _ (live s) refl (B mock).closed (L.alloc_some s sizeof_server_head p got).0)
        ]
      ]
