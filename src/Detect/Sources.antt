-- ===== src/Detect/Sources.antt =====
-- dacloud.c, what `cachesource` and the status of `da_cloud_detect` say of each other.
use deviceatlas_cloud_c.Prelude.{
  ◌≡◌, refl, ◌⊎◌, inl, inr, Option, none, some, List, [], Bool, true, false, length, Bytes, codes,
  Status, done, failed, Outcome, returns, Ensures, Ensures-bind, Bool-cases, ltb, ap, hangs,
  crashes, Option-cases, ◌*◌,
}
use deviceatlas_cloud_c.Mem.{Allocator}
use deviceatlas_cloud_c.Membuf.{membuf_create}
use deviceatlas_cloud_c.Header.{HeaderHead}
use deviceatlas_cloud_c.Property.{PropertyHead}
use deviceatlas_cloud_c.Cache.{CString, Got, CacheOps}
use deviceatlas_cloud_c.Server.{Server}
use deviceatlas_cloud_c.Detect.Request.{header_lines}
use deviceatlas_cloud_c.Detect.Answer.{list_properties}
use deviceatlas_cloud_c.Detect.{
  Services, Fetch, Detected, keep_list, load_answer, read_answer, use_cached, cacheval_of,
  after_fetch, ask_servers, detect, new_phead, fetch, opens_object, Fetched, answered, refused,
  unreachable,
}

-- The text in `cachesource`, if there is a head with a pool.
abbrev pub source : Option PropertyHead → Option Bytes
source none = none
source (some h) = some h.cachesource

-- The status is 0 with the source "cache" or "cloud", and -1 with the source "none" or no pool.
abbrev pub Sourced : Status → Option Bytes → Type 0
Sourced done o = (o ≡ some (codes "cache")) ⊎ (o ≡ some (codes "cloud"))
Sourced failed o = (o ≡ none) ⊎ (o ≡ some (codes "none"))

module _ (A : Allocator) (C : CacheOps A) (W : Services) where
  open A use {State}
  open C use {Cfg}
  open W use {Net}

  -- Reading an answer changes neither the status nor the source, and uses neither cache nor net.
  abbrev pub Settled : Status → Cfg → Net → Option Bytes → Detected A C W → Type 0
  Settled status cfg net o r =
      (r.status ≡ status) × (r.cfg ≡ cfg) × (r.net ≡ net) × (source r.phead ≡ o)

  load_answer-Settled :
      (status : Status) (cfg : Cfg) (net : Net) (s : State) (phead : PropertyHead)
      (cacheval : Option CString) (body : Option Bytes)
      → Ensures
          (Settled status cfg net (some phead.cachesource))
          (load_answer A C W status cfg net s phead cacheval body)
  unfolding load_answer
  load_answer-Settled status cfg net s phead cacheval body =
      let loaded = W.json_loads body in
      elim (Bool-cases (ltb 0 (length loaded.error_text))) [
        | inl bad ↦ rw (bad, load_answer) (refl, refl, refl, refl)
        | inr good ↦
            rw (good, load_answer)
              (Ensures-bind (Settled status cfg net (some phead.cachesource))
                (list_properties A s phead.pool phead.list loaded.properties)
                (keep_list A C W status cfg net phead cacheval) λ r. (refl, refl, refl, refl))
      ]

  pub read_answer-Settled :
      (status : Status) (cfg : Cfg) (net : Net) (s : State) (phead : PropertyHead)
      (cacheval : Option CString)
      → Ensures
          (Settled status cfg net (some phead.cachesource))
          (read_answer A C W status cfg net s phead cacheval)
  unfolding read_answer
  read_answer-Settled status cfg net s phead none =
      load_answer-Settled status cfg net s phead none none
  read_answer-Settled status cfg net s phead (some (p, body)) =
      elim (Bool-cases (opens_object body)) [
        | inl object ↦
            rw (object, read_answer)
              (load_answer-Settled status cfg net s phead (some (p, body)) (some body))
        | inr other ↦ rw (other, read_answer) (refl, refl, refl, refl)
      ]

  abbrev IsSourced : Detected A C W → Type 0
  IsSourced r = Sourced r.status (source r.phead)

  Settled-IsSourced :
      (status : Status) (cfg : Cfg) (net : Net) (o : Option Bytes) (m : Outcome (Detected A C W))
      → Sourced status o
      → Ensures (Settled status cfg net o) m
      → Ensures IsSourced m
  Settled-IsSourced status cfg net o (returns r) h (same, _, _, from) = rw (same, from) h
  Settled-IsSourced status cfg net o crashes h k = tt
  Settled-IsSourced status cfg net o hangs h k = tt

  after_fetch-Sourced :
      (phead : PropertyHead) (f : Fetch A C W) (o : Fetched)
      → f.result ≡ o
      → phead.cachesource ≡ codes "none"
      → Ensures IsSourced (after_fetch A C W phead f)
  unfolding after_fetch
  after_fetch-Sourced phead f (answered v) h e =
      let cloud = record phead { cachesource = codes "cloud" } in
      rw (h, after_fetch)
        (Settled-IsSourced done f.cfg f.net _ _ (inr refl)
          (read_answer-Settled done f.cfg f.net f.heap cloud (some v)))
  after_fetch-Sourced phead f refused h e = rw (h, after_fetch) (inr (ap some e))
  after_fetch-Sourced phead f unreachable h e =
      rw (h, after_fetch)
        (Settled-IsSourced failed f.cfg f.net _ _ (inr (ap some e))
          (read_answer-Settled failed f.cfg f.net f.heap phead none))

  ask_servers-Sourced :
      (cfg : Cfg) (net : Net) (s : State) (phead : PropertyHead) (head : HeaderHead)
      (licence_key : Bytes) (servers : List Server)
      → phead.cachesource ≡ codes "none"
      → Ensures IsSourced (ask_servers A C W cfg net s phead head licence_key servers)
  unfolding ask_servers
  ask_servers-Sourced cfg net s phead head licence_key servers e =
      elim (Bool-cases (W.easy_init net).0) [
        | inl handle ↦
            rw (handle, ask_servers)
              (Ensures-bind IsSourced
                (fetch A C W s cfg (W.easy_init net).1 head.cachekey licence_key
                  (header_lines head.list) servers)
                (after_fetch A C W phead) λ f. after_fetch-Sourced phead f f.result refl e)
        | inr no_handle ↦ rw (no_handle, ask_servers) (inr (ap some e))
      ]

  use_cached-Sourced :
      (net : Net) (phead : PropertyHead) (head : HeaderHead) (licence_key : Bytes)
      (servers : List Server) (g : Got State Cfg) (v : Option CString)
      → phead.cachesource ≡ codes "none"
      → Ensures IsSourced (use_cached A C W net phead head licence_key servers g v)
  unfolding use_cached
  use_cached-Sourced net phead head licence_key servers g none e =
      ask_servers-Sourced g.cfg net g.heap phead head licence_key servers e
  use_cached-Sourced net phead head licence_key servers g (some v) e =
      Settled-IsSourced done g.cfg net _ _ (inl refl) (
        read_answer-Settled done g.cfg net g.heap (record phead { cachesource = codes "cache" })
          (some v))

  -- A detection that returns has status 0 only with the source "cache" or "cloud", and status -1
  -- only with the source "none" or without a pool to keep properties in.
  pub detect-Sourced :
      (s : State) (cfg : Cfg) (net : Net) (head : HeaderHead) (licence_key : Bytes)
      (servers : List Server) (given : Bool)
      → Ensures
          (λ r. Sourced r.status (source r.phead))
          (detect A C W s cfg net head licence_key servers given)
  unfolding detect
  detect-Sourced s cfg net head licence_key servers false = inl refl
  detect-Sourced s cfg net head licence_key servers true =
      elim (Option-cases (membuf_create A s (1024 * 4)).0) [
        | inl no_pool ↦ rw (no_pool, detect) (inl refl)
        | inr (d, pool) ↦
            rw (pool, detect)
              (Ensures-bind IsSourced
                (C.get (membuf_create A s (1024 * 4)).1 cfg head.cachekey (some none))
                (λ g.
                  use_cached A C W net (new_phead (record { before = []; dcm = d })) head
                    licence_key servers g (cacheval_of A C W g))
                λ g. use_cached-Sourced net _ head licence_key servers g (cacheval_of A C W g) refl)
      ]
