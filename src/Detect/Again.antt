-- ===== src/Detect/Again.antt =====
-- dacloud.c, two detections one after the other: what `da_cloud_detect` gives the cache, and what it
-- reads there the next time.
use deviceatlas_cloud_c.Prelude.{
  ℕ, ◌*◌, ◌≡◌, refl, sym, inl, inr, none, some, List, [], true, Bool-cases, Option-cases, length,
  All, Bytes, codes, done, failed, returns, Ensures, Ensures-known, Ensures->>=, Ensures-returns,
  Ensures-mono, Lands, Lands-mono, Returns-cases, IfSome, subst,
}
use deviceatlas_cloud_c.Mem.{Allocator, AllocatorLaws}
use deviceatlas_cloud_c.Membuf.{Membuf, membuf_create}
use deviceatlas_cloud_c.Membuf.Growth.{IsUsable}
use deviceatlas_cloud_c.Header.{HeaderHead}
use deviceatlas_cloud_c.Cache.{Got, CacheOps}
use deviceatlas_cloud_c.Cache.Remembering.{Remembers}
use deviceatlas_cloud_c.Server.{Server}
use deviceatlas_cloud_c.Detect.Request.{header_lines}
use deviceatlas_cloud_c.Detect.Members.{IsShort}
use deviceatlas_cloud_c.Detect.Sources.{source, Settled, read_answer-Settled}
use deviceatlas_cloud_c.Detect.Cached.{
  Reads, ReadFrom, TooMuch, read_answer-Ensures, new_pool-IsUsable, detect_cached,
}
use deviceatlas_cloud_c.Detect.Storing.{Put, PutIfAnswered, fetch-Put}
use deviceatlas_cloud_c.Detect.{
  Services, Fetch, Fetched, answered, refused, unreachable, Detected, fetch, after_fetch,
  ask_servers, use_cached, detect, new_phead,
}

module _ (A : Allocator) (L : AllocatorLaws A) (C : CacheOps A) (W : Services) (R : Remembers A C)
    (short : (text : Bytes) → All IsShort (W.json_loads (some text)).properties) where
  open A use {State}
  open C use {Cfg}
  open W use {Net}

  -- The cache was given a text under the key, and the properties were read from it.
  pub record Stored (key : Bytes) (r : Detected A C W) : Type 0 where
    pub text : Bytes
    pub put : Put A C W R key text r.cfg
    pub read : IfSome (λ phead. Reads W text phead.list) r.phead

  abbrev StoredIfCloud : Bytes → Detected A C W → Type 0
  StoredIfCloud key r = source r.phead ≡ some (codes "cloud") → Stored key r

  not_cloud :
      (key : Bytes) (r : Detected A C W)
      → source r.phead ≡ some (codes "none")
      → StoredIfCloud key r
  not_cloud key r from cloud = absurd (cc)

  after_fetch-Stored :
      (key : Bytes) (d : Membuf) (f : Fetch A C W) (o : Fetched)
      → f.result ≡ o
      → IsUsable (record { before = []; dcm = d })
      → PutIfAnswered A C W R key f
      → Ensures
          (StoredIfCloud key)
          (after_fetch A C W (new_phead (record { before = []; dcm = d })) f)
  unfolding after_fetch
  after_fetch-Stored key d f (answered v) e u put =
      rw (after_fetch, e)
        (Ensures-mono (ReadFrom A L C W v.1 done f.cfg f.net (codes "cloud")) (StoredIfCloud key) _
          (λ r ((_, kept, _, _), read) cloud. record {
            text = v.1;
            put = subst (Put A C W R key v.1) (sym kept) (put v e);
            read = read;
          })
          (read_answer-Ensures A L C W done f.cfg f.net f.heap
            (record (new_phead (record { before = []; dcm = d })) { cachesource = codes "cloud" }) v
            u refl (short v.1)))
  after_fetch-Stored key d f refused e u put = rw (after_fetch, e) (λ cloud. absurd (cc))
  after_fetch-Stored key d f unreachable e u put =
      rw (after_fetch, e)
        (Ensures-mono (Settled A C W failed f.cfg f.net (some (codes "none"))) _ _
          (λ r settled. not_cloud key r settled.3)
          (read_answer-Settled A C W failed f.cfg f.net f.heap
            (new_phead (record { before = []; dcm = d })) none))

  use_cached-Stored :
      (net : Net) (d : Membuf) (head : HeaderHead) (licence_key : Bytes) (servers : List Server)
      (g : Got State Cfg)
      → IsUsable (record { before = []; dcm = d })
      → R.Ready g.cfg head.cachekey
      → Ensures (StoredIfCloud head.cachekey) (
          use_cached A C W net
            (new_phead (record { before = []; dcm = d }))
            head
            licence_key
            servers
            g
            none)
  unfolding use_cached ask_servers
  use_cached-Stored net d head licence_key servers g u ready =
      elim (Bool-cases (W.easy_init net).0) [
        | inl handle ↦
            rw (use_cached, handle, ask_servers)
              (Ensures->>=
                (fetch A C W g.heap g.cfg (W.easy_init net).1 head.cachekey licence_key
                  (header_lines head.list) servers)
                _ (PutIfAnswered A C W R head.cachekey) _
                (fetch-Put A C W R g.heap g.cfg (W.easy_init net).1 head.cachekey licence_key
                  (header_lines head.list) servers ready)
                λ f put. after_fetch-Stored head.cachekey d f f.result refl u put)
        | inr no_handle ↦ rw (use_cached, no_handle, ask_servers) (λ cloud. absurd (cc))
      ]

  detect-StoredIfCloud :
      (s : State) (cfg : Cfg) (net : Net) (head : HeaderHead) (licence_key : Bytes)
      (servers : List Server)
      → R.Ready cfg head.cachekey
      → Ensures (StoredIfCloud head.cachekey) (detect A C W s cfg net head licence_key servers true)
  unfolding detect
  detect-StoredIfCloud s cfg net head licence_key servers ready =
      elim (Option-cases (membuf_create A s (1024 * 4)).0) [
        | inl no_pool ↦ rw (detect, no_pool) (λ cloud. absurd (cc))
        | inr (d, pool) ↦
            rw (detect, pool)
              (Ensures-known _
                (C.get (membuf_create A s (1024 * 4)).1 cfg head.cachekey (some none)) _
                λ g ran.
                  let (miss, ready') = R.looks _ cfg head.cachekey g ready ran in
                  rw (miss) (
                    use_cached-Stored net d head licence_key servers g
                      (new_pool-IsUsable A L s d pool) ready'))
      ]

  -- With a lawful allocator, a cache that remembers and knows nothing yet under the head's cache
  -- key, and no answer with texts of 2 ^ 61 bytes or more, a detection that returned with the
  -- source "cloud" has given a text to the cache's set under that key, has left the cache as that
  -- call left it, and its list of properties was read from that same text.
  pub detect-Stored :
      (s : State) (cfg : Cfg) (net : Net) (head : HeaderHead) (licence_key : Bytes)
      (servers : List Server) (r : Detected A C W)
      → R.Ready cfg head.cachekey
      → detect A C W s cfg net head licence_key servers true ≡ returns r
      → source r.phead ≡ some (codes "cloud")
      → Stored head.cachekey r
  detect-Stored s cfg net head licence_key servers r ready ran =
      Ensures-returns (StoredIfCloud head.cachekey) _ r ran
        (detect-StoredIfCloud s cfg net head licence_key servers ready)

  -- The status 0 and the source "cache", no server asked, a list that is read from the text, and the
  -- text still in the cache.
  abbrev pub AnsweredFromCache : Bytes → Bytes → Net → Detected A C W → Type 0
  AnsweredFromCache key text net r =
      (r.status ≡ done)
      × (r.net ≡ net)
      × (source r.phead ≡ some (codes "cache"))
      × IfSome (λ phead. Reads W text phead.list) r.phead
      × R.Has r.cfg key text

  -- When the cache has given the text, some requests for its members leave a block of the pool past
  -- its end.
  abbrev pub OverrunsAfterGet : Cfg → Bytes → State → Membuf → Bytes → Type 0
  OverrunsAfterGet cfg key s d text =
      (g : Got State Cfg) × (C.get (membuf_create A s (1024 * 4)).1 cfg key (some none) ≡ returns g)
      × TooMuch A L C W g.heap (record { before = []; dcm = d }) text

  -- Over a lawful allocator, a cache that remembers and no answer with texts of 2 ^ 61 bytes or
  -- more, where a detection has given a text to the cache's set under its cache key and the set
  -- returned 0, a later detection for that cache key that gets memory for its pool and for the
  -- cache's copy returns 0 with the source "cache", asks no server whatever the servers are, reads
  -- its list of properties from the same text, and leaves the text in the cache; or it crashes
  -- where the first requests for the members of the text have left a block of its pool past its
  -- end.
  pub detect_again :
      (key : Bytes) (r : Detected A C W) (st : Stored key r) (s : State) (net : Net)
      (head : HeaderHead) (licence_key : Bytes) (servers : List Server) (d : Membuf) (q : ℕ)
      → st.put.left.status ≡ done
      → head.cachekey ≡ key
      → (membuf_create A s (1024 * 4)).0 ≡ some d
      → (A.strdup (membuf_create A s (1024 * 4)).1 (length st.text)).0 ≡ some q
      → Lands
          (AnsweredFromCache key st.text net)
          (OverrunsAfterGet r.cfg head.cachekey s d st.text)
          (detect A C W s r.cfg net head licence_key servers true)
  detect_again key r st s net head licence_key servers d q ok same pool copied =
      let put = st.put in
      let has = R.takes put.heap put.old key st.text put.left put.was_ready put.ran ok in
      let has' : R.Has r.cfg head.cachekey st.text =
        subst (λ k. R.Has r.cfg k st.text) (sym same)
          (subst (λ c. R.Has c key st.text) (sym put.now) has) in
      let (g, ran, (hit, kept)) =
        Returns-cases
          (λ g. (g.value ≡ some (some (q, st.text))) × R.Has g.cfg head.cachekey st.text) _
          (R.gives (membuf_create A s (1024 * 4)).1 r.cfg head.cachekey st.text q has' copied) in
      Lands-mono (ReadFrom A L C W st.text done g.cfg net (codes "cache"))
        (AnsweredFromCache key st.text net)
        (TooMuch A L C W g.heap (record { before = []; dcm = d }) st.text)
        (OverrunsAfterGet r.cfg head.cachekey s d st.text) _
        (λ r' (found, read). (
          found.0,
          found.2,
          found.3,
          read,
          subst (λ k. R.Has r'.cfg k st.text) same
              (subst (λ c. R.Has c head.cachekey st.text) (sym found.1) kept),
        ))
        (λ much. (g, ran, much))
        (detect_cached A L C W s r.cfg net head licence_key servers d g (q, st.text) pool ran hit
          (short st.text))
