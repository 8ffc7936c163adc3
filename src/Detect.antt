-- ===== src/Detect.antt =====
-- dacloud.c, `da_cloud_detect`: the cache is asked, then the servers one after another, and the
-- answer is read into a list of properties. What is logged is left out.
pub mod Reader
pub mod ReaderBlocks
pub mod Request
pub mod Answer
pub mod Members
pub mod Sources
pub mod Typed
pub mod Cached
pub mod FetchBlocks
pub mod ListBlocks
pub mod Balance
pub mod Storing
pub mod Again
pub mod Fitting
pub mod Pieces
pub mod Failover
use deviceatlas_cloud_c.Prelude.{
  ℕ, ◌+◌, ◌*◌, Option, none, some, List, [], ◌∷◌, ◌++◌, Bool, true, false, ◌||◌, not, ltb, ◌==◌,
  if◌then◌else◌, length, Bytes, codes, c_text, ℤ, pos, Status, done, failed, Outcome, returns,
  crashes, ◌>>=◌,
}
use deviceatlas_cloud_c.Mem.{Allocator}
use deviceatlas_cloud_c.Membuf.{Pool, membuf_create}
use deviceatlas_cloud_c.Header.{HeaderHead}
use deviceatlas_cloud_c.Property.{Property, PropertyHead}
use deviceatlas_cloud_c.Cache.{CString, Got, Left, CacheOps}
use deviceatlas_cloud_c.Server.{Server}
use Reader.{Buffer, null, block, dangling, DataReader, Transferred, transfer, data_reader_free}
use Request.{detect_url, header_lines}
use Answer.{Loaded, Listed, list_properties}

-- What the function uses of libcurl and jansson. `easy_init` says whether there is a handle;
-- `perform` gives the pieces of the body that the server sends for a URL and header lines, and
-- whether the transfer ends well on its side; `json_loads` takes a text or a null pointer.
pub record Services : Type 1 where
  pub Net : Type 0
  pub easy_init : Net → Bool × Net
  pub perform : Net → Bytes → List Bytes → List Bytes × Bool × Net
  pub json_loads : Option Bytes → Loaded

-- Does the text begin with '{'?
unfoldable pub opens_object : Bytes → Bool
opens_object [] = false
opens_object (c ∷ cs) = c == b'{'

abbrev pub sizeof_reader : ℕ
sizeof_reader = 16

-- The properties' head before anything is known: `none` is the source, and the list is empty.
abbrev pub new_phead : Pool → PropertyHead
new_phead pool = record { cachesource = codes "none"; pool = pool; list = [] }

-- How the loop over the servers is left: with `cacheval`, by `goto end`, or at its end.
pub data Fetched : Type 0 where
  answered : CString → Fetched
  refused : Fetched
  unreachable : Fetched

module _ (A : Allocator) (C : CacheOps A) (W : Services) where
  open A use {State, alloc, strdup, free}
  open C use {Cfg}
  open W use {Net, easy_init, perform, json_loads}

  pub record Fetch : Type 0 where
    pub result : Fetched
    pub cfg : Cfg
    pub net : Net
    pub heap : State

  -- Behind the call of `set`: the copy for the caller, and the reader is freed either way.
  unfoldable pub keep_answer : Net → DataReader → Bytes → Left State Cfg → Outcome Fetch
  keep_answer net dr body left =
      let (q, s) = strdup left.heap (length body) in
      do
        s' ← data_reader_free A s dr
        returns (record {
          result = elim q [ none ↦ refused | some p ↦ answered (p, body) ];
          cfg = left.cfg;
          net = net;
          heap = s';
        })

  -- From `ret == CURLE_OK` on, for the body that was received.
  unfoldable pub accept : Cfg → Net → Bytes → Transferred State → Outcome Fetch
  unfolding keep_answer
  accept cfg net cachekey t = elim t.reader.buf [
    | null ↦ crashes
    | dangling ↦ crashes
    | block p bytes ↦ elim (opens_object bytes) [
      | false ↦ do
        s ← data_reader_free A t.heap t.reader
        returns (record { result = refused; cfg = cfg; net = net; heap = s })
      | true ↦ do
        left ← C.set t.heap cfg cachekey (c_text bytes)
        keep_answer net t.reader (c_text bytes) left
    ]
  ]

  -- The loop over the servers, for the cache key, the licence key and the header lines.
  unfoldable pub fetch :
      State → Cfg → Net → Bytes → Bytes → List Bytes → List Server → Outcome Fetch
  unfolding accept
  fetch s cfg net cachekey licence_key lines [] =
      returns (record { result = unreachable; cfg = cfg; net = net; heap = s })
  fetch s cfg net cachekey licence_key lines (srv ∷ servers) =
      let (p, s') = alloc s sizeof_reader in
      let (pieces, ends_well, net') = perform net (detect_url srv licence_key) lines in
      elim p [
        | none ↦ crashes
        | some d ↦ do
          t ← transfer A s' (record { self = d; buf = null; buflen = 0 }) pieces ends_well
          elim t.is_ok [
            | true ↦ accept cfg net' cachekey t
            | false ↦ do
              freed ← data_reader_free A t.heap t.reader
              fetch freed cfg net' cachekey licence_key lines servers
          ]
      ]

  -- What the call returns and leaves; `phead` is `none` where there is none, or none with a pool.
  pub record Detected : Type 0 where
    pub status : Status
    pub phead : Option PropertyHead
    pub cfg : Cfg
    pub net : Net
    pub heap : State

  -- From `fcache` on.
  unfoldable pub free_cacheval : State → Option CString → State
  free_cacheval s none = s
  free_cacheval s (some (p, body)) = free s p

  -- Behind the loop over the members. Where the list is left half way, `cacheval` is not freed.
  unfoldable pub keep_list :
      Status → Cfg → Net → PropertyHead → Option CString → Listed A → Outcome Detected
  unfolding free_cacheval
  keep_list status cfg net phead cacheval r = returns (record {
    status = status;
    phead = some (record phead { pool = r.pool; list = r.list });
    cfg = cfg;
    net = net;
    heap = elim r.complete [ true ↦ free_cacheval r.heap cacheval | false ↦ r.heap ];
  })

  -- json_loads, for a text or a null pointer, and what follows.
  unfoldable pub load_answer :
      Status → Cfg → Net → State → PropertyHead → Option CString → Option Bytes → Outcome Detected
  unfolding keep_list
  load_answer status cfg net s phead cacheval body =
      let loaded = json_loads body in
      elim (ltb 0 (length loaded.error_text)) [
        | true ↦ returns (record {
          status = status;
          phead = some phead;
          cfg = cfg;
          net = net;
          heap = free_cacheval s cacheval;
        })
        | false ↦ do
          r ← list_properties A s phead.pool phead.list loaded.properties
          keep_list status cfg net phead cacheval r
      ]

  -- From `jsoninit` on, with the status so far.
  unfoldable pub read_answer :
      Status → Cfg → Net → State → PropertyHead → Option CString → Outcome Detected
  unfolding load_answer
  read_answer status cfg net s phead none = load_answer status cfg net s phead none none
  read_answer status cfg net s phead (some (p, body)) = elim (opens_object body) [
    | true ↦ load_answer status cfg net s phead (some (p, body)) (some body)
    | false ↦ returns (record {
      status = status;
      phead = some phead;
      cfg = cfg;
      net = net;
      heap = free_cacheval s (some (p, body));
    })
  ]

  -- Where the servers were asked: what the loop came to decides the source and the status.
  unfoldable pub after_fetch : PropertyHead → Fetch → Outcome Detected
  unfolding read_answer
  after_fetch phead f = elim f.result [
    | answered v ↦
        read_answer done f.cfg f.net f.heap (record phead { cachesource = codes "cloud" }) (some v)
    | refused ↦
        returns
          (record { status = failed; phead = some phead; cfg = f.cfg; net = f.net; heap = f.heap })
    | unreachable ↦ read_answer failed f.cfg f.net f.heap phead none
  ]

  -- Where the cache had nothing: the handle, the header lines, and the servers.
  unfoldable pub ask_servers :
      Cfg → Net → State → PropertyHead → HeaderHead → Bytes → List Server → Outcome Detected
  unfolding fetch after_fetch
  ask_servers cfg net s phead head licence_key servers =
      let (handle, net') = easy_init net in
      elim handle [
        | false ↦
            returns
              (record { status = failed; phead = some phead; cfg = cfg; net = net'; heap = s })
        | true ↦ do
          f ← fetch s cfg net' head.cachekey licence_key (header_lines head.list) servers
          after_fetch phead f
      ]

  -- What the cache gave decides whether the servers are asked.
  unfoldable pub use_cached :
      Net
      → PropertyHead
      → HeaderHead
      → Bytes
      → List Server
      → Got State Cfg
      → Option CString
      → Outcome Detected
  unfolding ask_servers
  use_cached net phead head licence_key servers g none =
      ask_servers g.cfg net g.heap phead head licence_key servers
  use_cached net phead head licence_key servers g (some v) =
      read_answer done g.cfg net g.heap (record phead { cachesource = codes "cache" }) (some v)

  -- `cacheval`, which was null before the call of `get`.
  abbrev pub cacheval_of : Got State Cfg → Option CString
  cacheval_of g = elim g.value [ none ↦ none | some v ↦ v ]

  -- `given` says whether the caller gives a head.
  unfoldable pub detect :
      State → Cfg → Net → HeaderHead → Bytes → List Server → Bool → Outcome Detected
  unfolding use_cached
  detect s cfg net head licence_key servers false =
      returns (record { status = failed; phead = none; cfg = cfg; net = net; heap = s })
  detect s cfg net head licence_key servers true =
      let (dcm, s') = membuf_create A s (1024 * 4) in
      elim dcm [
        | none ↦ returns (record { status = failed; phead = none; cfg = cfg; net = net; heap = s' })
        | some d ↦ do
          let phead = new_phead (record { before = []; dcm = d })
          g ← C.get s' cfg head.cachekey (some none)
          use_cached net phead head licence_key servers g (cacheval_of g)
      ]
