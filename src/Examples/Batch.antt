-- ===== src/Examples/Batch.antt =====
-- examples/dacloud_batch.c: a detection for each line of the standard input.
pub mod Lines
pub mod Balance
pub mod Program
use deviceatlas_cloud_c.Prelude.{
  ℕ, Option, none, some, List, [], ◌∷◌, ◌++◌, Bool, true, false, ◌||◌, ◌&&◌, leb, ◌==◌,
  if◌then◌else◌, length, Bytes, codes, c_text, ℤ, pos, to_int, print_int, Status, done, failed,
  Outcome, returns, crashes, ◌>>=◌,
}
use deviceatlas_cloud_c.Mem.{Allocator}
use deviceatlas_cloud_c.Header.{
  Header, HeaderHead, header_init, header_free, useragent_add, print_header,
}
use deviceatlas_cloud_c.Property.{
  Property, PropertyHead, property_count, print_property, properties_free,
}
use deviceatlas_cloud_c.Cache.{CacheOps, Provider}
use deviceatlas_cloud_c.Server.{Server, servers_ranking}
use deviceatlas_cloud_c.Ranking.{Probes}
use deviceatlas_cloud_c.Config.{Platform, Plugin}
use deviceatlas_cloud_c.Client.{Config, Inited, init, fini}
use deviceatlas_cloud_c.Detect.{Services, Detected, detect}

-- isspace in the C locale
unfoldable pub is_space : ℕ → Bool
is_space c = c == 32 || leb 9 c && leb c 13

-- The loop over what stands in front: white space and quotes.
unfoldable pub skip_front : Bytes → Bytes
unfolding is_space
skip_front [] = []
skip_front (c ∷ p) = if is_space c || c == 34 then skip_front p else c ∷ p

-- strpbrk(p, "\"\r\n"), and the zero written there.
unfoldable pub cut_back : Bytes → Bytes
cut_back [] = []
cut_back (c ∷ p) = if c == 34 || c == 13 || c == 10 then [] else c ∷ cut_back p

-- What the array `buf` is read as.
unfoldable pub line_of : Bytes → Bytes
unfolding skip_front cut_back
line_of buf = cut_back (skip_front (c_text buf))

-- What the two streams hold.
pub record Streams : Type 0 where
  pub out : Bytes
  pub err : Bytes

unfoldable pub each_header : Bytes → List Header → Bytes
unfolding print_header
each_header err [] = err
each_header err (h ∷ rest) = elim (print_header (some err) h) [
  | none ↦ each_header err rest
  | some err' ↦ each_header err' rest
]

unfoldable pub print_headers : Streams → HeaderHead → Streams
unfolding each_header
print_headers st hhead = record {
  out = st.out ++ 10 ∷ codes "Headers used:" ++ 10 ∷ 10 ∷ [];
  err = each_header st.err hhead.list;
}

unfoldable pub each_property : Bytes → List Property → Bytes
unfolding print_property
each_property err [] = err
each_property err (p ∷ rest) = elim (print_property (some err) p) [
  | none ↦ each_property err rest
  | some err' ↦ each_property err' rest
]

abbrev pub count_of : Option ℕ → ℕ
count_of none = 0
count_of (some i) = i

unfoldable pub print_properties : Streams → PropertyHead → Streams
unfolding each_property property_count
print_properties st phead = record {
  out =
      st.out
      ++ codes "source : "
      ++ phead.cachesource
      ++ 10 ∷ codes "properties : "
      ++ print_int (to_int (pos (count_of (property_count phead (some 0)).1)))
      ++ 10 ∷ [];
  err = each_property st.err phead.list;
}

module _ (A : Allocator) (xxh64 : Bytes → ℕ → ℕ) (C : CacheOps A) (V : Services)
    (licence_key : Bytes) (servers : List Server) where
  open A use {State}
  open C use {Cfg}
  open V use {Net}

  -- What a round leaves.
  pub record Round : Type 0 where
    pub streams : Streams
    pub cfg : Cfg
    pub net : Net
    pub heap : State

  -- Behind da_cloud_detect. Where it made no pool, `phead` is not initialised and is read.
  unfoldable pub finish_round : Streams → HeaderHead → Detected A C V → Outcome Round
  unfolding print_headers print_properties properties_free header_free
  finish_round st hhead d = elim d.phead [
    | none ↦ crashes
    | some phead ↦ returns (record {
      streams = print_properties (print_headers st hhead) phead;
      cfg = d.cfg;
      net = d.net;
      heap = header_free A (properties_free A d.heap phead).0 hhead;
    })
  ]

  -- The body of the loop for a text that is not empty; the statuses are not looked at. Without a
  -- pool of the headers a null pointer is read through.
  unfoldable pub round : State → Cfg → Net → Streams → Bytes → Outcome Round
  unfolding header_init useragent_add detect finish_round
  round s cfg net st p =
      let (hhead, s') = header_init A s in
      elim hhead [
        | none ↦ crashes
        | some h ↦ do
          r ← useragent_add A xxh64 s' h p
          d ← detect A C V r.heap cfg net r.head licence_key servers true
          finish_round st r.head d
      ]

  -- The loop, over what the calls of fgets give one after the other.
  unfoldable pub rounds : State → Cfg → Net → Streams → List Bytes → Outcome Round
  unfolding line_of round
  rounds s cfg net st [] = returns (record { streams = st; cfg = cfg; net = net; heap = s })
  rounds s cfg net st (buf ∷ input) = elim (length (line_of buf) == 0) [
    | true ↦ returns (record { streams = st; cfg = cfg; net = net; heap = s })
    | false ↦ do r ← round s cfg net st (line_of buf); rounds r.heap r.cfg r.net r.streams input
  ]

abbrev pub yes_no : Bool → Bytes
yes_no true = codes "yes"
yes_no false = codes "no"

abbrev pub text_on : Option Bytes → Bytes
text_on none = []
text_on (some t) = t

-- What is printed before the loop; `print_time` is printf of a double with "%4.4f".
unfoldable pub print_settings : (ℤ → Bytes) → Bool → Bool → List Server → Streams
unfolding servers_ranking
print_settings print_time dservers manual_ranking servers = record {
  out =
      codes "default servers => "
      ++ yes_no dservers
      ++ 10 ∷ codes "manual ranking => "
      ++ yes_no manual_ranking
      ++ 10 ∷ [];
  err = text_on (servers_ranking print_time (some []) servers);
}

module _ (A : Allocator) (xxh64 : Bytes → ℕ → ℕ) (plugins : Provider → Plugin A)
    (have_memcached : Bool) (P : Platform) (W : Probes)
    (qsort : (Server → Server → ℤ) → List Server → List Server) (V : Services)
    (print_time : ℤ → Bytes) where
  open A use {State}

  -- Behind da_cloud_init with 0. A licence key that could not be copied is a null pointer that is
  -- printed.
  unfoldable pub run_rounds :
      State
      → V.Net
      → Config A plugins have_memcached P W qsort
      → List Bytes
      → Outcome (State × Streams)
  unfolding rounds print_settings fini
  run_rounds s net config input = elim config.licence_key [
    | none ↦ crashes
    | some (p, licence_key) ↦ do
      let head = config.shead
      let st = print_settings print_time head.dservers config.manual_ranking head.servers
      let C = (plugins config.provider).ops
      r ← rounds A xxh64 C V licence_key head.servers s config.cache_cfg net st input
      s' ← fini A plugins have_memcached P W qsort r.heap (record config { cache_cfg = r.cfg })
      returns (s', r.streams)
  ]

  -- main with a configuration file, on a struct that is zeroed; `none` is the end of the process in
  -- errx.
  unfoldable pub batch_main :
      State → W.Net → V.Net → Bytes → List Bytes → Outcome (Option (State × Streams))
  unfolding init run_rounds
  batch_main s net vnet configpath input = do
    i ← init A plugins have_memcached P W qsort s net none false configpath
    elim i [
      | none ↦ returns none
      | some r ↦ elim r.status [
        | failed ↦ returns (some (r.heap, record { out = []; err = [] }))
        | done ↦ do left ← run_rounds r.heap vnet r.config input; returns (some left)
      ]
    ]
