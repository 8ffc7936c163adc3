-- ===== src/PyWrapper.antt =====
-- py3wrapper/dacloud.c, the Python module `dacloud`: an object that loads a configuration, detects
-- the properties of a dictionary of headers, and gives the identifier of its cache.
pub mod Loading
pub mod Detecting
pub mod Filling
pub mod References
use deviceatlas_cloud_c.Prelude.{
  ℕ, zero, suc, Option, none, some, List, [], ◌∷◌, Bool, true, false, not, if◌then◌else◌, ◌==◌,
  Bytes, codes, ℤ, pos, negsuc, Status, done, failed, Outcome, returns, crashes, ◌>>=◌,
}
use deviceatlas_cloud_c.Mem.{Allocator}
use deviceatlas_cloud_c.Property.{
  PropertyType, long_type, bool_type, string_type, unknown_type, Value, num, text, Property,
  PropertyHead, properties_free,
}
use deviceatlas_cloud_c.Header.{HeaderHead, Added, header_init, header_add, header_free}
use deviceatlas_cloud_c.Cache.{CString, Provider}
use deviceatlas_cloud_c.Server.{Server}
use deviceatlas_cloud_c.Ranking.{Probes}
use deviceatlas_cloud_c.Config.{Platform, Plugin}
use deviceatlas_cloud_c.Client.{Config, Inited, init, fini, ops_of, config_cache_id}
use deviceatlas_cloud_c.Detect.{Services, Detected, detect}

-- The objects that are made for a dictionary.
pub data PyValue : Type 0 where
  py_bool : Bool → PyValue
  py_int : ℤ → PyValue
  py_str : Bytes → PyValue

-- What is used of Python: dictionaries by text, and whether PyUnicode_FromString can read a text.
pub record Python : Type 1 where
  pub Dict : Type 0
  pub new_dict : Dict
  pub set_item : Dict → Bytes → PyValue → Dict
  pub get_item : Dict → Bytes → Option PyValue
  pub is_utf8 : Bytes → Bool

-- Py_DECREF; an object whose count is 0 has been freed.
unfoldable pub decref : ℕ → Outcome ℕ
decref zero = crashes
decref (suc n) = returns n

-- PyBool_FromLong
unfoldable pub is_nonzero : ℤ → Bool
is_nonzero (pos n) = not (n == 0)
is_nonzero (negsuc n) = true

module _ (Y : Python) where
  open Y use {Dict, set_item, is_utf8}

  -- PyUnicode_FromString; what it gives where it fails is a null pointer that is used at once.
  unfoldable pub from_string : Bytes → Outcome PyValue
  from_string t = if is_utf8 t then returns (py_str t) else crashes

  -- The switch on the type, which reads the member of the union that it stands for.
  unfoldable pub py_value : Property → Outcome PyValue
  unfolding is_nonzero from_string
  py_value p = elim p.value [
    | num n ↦ elim p.type [
      | long_type ↦ returns (py_int n)
      | bool_type ↦ returns (py_bool (is_nonzero n))
      | string_type ↦ crashes
      | unknown_type ↦ crashes
    ]
    | text t ↦ elim p.type [
      | long_type ↦ crashes
      | bool_type ↦ crashes
      | string_type ↦ from_string t
      | unknown_type ↦ from_string t
    ]
  ]

  -- The loop over the properties; each item is set in the switch and behind it.
  unfoldable pub fill_props : Dict → List Property → Outcome Dict
  unfolding py_value
  fill_props props [] = returns props
  fill_props props (p ∷ rest) = do
    v ← py_value p
    fill_props (set_item (set_item props p.name v) p.name v) rest

  -- The whole of what a detection leaves in the dictionary.
  unfoldable pub fill_dict : Dict → PropertyHead → HeaderHead → Outcome Dict
  unfolding fill_props from_string
  fill_dict props phead hhead = do
    filled ← fill_props props phead.list
    cs ← from_string phead.cachesource
    ck ← from_string hhead.cachekey
    returns (set_item (set_item filled (codes "__cachesource") cs) (codes "__cachekey") ck)

module _ (A : Allocator) (xxh64 : Bytes → ℕ → ℕ) where
  open A use {State}

  -- The loop over the headers: a key or a value that is no text is a null pointer and is left out,
  -- and the status of the call is not looked at.
  unfoldable pub add_headers :
      State → HeaderHead → List (Option Bytes × Option Bytes) → Outcome (HeaderHead × State)
  unfolding header_add
  add_headers s head [] = returns (head, s)
  add_headers s head ((none, hv) ∷ rest) = add_headers s head rest
  add_headers s head ((some hn, none) ∷ rest) = add_headers s head rest
  add_headers s head ((some hn, some hv) ∷ rest) = do
    added ← header_add A xxh64 s head hn hv
    add_headers added.heap added.head rest

module _ (A : Allocator) (plugins : Provider → Plugin A) (have_memcached : Bool) (P : Platform)
    (W : Probes) (qsort : (Server → Server → ℤ) → List Server → List Server) where
  open A use {State}

  -- DaCloudObject. `cfg` is what da_cloud_init has left in the struct, `none` while it is zeroed;
  -- `refs` counts the references to the text `cache_id`.
  pub record DaCloudObject : Type 0 where
    pub cfg : Option (Config A plugins have_memcached P W qsort)
    pub cache_id : Option Bytes
    pub refs : ℕ
    pub set : Bool

  -- What a call of the module returns and leaves: `none` is a null pointer, an exception.
  pub record PyResult (B : Type 0) : Type 0 where
    pub value : Option B
    pub object : DaCloudObject
    pub net : W.Net
    pub heap : State

  -- What the struct holds for the identifier's function before da_cloud_init.
  abbrev pub old_id : DaCloudObject → Option Provider
  old_id self = elim self.cfg [ none ↦ none | some config ↦ config.cops.id ]

  abbrev pub old_ranking : DaCloudObject → Bool
  old_ranking self = elim self.cfg [ none ↦ false | some config ↦ config.manual_ranking ]

  -- Behind da_cloud_init; `none` is the end of the process in errx.
  unfoldable pub keep_config :
      DaCloudObject
      → Option (Inited A plugins have_memcached P W qsort)
      → Outcome (Option (PyResult Bool))
  unfolding config_cache_id
  keep_config self none = returns none
  keep_config self (some r) = elim r.status [
    | failed ↦ returns (
        some (record {
          value = some false;
          object = record self { cfg = some r.config };
          net = r.net;
          heap = r.heap;
        }))
    | done ↦ do
      cache_id ← config_cache_id A plugins have_memcached P W qsort r.config
      returns (
          some (record {
            value = some true;
            object = record { cfg = some r.config; cache_id = some cache_id; refs = 1; set = true };
            net = r.net;
            heap = r.heap;
          }))
  ]

  -- `configpath` is `none` where the arguments are not one text.
  unfoldable pub load_config :
      State → W.Net → DaCloudObject → Option Bytes → Outcome (Option (PyResult Bool))
  unfolding keep_config
  load_config s net self none =
      returns (some (record { value = none; object = self; net = net; heap = s }))
  load_config s net self (some configpath) = elim self.set [
    | true ↦ returns (some (record { value = some true; object = self; net = net; heap = s }))
    | false ↦ do
      r ← init A plugins have_memcached P W qsort s net (old_id self) (old_ranking self) configpath
      keep_config self r
  ]

  -- The text that is returned, or null, and the object. The reference is the object's own one: there
  -- is no Py_INCREF, so its count stays.
  unfoldable pub get_cache_id : DaCloudObject → Option Bytes × DaCloudObject
  get_cache_id self = (elim self.set [ false ↦ none | true ↦ self.cache_id ], self)

  -- The counts of the module's exception and type, and the heap.
  pub record Dealloced : Type 0 where
    pub error_refs : ℕ
    pub type_refs : ℕ
    pub heap : State

  -- The object's part, where it was set.
  unfoldable pub dealloc_set : State → DaCloudObject → Outcome State
  unfolding decref
  dealloc_set s self = elim self.set [
    | false ↦ returns s
    | true ↦ do
      refs ← decref self.refs
      elim self.cfg [
        | none ↦ crashes
        | some config ↦ fini A plugins have_memcached P W qsort s config
      ]
  ]

  unfoldable pub dealloc : State → ℕ → ℕ → DaCloudObject → Outcome Dealloced
  unfolding dealloc_set decref
  dealloc s error_refs type_refs self = do
    s' ← dealloc_set s self
    error_refs' ← decref error_refs
    type_refs' ← decref type_refs
    returns (record { error_refs = error_refs'; type_refs = type_refs'; heap = s' })
