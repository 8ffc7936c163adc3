-- ===== src/PyWrapper/Detecting.antt =====
-- py3wrapper/dacloud.c, the detection of the properties of a dictionary of headers.
use deviceatlas_cloud_c.Prelude.{
  Option, none, some, List, [], ◌∷◌, Bool, true, false, Bytes, ℤ, ℕ, done, failed, Outcome, returns,
  crashes, ◌>>=◌,
}
use deviceatlas_cloud_c.Mem.{Allocator}
use deviceatlas_cloud_c.Property.{properties_free}
use deviceatlas_cloud_c.Header.{HeaderHead, header_init, header_free}
use deviceatlas_cloud_c.Cache.{Provider}
use deviceatlas_cloud_c.Server.{Server}
use deviceatlas_cloud_c.Ranking.{Probes}
use deviceatlas_cloud_c.Config.{Platform, Plugin}
use deviceatlas_cloud_c.Client.{Config}
use deviceatlas_cloud_c.Detect.{Services, Detected, detect}
use deviceatlas_cloud_c.PyWrapper.{Python, DaCloudObject, fill_dict, add_headers}

module _ (A : Allocator) (plugins : Provider → Plugin A) (have_memcached : Bool) (P : Platform)
    (W : Probes) (qsort : (Server → Server → ℤ) → List Server → List Server) (V : Services)
    (xxh64 : Bytes → ℕ → ℕ) (Y : Python) where
  open A use {State}
  open Y use {Dict}

  abbrev pub Object : Type 0
  Object = DaCloudObject A plugins have_memcached P W qsort

  abbrev pub Client : Type 0
  Client = Config A plugins have_memcached P W qsort

  -- What the call returns and leaves: `none` is a null pointer, an exception.
  pub record PyDetected : Type 0 where
    pub props : Option Dict
    pub object : Object
    pub net : V.Net
    pub heap : State

  -- Behind da_cloud_detect. Where it failed, the pool of the properties is not given back.
  unfoldable pub take_props :
      Object
      → (config : Client) → HeaderHead
      → Detected A ((plugins config.provider).ops) V
      → Outcome PyDetected
  unfolding fill_dict
  take_props self config hhead d =
      let object : Object = record self { cfg = some (record config { cache_cfg = d.cfg }) } in
      elim d.status [
        | failed ↦ returns (record {
          props = some Y.new_dict;
          object = object;
          net = d.net;
          heap = header_free A d.heap hhead;
        })
        | done ↦ elim d.phead [
          | none ↦ crashes
          | some phead ↦ do
            props ← fill_dict Y Y.new_dict phead hhead
            returns (record {
              props = some props;
              object = object;
              net = d.net;
              heap = header_free A (properties_free A d.heap phead).0 hhead;
            })
        ]
      ]

  -- From da_cloud_header_init on. Where it fails, what follows uses a head without a pool; a licence
  -- key that could not be copied is a null pointer that is printed.
  unfoldable pub detect_with :
      State → V.Net → Object → Client → List (Option Bytes × Option Bytes) → Outcome PyDetected
  unfolding add_headers detect take_props
  detect_with s net self config headers =
      let (head, s') = header_init A s in
      elim head [
        | none ↦ crashes
        | some hhead ↦ do
          r ← add_headers A xxh64 s' hhead headers
          elim config.licence_key [
            | none ↦ crashes
            | some (p, licence_key) ↦ do
              d ←
                  detect A ((plugins config.provider).ops) V r.1 config.cache_cfg net r.0
                    licence_key config.shead.servers true
              take_props self config r.0 d
          ]
      ]

  -- `headers` is `none` where the arguments are not one object; the items are in the order of
  -- PyDict_Next.
  unfoldable pub py_detect :
      State → V.Net → Object → Option (List (Option Bytes × Option Bytes)) → Outcome PyDetected
  unfolding detect_with
  py_detect s net self headers =
      let raised : PyDetected = record { props = none; object = self; net = net; heap = s } in
      elim self.set [
        | false ↦ returns raised
        | true ↦ elim headers [
          | none ↦ returns raised
          | some [] ↦
              returns (record { props = some Y.new_dict; object = self; net = net; heap = s })
          | some (h ∷ rest) ↦ elim self.cfg [
            | none ↦ crashes
            | some config ↦ detect_with s net self config (h ∷ rest)
          ]
        ]
      ]
