-- ===== src/CppWrapper/Detecting.antt =====
-- cppwrapper/dacloud.cpp, the class DaCloudDetect.
use deviceatlas_cloud_c.Prelude.{
  Option, none, some, List, [], Bool, true, false, Bytes, codes, ℤ, done, failed, Outcome, returns,
  crashes, ◌>>=◌,
}
use deviceatlas_cloud_c.Mem.{Allocator}
use deviceatlas_cloud_c.Property.{PropertyHead, properties_free}
use deviceatlas_cloud_c.Header.{HeaderHead}
use deviceatlas_cloud_c.Cache.{Provider}
use deviceatlas_cloud_c.Server.{Server}
use deviceatlas_cloud_c.Ranking.{Probes}
use deviceatlas_cloud_c.Config.{Platform, Plugin}
use deviceatlas_cloud_c.Detect.{Services, Detected, detect}
use deviceatlas_cloud_c.CppWrapper.{Properties, insert_each, DaCloudHeaders, DaCloud}

module _ (A : Allocator) (plugins : Provider → Plugin A) (have_memcached : Bool) (P : Platform)
    (W : Probes) (qsort : (Server → Server → ℤ) → List Server → List Server) (V : Services) where
  open A use {State}

  -- DaCloudDetect: `phead` is `none` while its pool is a null pointer.
  pub record DaCloudDetect : Type 0 where
    pub phead : Option PropertyHead
    pub cache_key : Bytes
    pub cache_source : Bytes

  -- What the constructors leave; `filled` is the map where the caller gave one.
  pub record MadeDetect : Type 0 where
    pub object : DaCloudDetect
    pub filled : Properties
    pub cloud : DaCloud A plugins have_memcached P W qsort
    pub net : V.Net
    pub heap : State

  abbrev pub nothing_known : DaCloudDetect
  nothing_known = record { phead = none; cache_key = codes "none"; cache_source = codes "none" }

  -- Behind da_cloud_detect; the head of the headers is a copy, which the call does not change.
  unfoldable pub keep_detected :
      (cloud : DaCloud A plugins have_memcached P W qsort)
      → HeaderHead
      → Detected A ((plugins cloud.cfg.provider).ops) V
      → MadeDetect
  unfolding insert_each
  keep_detected cloud hhead d =
      let cloud' : DaCloud A plugins have_memcached P W qsort = record cloud {
        cfg = record cloud.cfg { cache_cfg = d.cfg };
      } in
      let lost : MadeDetect = record {
        object = record nothing_known { phead = d.phead };
        filled = [];
        cloud = cloud';
        net = d.net;
        heap = d.heap;
      } in
      elim d.status [
        | failed ↦ lost
        | done ↦ elim d.phead [
          | none ↦ lost
          | some phead ↦ record {
            object = record {
              phead = some phead;
              cache_key = hhead.cachekey;
              cache_source = phead.cachesource;
            };
            filled = insert_each [] phead.list;
            cloud = cloud';
            net = d.net;
            heap = d.heap;
          }
        ]
      ]

  -- The two constructors differ in what they give to the caller: a copy of `phead`, or the map that
  -- was `props` before and is cleared where both objects are set. A licence key that could not be
  -- copied is a null pointer that is printed.
  unfoldable pub make_detect :
      State
      → V.Net
      → DaCloud A plugins have_memcached P W qsort
      → DaCloudHeaders
      → Properties
      → Outcome MadeDetect
  unfolding detect keep_detected
  make_detect s net cloud headers props =
      let unknown : MadeDetect = record {
        object = nothing_known;
        filled = props;
        cloud = cloud;
        net = net;
        heap = s;
      } in
      elim cloud.set [
        | false ↦ returns unknown
        | true ↦ elim headers [
          | none ↦ returns unknown
          | some hhead ↦ elim cloud.cfg.licence_key [
            | none ↦ crashes
            | some (p, licence_key) ↦ do
              d ←
                  detect A ((plugins cloud.cfg.provider).ops) V s cloud.cfg.cache_cfg net hhead
                    licence_key cloud.cfg.shead.servers true
              returns (keep_detected cloud hhead d)
          ]
        ]
      ]

  -- The pool goes, and with it the texts that the map and the copy of `phead` point to.
  unfoldable pub destroy_detect : State → DaCloudDetect → State
  unfolding properties_free
  destroy_detect s object = elim object.phead as (λ _. State) [
    | none ↦ s
    | some phead ↦ (properties_free A s phead).0
  ]
