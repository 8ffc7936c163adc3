-- ===== src/Examples/Bench.antt =====
-- examples/dacloud_simplebench.c: the same detection many times.
pub mod Balance
use deviceatlas_cloud_c.Prelude.{
  ℕ, zero, suc, ◌-◌, ◌^◌, Option, none, some, List, Bool, true, false, ◌&&◌, ltb, if◌then◌else◌,
  Bytes, codes, ℤ, pos, negsuc, strtol, Status, done, failed, Outcome, returns, crashes, ◌>>=◌,
}
use deviceatlas_cloud_c.Mem.{Allocator}
use deviceatlas_cloud_c.Header.{HeaderHead, header_init, header_free, useragent_add}
use deviceatlas_cloud_c.Property.{PropertyHead, properties_free}
use deviceatlas_cloud_c.Cache.{CacheOps, Provider}
use deviceatlas_cloud_c.Server.{Server}
use deviceatlas_cloud_c.Ranking.{Probes}
use deviceatlas_cloud_c.Config.{Platform, Plugin}
use deviceatlas_cloud_c.Client.{Config, Inited, init, fini}
use deviceatlas_cloud_c.Detect.{Services, Detected, detect}

abbrev pub default_iterations : ℕ
default_iterations = 1000

-- tmp > 0 && tmp < INT_MAX
unfoldable pub checked : ℤ → ℕ
checked (pos tmp) = if ltb 0 tmp && ltb tmp (2 ^ 31 - 1) then tmp else default_iterations
checked (negsuc n) = default_iterations

-- The second argument, where there is one.
unfoldable pub iterations_of : Option Bytes → ℕ
unfolding checked strtol
iterations_of none = default_iterations
iterations_of (some iterationstr) = checked (strtol iterationstr)

module _ (A : Allocator) (C : CacheOps A) (V : Services) (licence_key : Bytes)
    (servers : List Server) where
  open A use {State}
  open C use {Cfg}
  open V use {Net}

  -- What the loop leaves.
  pub record Looped : Type 0 where
    pub cfg : Cfg
    pub net : Net
    pub heap : State

  -- da_cloud_properties_free on the head, which is not initialised where it has no pool.
  unfoldable pub free_detected : Detected A C V → Outcome State
  unfolding properties_free
  free_detected d = elim d.phead [
    | none ↦ crashes
    | some phead ↦ returns (properties_free A d.heap phead).0
  ]

  -- The loop over `i`.
  unfoldable pub repeat : ℕ → State → Cfg → Net → HeaderHead → Outcome Looped
  unfolding detect free_detected
  repeat zero s cfg net hhead = returns (record { cfg = cfg; net = net; heap = s })
  repeat (suc iterations) s cfg net hhead = do
    d ← detect A C V s cfg net hhead licence_key servers true
    s' ← free_detected d
    repeat iterations s' d.cfg d.net hhead

module _ (A : Allocator) (xxh64 : Bytes → ℕ → ℕ) (plugins : Provider → Plugin A)
    (have_memcached : Bool) (P : Platform) (W : Probes)
    (qsort : (Server → Server → ℤ) → List Server → List Server) (V : Services) where
  open A use {State}

  -- Behind the loop.
  unfoldable pub close_bench :
      State → Config A plugins have_memcached P W qsort → HeaderHead → Outcome State
  unfolding header_free fini
  close_bench s config hhead =
      fini A plugins have_memcached P W qsort (header_free A s hhead) config

  -- Behind da_cloud_init with 0; `has_time` says whether gettimeofday gives 0. A licence key that
  -- could not be copied is a null pointer that is printed.
  unfoldable pub run_bench :
      State → V.Net → Config A plugins have_memcached P W qsort → Bool → ℕ → Outcome State
  unfolding header_init useragent_add repeat close_bench
  run_bench s net config has_time iterations =
      let (hhead, s') = header_init A s in
      elim hhead [
        | none ↦ crashes
        | some h ↦ do
          r ← useragent_add A xxh64 s' h (codes "iPhone")
          elim has_time [
            | false ↦ close_bench r.heap config r.head
            | true ↦ elim config.licence_key [
              | none ↦ crashes
              | some (p, licence_key) ↦ do
                l ←
                    repeat A ((plugins config.provider).ops) V licence_key config.shead.servers
                      iterations r.heap config.cache_cfg net r.head
                close_bench l.heap (record config { cache_cfg = l.cfg }) r.head
            ]
          ]
      ]

  -- main, with its arguments; `none` is the end of the process in errx.
  unfoldable pub bench_main :
      State → W.Net → V.Net → Bytes → Option Bytes → Bool → Outcome (Option State)
  unfolding init iterations_of run_bench
  bench_main s net vnet configpath iterationstr has_time = do
    i ← init A plugins have_memcached P W qsort s net none false configpath
    elim i [
      | none ↦ returns none
      | some r ↦ elim r.status [
        | failed ↦ returns (some r.heap)
        | done ↦ do
          s' ← run_bench r.heap vnet r.config has_time (iterations_of iterationstr)
          returns (some s')
      ]
    ]
