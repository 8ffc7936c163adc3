-- ===== src/Examples/CppClient.antt =====
-- examples/dacloud_cppclient.cpp: one detection with the locale as a further header.
use deviceatlas_cloud_c.Prelude.{
  ℕ, Option, none, some, List, [], ◌∷◌, ◌++◌, Bool, true, false, Bytes, codes, ℤ, is_positive,
  if◌then◌else◌, print_int, Status, done, failed, Outcome, returns, crashes, ◌>>=◌,
}
use deviceatlas_cloud_c.Mem.{Allocator}
use deviceatlas_cloud_c.Header.{
  HeaderHead, Added, header_init, header_free, clientside_add, language_add, useragent_add,
}
use deviceatlas_cloud_c.Property.{
  Property, PropertyType, Value, num, text, long_type, bool_type, string_type, unknown_type,
  properties_free,
}
use deviceatlas_cloud_c.Cache.{Provider}
use deviceatlas_cloud_c.Server.{Server}
use deviceatlas_cloud_c.Ranking.{Probes}
use deviceatlas_cloud_c.Config.{Platform, Plugin}
use deviceatlas_cloud_c.Client.{Config, init, fini, config_cache_id}
use deviceatlas_cloud_c.Detect.{Services, Detected, detect}

-- The switch on the type; a long is printed whole.
unfoldable pub show_value : PropertyType → Value → Bytes
show_value long_type (num n) = print_int n
show_value bool_type (num n) = if is_positive n then codes "true" else codes "false"
show_value string_type (text t) = t
show_value unknown_type (text t) = t
show_value _ _ = []

unfoldable pub show_properties : Bytes → List Property → Bytes
unfolding show_value
show_properties out [] = out
show_properties out (p ∷ rest) =
    show_properties (out ++ p.name ++ codes ": " ++ show_value p.type p.value ++ 10 ∷ []) rest

abbrev pub show_sources : Bytes → Bytes → Bytes → Bytes
show_sources cache_id cachesource cachekey =
    codes "cache set: "
    ++ cache_id
    ++ 10 ∷ codes "cache source: "
    ++ cachesource
    ++ 10 ∷ codes "cache key: "
    ++ cachekey
    ++ 10 ∷ []

module _ (A : Allocator) (xxh64 : Bytes → ℕ → ℕ) (plugins : Provider → Plugin A)
    (have_memcached : Bool) (P : Platform) (W : Probes)
    (qsort : (Server → Server → ℤ) → List Server → List Server) (V : Services) where
  open A use {State}

  abbrev pub Client : Type 0
  Client = Config A plugins have_memcached P W qsort

  -- What main returns, what it wrote to the standard output, and the heap.
  pub record Ran : Type 0 where
    pub status : Status
    pub out : Bytes
    pub heap : State

  -- da_cloud_header_free and da_cloud_fini.
  unfoldable pub leave : Status → Bytes → State → Client → HeaderHead → Outcome Ran
  unfolding header_free fini
  leave status out s config head = do
    s' ← fini A plugins have_memcached P W qsort (header_free A s head) config
    returns (record { status = status; out = out; heap = s' })

  -- Behind da_cloud_detect. Where it failed, a pool that it made is not freed.
  unfoldable pub show_detected :
      (config : Client) → HeaderHead → Detected A ((plugins config.provider).ops) V → Outcome Ran
  unfolding show_properties config_cache_id properties_free leave
  show_detected config head d =
      let config' : Client = record config { cache_cfg = d.cfg } in
      elim d.status [
        | failed ↦ leave done [] d.heap config' head
        | done ↦ elim d.phead [
          | none ↦ leave done [] d.heap config' head
          | some phead ↦ do
            cache_id ← config_cache_id A plugins have_memcached P W qsort config'
            leave done
                (show_properties [] phead.list
                  ++ show_sources cache_id phead.cachesource head.cachekey)
                (properties_free A d.heap phead).0 config' head
        ]
      ]

  -- The optional third argument.
  unfoldable pub add_clientside : State → HeaderHead → Option Bytes → Outcome (Added A)
  unfolding clientside_add
  add_clientside s head none = returns (record { status = done; head = head; heap = s })
  add_clientside s head (some clientside) = clientside_add A xxh64 s head clientside

  -- Behind da_cloud_init with 0. `locale_name` is `none` where the constructor of std::locale
  -- throws. A licence key that could not be copied is a null pointer that is printed.
  unfoldable pub run_client :
      State → V.Net → Client → Option Bytes → Bytes → Option Bytes → Outcome Ran
  unfolding header_init language_add useragent_add add_clientside detect show_detected leave
  run_client s net config locale_name useragent clientside =
      let (made, s') = header_init A s in
      elim made [
        | none ↦ crashes
        | some head ↦ elim locale_name [
          | none ↦ leave failed [] s' config head
          | some lc ↦ do
            l ← language_add A xxh64 s' head lc
            u ← useragent_add A xxh64 l.heap l.head useragent
            c ← add_clientside u.heap u.head clientside
            elim config.licence_key [
              | none ↦ crashes
              | some (p, licence_key) ↦ do
                d ←
                    detect A ((plugins config.provider).ops) V c.heap config.cache_cfg net c.head
                      licence_key config.shead.servers true
                show_detected config c.head d
            ]
        ]
      ]

  -- main with its arguments; `none` is the end of the process in errx.
  unfoldable pub client_main :
      State → W.Net → V.Net → Bytes → Bytes → Option Bytes → Option Bytes → Outcome (Option Ran)
  unfolding init run_client
  client_main s net vnet configpath useragent clientside locale_name = do
    i ← init A plugins have_memcached P W qsort s net none false configpath
    elim i [
      | none ↦ returns none
      | some r ↦ elim r.status [
        | failed ↦ returns (some (record { status = done; out = []; heap = r.heap }))
        | done ↦ do
          ran ← run_client r.heap vnet r.config locale_name useragent clientside
          returns (some ran)
      ]
    ]
