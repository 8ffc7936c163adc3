-- ===== src/Tests/Clients.antt =====
-- The theorems on the configuration of a client, with all four providers.
use deviceatlas_cloud_c.Prelude.{
  ◌≡◌, refl, none, some, [], ◌∷◌, true, false, codes, pos, hangs, Ensures, IfSome, ◌>>=◌,
}
use deviceatlas_cloud_c.Cache.{Provider, file, memcached, memory, mock, mock_cache}
use deviceatlas_cloud_c.MemoryCache.{memory_cache}
use deviceatlas_cloud_c.Mutex.{unset}
use deviceatlas_cloud_c.FileCache.{file_cache}
use deviceatlas_cloud_c.Memcached.{memcached_cache}
use deviceatlas_cloud_c.Server.{ServerHead}
use deviceatlas_cloud_c.Config.{Element, Settings, Platform, Plugin, load_each}
use deviceatlas_cloud_c.Client.{init}
use deviceatlas_cloud_c.Config.Hostless.{load_each_hangs}
use deviceatlas_cloud_c.Client.Identity.{Serves, init-cache_id}
use deviceatlas_cloud_c.Tests.Worlds.{disk, empty_servers, endless, endless_never_fails}
use deviceatlas_cloud_c.Tests.Ranking.{insertion_sort, probed}

abbrev pub near : Element
near = record { host = some (codes "http://near.example"); port = some (pos 8080) }

abbrev far : Element
far = record { host = some (codes "http://far.example"); port = some (pos 70000) }

abbrev hostless : Element
hostless = record { host = none; port = some (pos 80) }

abbrev no_servers : ServerHead
no_servers = record { self = 1; array = none; servers = []; dservers = false }

load_each_hangs_example : load_each endless 40 1 no_servers (near ∷ hostless ∷ far ∷ []) ≡ hangs
load_each_hangs_example =
    load_each_hangs endless endless_never_fails 40 (near ∷ []) (far ∷ []) hostless 1 no_servers
      ((codes "http://near.example", refl), tt) refl

-- The providers, over the worlds of the tests.
abbrev pub plugins : Provider → Plugin endless
plugins file = record {
  ops = file_cache endless disk true true;
  zeroed = λ text expiration. record {
    cache_obj = none;
    pool = none;
    cache_cfg_str = text;
    expiration = expiration;
    mtx = unset;
    fs = (100, λ path. none);
  };
}
plugins memcached = record {
  ops = memcached_cache endless empty_servers;
  zeroed = λ text expiration. record {
    memc = none;
    cache_obj = none;
    cache_cfg_str = text;
    expiration = expiration;
    world = 4;
  };
}
plugins memory = record {
  ops = memory_cache endless 7;
  zeroed = λ text expiration. record {
    cache_obj = none;
    threshold = none;
    pool = none;
    cache_cfg_str = text;
  };
}
plugins mock = record { ops = mock_cache endless; zeroed = λ text expiration. tt }

abbrev pub settings : Settings
settings = record {
  error_path = none;
  licence_key = some (codes "key");
  cache_type = some (codes "File");
  cache_config = some (codes "/tmp");
  manual_ranking = none;
  servers = some (near ∷ []);
}

-- One configuration file.
abbrev pub platform : Platform
platform = record { read_file = λ path. some settings; fopen_append = λ path. true }

init-cache_id_example :
    Ensures
      (IfSome
        (Serves endless plugins true platform probed insertion_sort none (some (codes "File"))))
      (init endless plugins true platform probed insertion_sort 0 [] none true (codes "da.cfg"))
init-cache_id_example =
    init-cache_id endless plugins true platform probed insertion_sort 0 [] none true
      (codes "da.cfg") settings refl
