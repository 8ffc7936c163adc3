-- ===== src/Tests/Detections.antt =====
-- The theorems on detections with scripted servers.
use mathlib.Core.List.{flatten}
use native.Mathlib.Decide.{ℕ_discrete}
use deviceatlas_cloud_c.Prelude.{
  ◌≡◌, refl, none, some, List, [], ◌∷◌, Bool, true, false, arith, Bytes, codes, pos, same_text,
  done, returns, Ensures, Lands, Ensures, IfSome,
}
use deviceatlas_cloud_c.Mem.{Allocator}
use deviceatlas_cloud_c.Membuf.{Membuf, membuf_create}
use deviceatlas_cloud_c.Cache.{Got, mock_cache}
use deviceatlas_cloud_c.MemoryCache.{Cfg, find_entry, memory_cache, memory_cache_get}
use deviceatlas_cloud_c.Server.{Server}
use deviceatlas_cloud_c.Detect.Answer.{JsonValue, json_string, json_false, list_properties}
use deviceatlas_cloud_c.Detect.Reader.{null, Transferred, transfer, data_reader_free}
use deviceatlas_cloud_c.Detect.Pieces.{Holds, nothing_yet, transfer-Holds}
use deviceatlas_cloud_c.Detect.Sources.{Sourced, source, detect-Sourced}
use deviceatlas_cloud_c.Detect.Cached.{TooMuch, Reads, detect_cached}
use deviceatlas_cloud_c.Membuf.Overruns.{Overruns}
use deviceatlas_cloud_c.Detect.Members.{Lists, requests, list_properties-Lists}
use deviceatlas_cloud_c.Detect.Failover.{Asked, AllFail, nobody, fails, fetch-failover}
use deviceatlas_cloud_c.Detect.{Services, unreachable, accept, fetch, detect}
use deviceatlas_cloud_c.Tests.Samples.{
  Heap, bump, bump_lawful, large_pool, give_back, fresh_heap, no_headers,
}

-- The bodies that the next transfers bring, and how each ends.
abbrev pub Script : Type 0
Script = List (List Bytes × Bool)

abbrev pub play : Script → List Bytes × Bool × Script
play [] = ([], false, [])
play ((pieces, ends_well) ∷ rest) = (pieces, ends_well, rest)

abbrev pub scripted : Services
scripted = record {
  Net = Script;
  easy_init = λ net. (true, net);
  perform = λ net url lines. play net;
  json_loads = λ body. record {
    error_text = [];
    properties = (codes "model", json_string (codes "N9")) ∷ [];
  };
}

abbrev pub first_server : Server
first_server = record {
  response_time = pos 100;
  host = codes "a.example";
  port = 80;
  blocks = none;
}

abbrev pub second_server : Server
second_server = record {
  response_time = pos 200;
  host = codes "b.example";
  port = 80;
  blocks = none;
}

-- A body in two pieces.
abbrev pub body : List Bytes
body = codes "{" ∷ codes "}" ∷ []

transfer-Holds_example :
    Ensures
      (λ t. t.is_ok ≡ true → Holds (flatten body) t.reader)
      (transfer bump fresh_heap (record { self = 7; buf = null; buflen = 0 }) body true)
transfer-Holds_example =
    transfer-Holds bump fresh_heap (record { self = 7; buf = null; buflen = 0 }) [] body true
      (omega arith, (omega arith, tt)) (nothing_yet refl refl refl)

-- The first server fails, the second answers.
abbrev pub second_answers : Script
second_answers = ([], false) ∷ (body, true) ∷ []

detect-Sourced_example :
    Ensures
      (λ r. Sourced r.status (source r.phead))
      (detect bump
        (mock_cache bump)
        scripted
        fresh_heap
        tt
        second_answers
        no_headers
        (codes "key")
        (first_server ∷ second_server ∷ [])
        true)
detect-Sourced_example =
    detect-Sourced bump (mock_cache bump) scripted fresh_heap tt second_answers no_headers
      (codes "key") (first_server ∷ second_server ∷ []) true

-- A cache with an answer under the key that `no_headers` has.
abbrev answered_cache : Cfg
answered_cache = record {
  cache_obj = some (record { cnt = 1; entries = record { key = []; value = codes "{}" } ∷ [] });
  threshold = some 4096;
  pool = none;
  cache_cfg_str = none;
}

abbrev cached_answer : Got Heap Cfg
cached_answer = record {
  status = done;
  value = some (some (8232, codes "{}"));
  cfg = answered_cache;
  heap = (8235, 8232 ∷ 4112 ∷ 4096 ∷ []);
}

abbrev pub new_block : Membuf
new_block = record { node = 4096; block = 4112; p = record { a = 4096; n = 4136; e = 8232 } }

detect_cached_example :
    Lands
      (λ r.
        ((r.status ≡ done)
          × (r.cfg ≡ answered_cache)
          × (r.net ≡ second_answers)
          × (source r.phead ≡ some (codes "cache")))
        × IfSome (λ phead. Reads scripted (codes "{}") phead.list) r.phead)
      (TooMuch bump bump_lawful
        (memory_cache bump 7)
        scripted
        cached_answer.heap
        (record { before = []; dcm = new_block })
        (codes "{}"))
      (detect bump
        (memory_cache bump 7)
        scripted
        fresh_heap
        answered_cache
        second_answers
        no_headers
        (codes "key")
        (first_server ∷ [])
        true)
unfolding memory_cache_get membuf_create find_entry same_text
detect_cached_example =
    detect_cached bump bump_lawful (memory_cache bump 7) scripted fresh_heap answered_cache
      second_answers no_headers (codes "key") (first_server ∷ []) new_block cached_answer
      (8232, codes "{}") refl refl refl ((omega arith, omega arith), tt)

-- Two members, one with a text.
abbrev two_members : List (Bytes × JsonValue)
two_members = (codes "model", json_string (codes "N9")) ∷ (codes "isTablet", json_false) ∷ []

list_properties-Lists_example :
    Lands
      (Lists bump [] two_members)
      (Overruns bump fresh_heap large_pool (requests two_members))
      (list_properties bump fresh_heap large_pool [] two_members)
list_properties-Lists_example =
    list_properties-Lists bump bump_lawful fresh_heap large_pool [] two_members
      (record { nonempty = omega arith; bounded = omega arith })
      ((omega arith, omega arith), ((omega arith, tt), tt))

abbrev first_transfer : Transferred Heap
first_transfer = record {
  is_ok = false;
  reader = record { self = 4096; buf = null; buflen = 0 };
  heap = (4112, 4096 ∷ []);
}

-- The heap when the first server's reader is freed.
abbrev later_heap : Heap
later_heap = (4112, [])

first_fails :
    AllFail bump
      (mock_cache bump)
      scripted
      (codes "key")
      []
      fresh_heap
      second_answers
      (first_server ∷ [])
      later_heap
      ((body, true) ∷ [])
unfolding transfer data_reader_free ℕ_discrete
first_fails =
    fails first_transfer (record { d = 4096; allocated = refl; moved = refl; transferred = refl })
      refl refl nobody

fetch-failover_example :
    ((srv : Server) (after : List Server) (net'' : Script) (t : Transferred Heap)
      → Asked bump
          (mock_cache bump)
          scripted
          (codes "key")
          []
          later_heap
          ((body, true) ∷ [])
          srv
          net''
          t
      → t.is_ok ≡ true
      → fetch bump
          (mock_cache bump)
          scripted
          fresh_heap
          tt
          second_answers
          (codes "1")
          (codes "key")
          []
          (first_server ∷ srv ∷ after)
        ≡ accept bump (mock_cache bump) scripted tt net'' (codes "1") t)
    × (fetch bump
          (mock_cache bump)
          scripted
          fresh_heap
          tt
          second_answers
          (codes "1")
          (codes "key")
          []
          (first_server ∷ [])
        ≡ returns
            (record { result = unreachable; cfg = tt; net = (body, true) ∷ []; heap = later_heap }))
fetch-failover_example =
    fetch-failover bump (mock_cache bump) scripted (codes "key") [] fresh_heap later_heap tt
      second_answers ((body, true) ∷ []) (codes "1") (first_server ∷ []) first_fails

-- Blocks cannot be moved.
abbrev no_realloc : Allocator
no_realloc = record bump { realloc = λ s p size. (none, give_back s p) }
