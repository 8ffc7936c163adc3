-- ===== src/Tests/Again.antt =====
-- The theorems on one detection behind another, with the provider memory_cache_provider.c.
use native.Mathlib.Decide.{ℕ_discrete}
use deviceatlas_cloud_c.Prelude.{
  ◌≡◌, refl, none, some, [], ◌∷◌, true, arith, Bytes, codes, c_text, done, returns, Lands, Returns,
  Ensures, IfSome, All,
}
use deviceatlas_cloud_c.Membuf.{
  membuf_create, membuf_alloc, membuf_strdup, membuf_fill, membuf_copy, written,
}
use deviceatlas_cloud_c.Mem.{mem_alloc, room, rounded}
use deviceatlas_cloud_c.Property.{Property, text, string_type}
use deviceatlas_cloud_c.MemoryCache.{
  memory_cache_get, memory_cache_set, find_entry, Cfg, memory_cache,
}
use deviceatlas_cloud_c.MemoryCache.Remembering.{IsReady, HasText, memory_cache_remembers}
use deviceatlas_cloud_c.Detect.Reader.{transfer, data_reader_free}
use deviceatlas_cloud_c.Detect.Answer.{
  JsonValue, copied, json_string, list_properties, make_property, type_of, value_of,
}
use deviceatlas_cloud_c.Detect.Members.{IsShort, requests}
use deviceatlas_cloud_c.Detect.Typed.{IsTyped, detect-IsTyped}
use deviceatlas_cloud_c.Detect.Cached.{Reads, listed}
use deviceatlas_cloud_c.Detect.Sources.{source}
use deviceatlas_cloud_c.Detect.Again.{
  AnsweredFromCache, Stored, OverrunsAfterGet, detect-Stored, detect_again,
}
use deviceatlas_cloud_c.Detect.Fitting.{detect_again_fits}
use deviceatlas_cloud_c.Detect.{Detected, detect, opens_object}
use deviceatlas_cloud_c.Tests.Samples.{bump, bump_lawful, large_pool, fresh_heap, no_headers}
use deviceatlas_cloud_c.Tests.Detections.{
  scripted, first_server, second_server, second_answers, new_block,
}

-- An open cache that has taken in nothing.
abbrev pub empty_cache : Cfg
empty_cache = record {
  cache_obj = some (record { cnt = 0; entries = [] });
  threshold = some 4096;
  pool = some large_pool;
  cache_cfg_str = none;
}

-- The same with the answer of the second server.
abbrev filled_cache : Cfg
filled_cache = record {
  cache_obj = some (record { cnt = 1; entries = record { key = []; value = codes "{}" } ∷ [] });
  threshold = some 4096;
  pool = some (record {
    before = [];
    dcm = record { node = 1000; block = 1016; p = record { a = 1000; n = 1080; e = 2040 } };
  });
  cache_cfg_str = none;
}

abbrev model_property : Property
model_property = record { name = codes "model"; value = text (codes "N9"); type = string_type }

-- What the detection leaves.
abbrev first_detection : Detected bump (memory_cache bump 7) scripted
first_detection = record {
  status = done;
  phead = some (record {
    cachesource = codes "cloud";
    pool = record {
      before = [];
      dcm = record { node = 4096; block = 4112; p = record { a = 4096; n = 4176; e = 8232 } };
    };
    list = model_property ∷ [];
  });
  cfg = filled_cache;
  net = [];
  heap = (8272, 4112 ∷ 4096 ∷ []);
}

abbrev is_short : (answer : Bytes) → All IsShort (scripted.json_loads (some answer)).properties
is_short answer = ((omega arith, omega arith), tt)

empty_cache-IsReady : IsReady empty_cache []
unfolding find_entry
empty_cache-IsReady = record {
  mc = record { cnt = 0; entries = [] };
  opened = refl;
  few = omega arith;
  absent = refl;
}

detect-Stored_example :
    Stored bump bump_lawful
      (memory_cache bump 7)
      scripted
      (memory_cache_remembers bump 7)
      is_short
      []
      first_detection
unfolding membuf_fill membuf_copy written detect membuf_create memory_cache_get find_entry transfer
    data_reader_free memory_cache_set list_properties ℕ_discrete opens_object membuf_alloc mem_alloc
    room membuf_strdup rounded c_text
detect-Stored_example =
    detect-Stored bump bump_lawful (memory_cache bump 7) scripted (memory_cache_remembers bump 7)
      is_short fresh_heap empty_cache second_answers no_headers (codes "key")
      (first_server ∷ second_server ∷ []) first_detection empty_cache-IsReady refl refl

abbrev member : Bytes × JsonValue
member = (codes "model", json_string (codes "N9"))

set_answer :
    memory_cache_set bump fresh_heap empty_cache [] (codes "{}")
    ≡ returns (record { status = done; cfg = filled_cache; heap = fresh_heap })
unfolding memory_cache_set membuf_alloc mem_alloc room membuf_strdup rounded
set_answer = refl

read_model : Reads scripted (codes "{}") (model_property ∷ [])
unfolding opens_object make_property type_of value_of
read_model = listed refl (member ∷ []) [] refl refl refl

abbrev stored :
    Stored bump bump_lawful
      (memory_cache bump 7)
      scripted
      (memory_cache_remembers bump 7)
      is_short
      []
      first_detection
stored = record {
  text = codes "{}";
  put = record {
    heap = fresh_heap;
    old = empty_cache;
    left = record { status = done; cfg = filled_cache; heap = fresh_heap };
    was_ready = empty_cache-IsReady;
    ran = set_answer;
    now = refl;
  };
  read = read_model;
}

detect_again_example :
    Lands
      (λ r'.
        (r'.status ≡ done)
        × (r'.net ≡ second_answers)
        × (source r'.phead ≡ some (codes "cache"))
        × IfSome (λ phead. Reads scripted (codes "{}") phead.list) r'.phead
        × HasText r'.cfg [] (codes "{}"))
      (OverrunsAfterGet bump bump_lawful
        (memory_cache bump 7)
        scripted
        (memory_cache_remembers bump 7)
        is_short
        filled_cache
        []
        fresh_heap
        new_block
        (codes "{}"))
      (detect bump
        (memory_cache bump 7)
        scripted
        fresh_heap
        filled_cache
        second_answers
        no_headers
        (codes "key")
        (first_server ∷ [])
        true)
unfolding membuf_create
detect_again_example =
    detect_again bump bump_lawful (memory_cache bump 7) scripted (memory_cache_remembers bump 7)
      is_short [] first_detection stored fresh_heap second_answers no_headers (codes "key")
      (first_server ∷ []) new_block 8232 refl refl refl refl

detect_again_fits_example :
    Returns
      (AnsweredFromCache bump bump_lawful
        (memory_cache bump 7)
        scripted
        (memory_cache_remembers bump 7)
        is_short
        []
        (codes "{}")
        second_answers)
      (detect bump
        (memory_cache bump 7)
        scripted
        fresh_heap
        filled_cache
        second_answers
        no_headers
        (codes "key")
        (first_server ∷ [])
        true)
unfolding membuf_create requests copied
detect_again_fits_example =
    detect_again_fits bump bump_lawful (memory_cache bump 7) scripted
      (memory_cache_remembers bump 7) is_short [] first_detection stored fresh_heap second_answers
      no_headers (codes "key") (first_server ∷ []) new_block 8232 refl refl refl refl (omega arith)

detect-IsTyped_example :
    Ensures
      (λ r. IfSome (λ phead. All IsTyped phead.list) r.phead)
      (detect bump
        (memory_cache bump 7)
        scripted
        fresh_heap
        filled_cache
        second_answers
        no_headers
        (codes "key")
        (first_server ∷ [])
        true)
detect-IsTyped_example =
    detect-IsTyped bump (memory_cache bump 7) scripted fresh_heap filled_cache second_answers
      no_headers (codes "key") (first_server ∷ []) true
