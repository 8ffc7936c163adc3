-- ===== src/Detect/Typed.antt =====
-- dacloud.c and dacloud_header_property.c, the union of a property: `da_cloud_detect` writes the
-- member that the type stands for, which is the one that every reader of the type reads.
use deviceatlas_cloud_c.Prelude.{
  ◌*◌, ◌≡◌, refl, inl, inr, Option, none, some, List, [], ◌∷◌, Bool, true, false, Bool-cases,
  Option-cases, ltb, length, All, Bytes, ℤ, Status, done, failed, Ensures, Ensures-bind,
  Ensures->>=, IfSome,
}
use deviceatlas_cloud_c.Mem.{Allocator}
use deviceatlas_cloud_c.Membuf.{Pool, membuf_fill, membuf_copy, membuf_create}
use deviceatlas_cloud_c.Header.{HeaderHead, pool_fuel}
use deviceatlas_cloud_c.Property.{
  Property, PropertyHead, PropertyType, Value, num, text, long_type, bool_type, string_type,
  unknown_type,
}
use deviceatlas_cloud_c.Cache.{CString, Got, CacheOps}
use deviceatlas_cloud_c.Server.{Server}
use deviceatlas_cloud_c.Detect.Request.{header_lines}
use deviceatlas_cloud_c.Detect.Answer.{
  JsonValue, json_string, json_integer, json_true, json_false, json_null, json_real, json_array,
  json_object, copied, copy_value, type_of, value_of, make_property, list_properties,
  sizeof_property,
}
use deviceatlas_cloud_c.Detect.{
  Services, Fetch, Fetched, answered, refused, unreachable, Detected, keep_list, load_answer,
  read_answer, use_cached, cacheval_of, after_fetch, ask_servers, detect, new_phead, fetch,
  opens_object,
}

-- The member of the union that was written is the one that the type stands for.
pub data Fits : PropertyType → Value → Type 0 where
  long_fits : (n : ℤ) → Fits long_type (num n)
  bool_fits : (n : ℤ) → Fits bool_type (num n)
  string_fits : (t : Bytes) → Fits string_type (text t)
  unknown_fits : (t : Bytes) → Fits unknown_type (text t)

abbrev pub IsTyped : Property → Type 0
IsTyped p = Fits p.type p.value

make_property-IsTyped : (key : Bytes) (value : JsonValue) → IsTyped (make_property key value)
unfolding make_property type_of value_of
make_property-IsTyped key (json_string t) = string_fits t
make_property-IsTyped key (json_integer n) = long_fits n
make_property-IsTyped key json_true = bool_fits _
make_property-IsTyped key json_false = bool_fits _
make_property-IsTyped key json_null = unknown_fits _
make_property-IsTyped key json_real = unknown_fits _
make_property-IsTyped key json_array = unknown_fits _
make_property-IsTyped key json_object = unknown_fits _

module _ (A : Allocator) where
  open A use {State}

  list_properties-IsTyped :
      (s : State) (pool : Pool) (list : List Property) (it : List (Bytes × JsonValue))
      → All IsTyped list
      → Ensures (λ r. All IsTyped r.list) (list_properties A s pool list it)
  unfolding list_properties
  list_properties-IsTyped s pool list [] h = h
  list_properties-IsTyped s pool list ((key, value) ∷ it) h =
      Ensures-bind _ (membuf_fill A pool_fuel s pool sizeof_property) _ λ p.
        elim (Option-cases p.region) [
          | inl e ↦ rw (e) h
          | inr (_, e) ↦ rw (e) (
              Ensures-bind _ (membuf_copy A pool_fuel p.heap p.pool (length key)) _ λ n.
                elim (Option-cases n.region) [
                  | inl e' ↦ rw (e') h
                  | inr (_, e') ↦ rw (e') (
                      Ensures-bind _ (copy_value A n.heap n.pool (copied value)) _ λ v.
                        elim (Bool-cases v.0) [
                          | inl whole ↦ rw (whole) (
                              list_properties-IsTyped v.2 v.1 (make_property key value ∷ list) it
                                (make_property-IsTyped key value, h))
                          | inr short ↦ rw (short) h
                        ])
                ])
        ]

module _ (A : Allocator) (C : CacheOps A) (W : Services) where
  open A use {State}
  open C use {Cfg}
  open W use {Net}

  abbrev HasTyped : Detected A C W → Type 0
  HasTyped r = IfSome (λ phead. All IsTyped phead.list) r.phead

  load_answer-IsTyped :
      (status : Status) (cfg : Cfg) (net : Net) (s : State) (phead : PropertyHead)
      (cacheval : Option CString) (body : Option Bytes)
      → All IsTyped phead.list
      → Ensures HasTyped (load_answer A C W status cfg net s phead cacheval body)
  unfolding load_answer keep_list
  load_answer-IsTyped status cfg net s phead cacheval body h =
      let loaded = W.json_loads body in
      elim (Bool-cases (ltb 0 (length loaded.error_text))) [
        | inl bad ↦ rw (bad, load_answer) h
        | inr good ↦
            rw (good, load_answer)
              (Ensures->>= (list_properties A s phead.pool phead.list loaded.properties)
                (keep_list A C W status cfg net phead cacheval) (λ r. All IsTyped r.list) HasTyped
                (list_properties-IsTyped A s phead.pool phead.list loaded.properties h) λ r k. k)
      ]

  read_answer-IsTyped :
      (status : Status) (cfg : Cfg) (net : Net) (s : State) (phead : PropertyHead)
      (cacheval : Option CString)
      → All IsTyped phead.list
      → Ensures HasTyped (read_answer A C W status cfg net s phead cacheval)
  unfolding read_answer
  read_answer-IsTyped status cfg net s phead none h =
      load_answer-IsTyped status cfg net s phead none none h
  read_answer-IsTyped status cfg net s phead (some (p, body)) h =
      elim (Bool-cases (opens_object body)) [
        | inl object ↦
            rw (object, read_answer)
              (load_answer-IsTyped status cfg net s phead (some (p, body)) (some body) h)
        | inr other ↦ rw (other, read_answer) h
      ]

  after_fetch-IsTyped :
      (phead : PropertyHead) (f : Fetch A C W) (o : Fetched)
      → f.result ≡ o
      → All IsTyped phead.list
      → Ensures HasTyped (after_fetch A C W phead f)
  unfolding after_fetch
  after_fetch-IsTyped phead f (answered v) e h =
      rw (e, after_fetch) (read_answer-IsTyped done f.cfg f.net f.heap _ (some v) h)
  after_fetch-IsTyped phead f refused e h = rw (e, after_fetch) h
  after_fetch-IsTyped phead f unreachable e h =
      rw (e, after_fetch) (read_answer-IsTyped failed f.cfg f.net f.heap phead none h)

  use_cached-IsTyped :
      (net : Net) (phead : PropertyHead) (head : HeaderHead) (licence_key : Bytes)
      (servers : List Server) (g : Got State Cfg) (v : Option CString)
      → All IsTyped phead.list
      → Ensures HasTyped (use_cached A C W net phead head licence_key servers g v)
  unfolding use_cached ask_servers
  use_cached-IsTyped net phead head licence_key servers g (some v) h =
      read_answer-IsTyped done g.cfg net g.heap _ (some v) h
  use_cached-IsTyped net phead head licence_key servers g none h =
      elim (Bool-cases (W.easy_init net).0) [
        | inl handle ↦
            rw (use_cached, handle, ask_servers)
              (Ensures-bind HasTyped
                (fetch A C W g.heap g.cfg (W.easy_init net).1 head.cachekey licence_key
                  (header_lines head.list) servers)
                (after_fetch A C W phead) λ f. after_fetch-IsTyped phead f f.result refl h)
        | inr no_handle ↦ rw (use_cached, no_handle, ask_servers) h
      ]

  -- In the list that a detection which returns leaves, every property has the member of its union
  -- written that its type stands for: a number for a long or a bool, a text for a string or an
  -- unknown type. So a reader that goes by the type, as da_cloud_print_property and the wrappers
  -- do, never reads the other member.
  pub detect-IsTyped :
      (s : State) (cfg : Cfg) (net : Net) (head : HeaderHead) (licence_key : Bytes)
      (servers : List Server) (given : Bool)
      → Ensures
          (λ r. IfSome (λ phead. All IsTyped phead.list) r.phead)
          (detect A C W s cfg net head licence_key servers given)
  unfolding detect
  detect-IsTyped s cfg net head licence_key servers false = tt
  detect-IsTyped s cfg net head licence_key servers true =
      elim (Option-cases (membuf_create A s (1024 * 4)).0) [
        | inl no_pool ↦ rw (no_pool, detect) tt
        | inr (d, pool) ↦
            rw (pool, detect)
              (Ensures-bind HasTyped
                (C.get (membuf_create A s (1024 * 4)).1 cfg head.cachekey (some none))
                (λ g.
                  use_cached A C W net (new_phead (record { before = []; dcm = d })) head
                    licence_key servers g (cacheval_of A C W g))
                λ g. use_cached-IsTyped net _ head licence_key servers g (cacheval_of A C W g) tt)
      ]
