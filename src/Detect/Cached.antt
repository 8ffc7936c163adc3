-- ===== src/Detect/Cached.antt =====
-- dacloud.c, `da_cloud_detect` where the cache has the answer.
use mathlib.Core.List.{reverse, append-nil}
use deviceatlas_cloud_c.Prelude.{
  ◌*◌, ◌<◌, ◌++◌, ap, ◌∙◌, false, IfSome, ◌≡◌, refl, inl, inr, Option, none, some, List, [], true,
  Bool-cases, length, ltb, All, arith, Bytes, codes, Status, done, returns, ◌>>=◌, Lands, Lands->>=,
  Lands-Ensures, Ensures,
}
use deviceatlas_cloud_c.Mem.{Allocator, AllocatorLaws}
use deviceatlas_cloud_c.Membuf.{Membuf, Pool, membuf_create}
use deviceatlas_cloud_c.Membuf.Creation.{Created-some, membuf_create-Created}
use deviceatlas_cloud_c.Membuf.Growth.{IsUsable}
use deviceatlas_cloud_c.Membuf.Overruns.{Overruns}
use deviceatlas_cloud_c.Header.{HeaderHead}
use deviceatlas_cloud_c.Property.{Property, PropertyHead}
use deviceatlas_cloud_c.Cache.{CString, Got, CacheOps}
use deviceatlas_cloud_c.Server.{Server}
use deviceatlas_cloud_c.Detect.Answer.{JsonValue, Listed, list_properties}
use deviceatlas_cloud_c.Detect.Members.{
  properties_of, requests, IsShort, Lists, list_properties-Lists,
}
use deviceatlas_cloud_c.Detect.Sources.{Settled, source}
use deviceatlas_cloud_c.Detect.{
  Services, Detected, keep_list, load_answer, read_answer, detect, new_phead, opens_object,
}

-- What stands in the list of properties that is read from a text: nothing, where the text is no object
-- or is refused by the parser; or the members in front of the first that there is no memory for.
pub data Reads (W : Services) (text : Bytes) (list : List Property) : Type 0 where
  no_object : opens_object text ≡ false → list ≡ [] → Reads W text list
  unparsed :
      opens_object text ≡ true
      → 0 < length (W.json_loads (some text)).error_text
      → list ≡ []
      → Reads W text list
  listed :
      opens_object text ≡ true
      → (taken left : List (Bytes × JsonValue)) → length (W.json_loads (some text)).error_text ≡ 0
      → (W.json_loads (some text)).properties ≡ taken ++ left
      → list ≡ reverse (properties_of taken)
      → Reads W text list

module _ (A : Allocator) (L : AllocatorLaws A) where
  -- The pool that da_cloud_detect makes is fit to grow.
  pub new_pool-IsUsable :
      (s : A.State) (d : Membuf)
      → (membuf_create A s (1024 * 4)).0 ≡ some d
      → IsUsable (record { before = []; dcm = d })
  new_pool-IsUsable s d pool =
      let created = membuf_create-Created A L s (1024 * 4) (omega arith) in
      let fresh = (Created-some A L (1024 * 4) (L.live s) _ d created pool).1 in
      record { nonempty = omega arith; bounded = omega arith }

module _ (A : Allocator) (L : AllocatorLaws A) (C : CacheOps A) (W : Services) where
  open A use {State}
  open C use {Cfg}
  open W use {Net}

  -- What is left of reading a text: the status, the cache, the net and the source that there were,
  -- and the list that is read from it.
  abbrev pub ReadFrom : Bytes → Status → Cfg → Net → Bytes → Detected A C W → Type 0
  ReadFrom text status cfg net from r =
      Settled A C W status cfg net (some from) r × IfSome (λ phead. Reads W text phead.list) r.phead

  Lists-Reads :
      (text : Bytes) (list : List Property) (r : Listed A)
      → opens_object text ≡ true
      → length (W.json_loads (some text)).error_text ≡ 0
      → list ≡ []
      → Lists A list (W.json_loads (some text)).properties r
      → Reads W text r.list
  Lists-Reads text list r object good empty v = listed object v.taken v.left good v.split (
      v.listed
      ∙ ap (λ l. reverse (properties_of v.taken) ++ l) empty
      ∙ append-nil (reverse (properties_of v.taken)))

  -- Some requests for the members of a text leave a block of the pool past its end.
  abbrev pub TooMuch : State → Pool → Bytes → Type 0
  TooMuch s pool text = Overruns A s pool (requests (W.json_loads (some text)).properties)

  load_answer-ReadFrom :
      (status : Status) (cfg : Cfg) (net : Net) (s : State) (phead : PropertyHead)
      (cacheval : Option CString) (text : Bytes)
      → IsUsable phead.pool
      → phead.list ≡ []
      → opens_object text ≡ true
      → All IsShort (W.json_loads (some text)).properties
      → Lands
          (ReadFrom text status cfg net phead.cachesource)
          (TooMuch s phead.pool text)
          (load_answer A C W status cfg net s phead cacheval (some text))
  unfolding load_answer keep_list
  load_answer-ReadFrom status cfg net s phead cacheval text u empty object short =
      let loaded = W.json_loads (some text) in
      elim (Bool-cases (ltb 0 (length loaded.error_text))) [
        | inl bad ↦
            rw (bad, load_answer)
              ((refl, refl, refl, refl), unparsed object (ground (arith, bad)) empty)
        | inr good ↦
            rw (good, load_answer)
              (Lands->>= (list_properties A s phead.pool phead.list loaded.properties) _
                (Lists A phead.list loaded.properties) _ _ _
                (list_properties-Lists A L s phead.pool phead.list loaded.properties u short)
                (λ o. o)
                λ r v. (
                  (refl, refl, refl, refl),
                  Lists-Reads text phead.list r object (ground (arith, good)) empty v,
                ))
      ]

  read_answer-ReadFrom :
      (status : Status) (cfg : Cfg) (net : Net) (s : State) (phead : PropertyHead) (v : CString)
      → IsUsable phead.pool
      → phead.list ≡ []
      → All IsShort (W.json_loads (some v.1)).properties
      → Lands
          (ReadFrom v.1 status cfg net phead.cachesource)
          (TooMuch s phead.pool v.1)
          (read_answer A C W status cfg net s phead (some v))
  unfolding read_answer
  read_answer-ReadFrom status cfg net s phead (p, text) u empty short =
      elim (Bool-cases (opens_object text)) [
        | inl object ↦
            rw (object, read_answer)
              (load_answer-ReadFrom status cfg net s phead (some (p, text)) text u empty object
                short)
        | inr other ↦ rw (other, read_answer) ((refl, refl, refl, refl), no_object other empty)
      ]

  pub read_answer-Ensures :
      (status : Status) (cfg : Cfg) (net : Net) (s : State) (phead : PropertyHead) (v : CString)
      → IsUsable phead.pool
      → phead.list ≡ []
      → All IsShort (W.json_loads (some v.1)).properties
      → Ensures
          (ReadFrom v.1 status cfg net phead.cachesource)
          (read_answer A C W status cfg net s phead (some v))
  read_answer-Ensures status cfg net s phead v u empty short =
      Lands-Ensures (ReadFrom v.1 status cfg net phead.cachesource) (TooMuch s phead.pool v.1) _
        (read_answer-ReadFrom status cfg net s phead v u empty short)

  -- With a lawful allocator and room for a pool, where the cache gives a text, and no member that
  -- the text is parsed into has texts of 2 ^ 61 bytes or more, the detection returns 0 with the
  -- source "cache", or it crashes where the first requests for these members have left a block of
  -- the pool past its end. Where it returns, no server is asked, the cache is left as `get` left
  -- it, and the list holds what was read from that text: the properties of its members, the last
  -- first, up to the first that there was no memory for, or nothing where it is no object or is
  -- not parsed.
  pub detect_cached :
      (s : State) (cfg : Cfg) (net : Net) (head : HeaderHead) (licence_key : Bytes)
      (servers : List Server) (d : Membuf) (g : Got State Cfg) (v : CString)
      → (membuf_create A s (1024 * 4)).0 ≡ some d
      → C.get (membuf_create A s (1024 * 4)).1 cfg head.cachekey (some none) ≡ returns g
      → g.value ≡ some (some v)
      → All IsShort (W.json_loads (some v.1)).properties
      → Lands
          (λ r.
            ((r.status ≡ done)
              × (r.cfg ≡ g.cfg)
              × (r.net ≡ net)
              × (source r.phead ≡ some (codes "cache")))
            × IfSome (λ phead. Reads W v.1 phead.list) r.phead)
          (TooMuch g.heap (record { before = []; dcm = d }) v.1)
          (detect A C W s cfg net head licence_key servers true)
  unfolding detect
  detect_cached s cfg net head licence_key servers d g v pool hit e short =
      rw (pool, detect, hit, ◌>>=◌, e)
        (read_answer-ReadFrom done g.cfg net g.heap
          (record (new_phead (record { before = []; dcm = d })) { cachesource = codes "cache" }) v
          (new_pool-IsUsable A L s d pool) refl short)
