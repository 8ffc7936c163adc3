-- ===== src/Examples/Threads.antt =====
-- examples/dacloud_mt.c, `da_cloud_process_req`: what each thread does with its copy of the config.
use deviceatlas_cloud_c.Prelude.{
  ℕ, zero, suc, Option, none, some, List, [], ◌∷◌, true, Bytes, codes, ℤ, negsuc, Status, done,
  Outcome, returns, crashes, ◌>>=◌,
}
use deviceatlas_cloud_c.Mem.{Allocator}
use deviceatlas_cloud_c.Header.{HeaderHead, header_init, header_free, useragent_add}
use deviceatlas_cloud_c.Property.{Property, Value, num, text, find_property, properties_free}
use deviceatlas_cloud_c.Cache.{CacheOps}
use deviceatlas_cloud_c.Server.{Server}
use deviceatlas_cloud_c.Detect.{Services, Detected, detect}

-- What is printed of an iteration: `id`, the source and the cache key.
pub record Shown : Type 0 where
  pub id : ℤ
  pub cachesource : Bytes
  pub cachekey : Bytes

-- `value.l`, whatever the type is; `pointer_bits` are those of the pointer to a text.
unfoldable pub value_l : (Bytes → ℤ) → Value → ℤ
value_l pointer_bits (num n) = n
value_l pointer_bits (text t) = pointer_bits t

-- -1 where there is no such property.
unfoldable pub id_of : (Bytes → ℤ) → Status × Option (Option Property) → ℤ
unfolding value_l
id_of pointer_bits (done, some (some p)) = value_l pointer_bits p.value
id_of pointer_bits _ = negsuc 0

module _ (A : Allocator) (xxh64 : Bytes → ℕ → ℕ) (C : CacheOps A) (V : Services)
    (licence_key : Bytes) (servers : List Server) (pointer_bits : Bytes → ℤ) where
  open A use {State}
  open C use {Cfg}
  open V use {Net}

  -- What the thread leaves, with the last iteration first.
  pub record Processed : Type 0 where
    pub shown : List Shown
    pub cfg : Cfg
    pub net : Net
    pub heap : State

  -- Behind da_cloud_detect; without a pool `phead` is not initialised and is read. The copy of the
  -- source is one of the C library and is given back.
  unfoldable pub show : HeaderHead → Detected A C V → Outcome (Shown × State)
  unfolding id_of find_property properties_free
  show hhead d = elim d.phead [
    | none ↦ crashes
    | some phead ↦ returns (
      record {
        id = id_of pointer_bits (find_property phead (codes "id") (some none));
        cachesource = phead.cachesource;
        cachekey = hhead.cachekey;
      },
      (properties_free A d.heap phead).0,
    )
  ]

  -- The loop over `i`.
  unfoldable pub process_each : ℕ → State → Cfg → Net → HeaderHead → List Shown → Outcome Processed
  unfolding detect show
  process_each zero s cfg net hhead shown =
      returns (record { shown = shown; cfg = cfg; net = net; heap = s })
  process_each (suc iterations) s cfg net hhead shown = do
    d ← detect A C V s cfg net hhead licence_key servers true
    r ← show hhead d
    process_each iterations r.1 d.cfg d.net hhead (r.0 ∷ shown)

  unfoldable pub process_req : ℕ → State → Cfg → Net → Outcome Processed
  unfolding header_init useragent_add process_each header_free
  process_req iterations s cfg net =
      let (hhead, s') = header_init A s in
      elim hhead [
        | none ↦ crashes
        | some h ↦ do
          r ←
              useragent_add A xxh64 s' h
                (codes "Dalvik/1.2.0 (Linux; U; Android 2.2.1; GT-S5830L Build/FROYO)")
          p ← process_each iterations r.heap cfg net r.head []
          returns (record p { heap = header_free A p.heap r.head })
      ]
