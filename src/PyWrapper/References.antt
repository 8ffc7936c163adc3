-- ===== src/PyWrapper/References.antt =====
-- py3wrapper/dacloud.c, the references to the text that `cache_id` returns.
use deviceatlas_cloud_c.Prelude.{
  ℕ, zero, suc, ◌+◌, ◌≡◌, refl, some, List, Bool, true, arith, Bytes, ℤ, returns, crashes,
}
use deviceatlas_cloud_c.Mem.{Allocator}
use deviceatlas_cloud_c.Cache.{Provider}
use deviceatlas_cloud_c.Server.{Server}
use deviceatlas_cloud_c.Ranking.{Probes}
use deviceatlas_cloud_c.Config.{Platform, Plugin}
use deviceatlas_cloud_c.PyWrapper.{DaCloudObject, decref, get_cache_id, dealloc_set, dealloc}

decref-suc : (n m : ℕ) → decref n ≡ returns m → n ≡ suc m
unfolding decref
decref-suc zero m e = absurd (cc)
decref-suc (suc n) m e = cc

module _ (A : Allocator) (plugins : Provider → Plugin A) (have_memcached : Bool) (P : Platform)
    (W : Probes) (qsort : (Server → Server → ℤ) → List Server → List Server) where
  open A use {State}

  abbrev Object : Type 0
  Object = DaCloudObject A plugins have_memcached P W qsort

  -- So many calls of `cache_id` return the text, and the caller drops each result.
  pub data Drops (self : Object) : ℕ → Object → Type 0 where
    start : Drops self 0 self
    drop :
        {n refs : ℕ} {self' : Object} (text : Bytes)
        → Drops self n self'
        → (get_cache_id A plugins have_memcached P W qsort self').0 ≡ some text
        → decref (get_cache_id A plugins have_memcached P W qsort self').1.refs ≡ returns refs
        → Drops self
            (suc n)
            (record ((get_cache_id A plugins have_memcached P W qsort self').1) { refs = refs })

  Drops-refs :
      (self self' : Object) (n : ℕ)
      → Drops self n self'
      → (self'.set ≡ self.set) × (self'.refs + n ≡ self.refs)
  unfolding decref get_cache_id
  Drops-refs self self' n start = (refl, omega arith)
  Drops-refs self self'' k (drop {n} {refs} {self'} text before given dropped) =
      let (same, count) = Drops-refs self self' n before in
      let one = decref-suc self'.refs refs dropped in (same, omega arith)

  -- After as many calls of cache_id on a Python object that is set, each result dropped by its
  -- caller, as the text had references, the release of the object drops a reference to a freed
  -- text and crashes, since cache_id takes none for its caller.
  pub dealloc_crashes :
      (self self' : Object) (s : State) (error_refs type_refs : ℕ)
      → self.set ≡ true
      → Drops self self.refs self'
      → dealloc A plugins have_memcached P W qsort s error_refs type_refs self' ≡ crashes
  unfolding dealloc dealloc_set decref
  dealloc_crashes self self' s error_refs type_refs set drops =
      let (same, count) = Drops-refs self self' self.refs drops in
      let none_left : self'.refs ≡ 0 = omega arith in rw (dealloc, same, set, none_left) refl
