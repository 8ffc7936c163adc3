-- ===== src/PyWrapper/Loading.antt =====
-- py3wrapper/dacloud.c, `load_config` over what da_cloud_init leaves.
use deviceatlas_cloud_c.Prelude.{
  ◌≡◌, refl, sym, subst, ◌⊎◌, inl, inr, Option, none, some, List, Bool, true, false, Bytes, ℤ,
  Ensures, Ensures->>=, Status-cases, IfSome, same_text_nocase,
}
use deviceatlas_cloud_c.Mem.{Allocator}
use deviceatlas_cloud_c.Cache.{Provider, cache_id}
use deviceatlas_cloud_c.Server.{Server}
use deviceatlas_cloud_c.Ranking.{Probes}
use deviceatlas_cloud_c.Config.{Settings, Platform, Plugin}
use deviceatlas_cloud_c.Client.{Inited, init}
use deviceatlas_cloud_c.Client.Identity.{Serves, init-cache_id}
use deviceatlas_cloud_c.PyWrapper.{
  DaCloudObject, PyResult, keep_config, load_config, old_id, old_ranking,
}

module _ (A : Allocator) (plugins : Provider → Plugin A) (have_memcached : Bool) (P : Platform)
    (W : Probes) (qsort : (Server → Server → ℤ) → List Server → List Server) where
  open A use {State}

  abbrev Object : Type 0
  Object = DaCloudObject A plugins have_memcached P W qsort

  -- What a call on an object that is not set gives, by the type of the cache in the file: False, or,
  -- where there is a type, True with the identifier of that cache and the one reference to its text.
  abbrev pub Loads : Option Bytes → PyResult A plugins have_memcached P W qsort Bool → Type 0
  Loads none r = (r.value ≡ some false) × (r.object.set ≡ false)
  Loads (some name) r =
      ((r.value ≡ some false) × (r.object.set ≡ false))
      ⊎ ((p : Provider) × (r.value ≡ some true)
          × (r.object.set ≡ true)
          × (r.object.refs ≡ 1)
          × (r.object.cache_id ≡ some (cache_id p))
          × (same_text_nocase name (cache_id p) ≡ true))

  keep_config-Loads :
      (self : Object) (type : Option Bytes) (o : Option (Inited A plugins have_memcached P W qsort))
      → self.set ≡ false
      → IfSome (Serves A plugins have_memcached P W qsort none type) o
      → Ensures (IfSome (Loads type)) (keep_config A plugins have_memcached P W qsort self o)
  unfolding keep_config
  keep_config-Loads self type none fresh serves = tt
  keep_config-Loads self none (some r) fresh (id, _, _) = elim (Status-cases r.status) [
    | inl failure ↦ rw (keep_config, failure) (refl, fresh)
    | inr success ↦ rw (keep_config, success, id) tt
  ]
  keep_config-Loads self (some name) (some r) fresh (id, same, _) = elim (Status-cases r.status) [
    | inl failure ↦ rw (keep_config, failure) (inl (refl, fresh))
    | inr success ↦
        rw (keep_config, success, id) (inr (r.config.provider, refl, refl, refl, refl, same))
  ]

  -- On a new Python object and a configuration file that can be read, where dacloudmod_load_config
  -- returns, it gives False and leaves the object not set, or, only where the file names a type of
  -- cache, True with that cache's identifier and one reference to its text. Without a type it
  -- never gives True.
  pub load_config-Loads :
      (s : State) (net : W.Net) (self : Object) (confpath : Bytes) (conf : Settings)
      → self.set ≡ false
      → old_id A plugins have_memcached P W qsort self ≡ none
      → P.read_file confpath ≡ some conf
      → Ensures
          (IfSome (Loads conf.cache_type))
          (load_config A plugins have_memcached P W qsort s net self (some confpath))
  unfolding load_config
  load_config-Loads s net self confpath conf fresh no_id file =
      rw (load_config, fresh)
        (Ensures->>=
          (init A plugins have_memcached P W qsort s net
            (old_id A plugins have_memcached P W qsort self)
            (old_ranking A plugins have_memcached P W qsort self) confpath)
          (keep_config A plugins have_memcached P W qsort self)
          (IfSome (Serves A plugins have_memcached P W qsort none conf.cache_type))
          (IfSome (Loads conf.cache_type))
          (subst
            (λ id.
              Ensures (IfSome (Serves A plugins have_memcached P W qsort none conf.cache_type)) (
                init A plugins have_memcached P W qsort s net id
                  (old_ranking A plugins have_memcached P W qsort self) confpath))
            (sym no_id)
            (init-cache_id A plugins have_memcached P W qsort s net none
              (old_ranking A plugins have_memcached P W qsort self) confpath conf file))
          (λ o. keep_config-Loads self conf.cache_type o fresh))
