-- ===== src/Config/Hostless.antt =====
-- dacloud.c, what `da_cloud_init` does on a server without a host.
use deviceatlas_cloud_c.Prelude.{
  ℕ, zero, suc, ◌+◌, ◌*◌, ◌≡◌, ◌∙◌, refl, subst, sym, none, some, List, [], ◌∷◌, ◌++◌, All, length,
  Bytes, hangs,
}
use deviceatlas_cloud_c.Mem.{Allocator, NeverFails}
use deviceatlas_cloud_c.Server.{ServerHead}
use deviceatlas_cloud_c.Config.{
  Element, add_server, load_each, address_of, sizeof_pointer, sizeof_server,
}

abbrev pub Named : Element → Type 0
Named e = (host : Bytes) × (e.host ≡ some host)

-- A round on an element without a host leaves everything as it was.
pub load_each-hostless :
    (A : Allocator) (fuel : ℕ) (s : A.State) (head : ServerHead) (e : Element) (es : List Element)
    → e.host ≡ none
    → load_each A (suc fuel) s head (e ∷ es) ≡ load_each A fuel s head (e ∷ es)
unfolding load_each
load_each-hostless A fuel s head e es missing =
    subst
      (λ o.
        load_each A (suc fuel) s head (record { host = o; port = e.port } ∷ es)
        ≡ load_each A fuel s head (record { host = o; port = e.port } ∷ es))
      (sym missing) refl

module _ (A : Allocator) (E : NeverFails A) where
  open A use {State}

  -- With an allocator that is never out of memory, where the first element without a host stands
  -- behind elements that have one, the loop of da_cloud_init over the elements has not ended after
  -- any number of rounds, whatever follows that element.
  pub load_each_hangs :
      (fuel : ℕ) (before after : List Element) (e : Element) (s : State) (head : ServerHead)
      → All Named before
      → e.host ≡ none
      → load_each A fuel s head (before ++ e ∷ after) ≡ hangs
  unfolding load_each add_server
  load_each_hangs zero before after e s head named missing = refl
  load_each_hangs (suc fuel) [] after e s head named missing =
      load_each-hostless A fuel s head e after missing
      ∙ load_each_hangs fuel [] after e s head tt missing
  load_each_hangs (suc fuel) (x ∷ before) after e s head named missing =
      let (host, is_host) = named.0 in
      let size = (length head.servers + 1) * sizeof_pointer in
      let (t, more) = E.moves s (address_of head.array) size in
      let s' = (A.realloc s (address_of head.array) size).1 in
      let (p, at) = E.allocates s' sizeof_server in
      let (q, copy) = E.copies (A.alloc s' sizeof_server).1 (length host) in
      rw (is_host, load_each, more, at, add_server, copy)
        (load_each_hangs fuel before after e _ _ named.1 missing)
