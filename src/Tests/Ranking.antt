-- ===== src/Tests/Ranking.antt =====
-- A sorting function that keeps what the C library promises of qsort, and the theorems on the
-- ranking with scripted servers.
use mathlib.Core.List.Perm
use deviceatlas_cloud_c.Prelude.{
  ℕ, ◌≡◌, refl, ap, ◌⊎◌, inl, inr, Option, none, some, List, [], ◌∷◌, map, Perm, true, false,
  Bool-cases, All, if◌then◌else◌, arith, codes, ℤ, pos, negsuc, is_positive, done, failed,
}
use deviceatlas_cloud_c.Server.{Server}
use deviceatlas_cloud_c.Ranking.{Probes, unreached, exceeds, servers_cmp, measure, servers_fireup}
use deviceatlas_cloud_c.Ranking.Times.{
  Probed, Answered, address, mark_unreached, servers_fireup-Told,
}
use deviceatlas_cloud_c.Ranking.Sorting.{Opposed, Pairs, IsConsistent, Sorts, servers_fireup-Sorts}

module _ (cmp : Server → Server → ℤ) where
  abbrev pub insert : Server → List Server → List Server
  insert x [] = x ∷ []
  insert x (y ∷ ys) =
      let rest = insert x ys in if is_positive (cmp x y) then y ∷ rest else x ∷ y ∷ ys

  abbrev pub insertion_sort : List Server → List Server
  insertion_sort [] = []
  insertion_sort (x ∷ xs) = insert x (insertion_sort xs)

  abbrev Low : Server → Server → Type 0
  Low x y = is_positive (cmp x y) ≡ false

  insert-Perm : (x : Server) (ys : List Server) → Perm (insert x ys) (x ∷ ys)
  insert-Perm x [] = Perm.rfl
  insert-Perm x (y ∷ ys) = elim (Bool-cases (is_positive (cmp x y))) [
    | inl after ↦ rw after (Perm.trans (Perm.cons y (insert-Perm x ys)) (Perm.swap x y ys))
    | inr before ↦ rw before Perm.rfl
  ]

  insert-All :
      (P : Server → Type 0) (x : Server) (ys : List Server) → P x → All P ys → All P (insert x ys)
  insert-All P x [] p h = (p, tt)
  insert-All P x (y ∷ ys) p h = elim (Bool-cases (is_positive (cmp x y))) [
    | inl after ↦ rw after (h.0, insert-All P x ys p h.1)
    | inr before ↦ rw before (p, h)
  ]

  sort-All : (P : Server → Type 0) (xs : List Server) → All P xs → All P (insertion_sort xs)
  sort-All P [] h = tt
  sort-All P (x ∷ xs) h = insert-All P x (insertion_sort xs) h.0 (sort-All P xs h.1)

  pub sort-Perm : (xs : List Server) → Perm (insertion_sort xs) xs
  sort-Perm [] = Perm.rfl
  sort-Perm (x ∷ xs) = Perm.trans (insert-Perm x (insertion_sort xs)) (Perm.cons x (sort-Perm xs))

  abbrev IsTransitive : Type 0
  IsTransitive = (x y z : Server) → Low x y → Low y z → Low x z

  Low-All :
      (x y : Server) (ys : List Server) → IsTransitive → Low x y → All (Low y) ys → All (Low x) ys
  Low-All x y [] t l h = tt
  Low-All x y (z ∷ ys) t l h = (t x y z l h.0, Low-All x y ys t l h.1)

  Opposed-Low :
      (x y : Server) → Opposed (cmp x y) (cmp y x) → is_positive (cmp x y) ≡ true → Low y x
  unfolding is_positive
  Opposed-Low x y (inl (high, low)) e = rw low refl
  Opposed-Low x y (inr (low, high)) e =
      let low_first : is_positive (cmp x y) ≡ false = rw low refl in absurd (cc)

  insert-Pairs :
      (x : Server) (ys : List Server)
      → IsTransitive
      → All (λ y. Opposed (cmp x y) (cmp y x)) ys
      → Pairs Low ys
      → Pairs Low (insert x ys)
  insert-Pairs x [] t o h = (tt, tt)
  insert-Pairs x (y ∷ ys) t o h = elim (Bool-cases (is_positive (cmp x y))) [
    | inl after ↦
        rw after
          (insert-All (Low y) x ys (Opposed-Low x y o.0 after) h.0, insert-Pairs x ys t o.1 h.1)
    | inr before ↦ rw before ((before, Low-All x y ys t before h.0), h)
  ]

  sort-Pairs :
      (xs : List Server)
      → IsTransitive
      → Pairs (λ x y. Opposed (cmp x y) (cmp y x)) xs
      → Pairs Low (insertion_sort xs)
  sort-Pairs [] t o = tt
  sort-Pairs (x ∷ xs) t o =
      insert-Pairs x (insertion_sort xs) t (sort-All _ xs o.0) (sort-Pairs xs t o.1)

insertion_sort-Sorts :
    (cmp : Server → Server → ℤ) (xs : List Server)
    → IsConsistent cmp xs
    → Sorts cmp xs (insertion_sort cmp xs)
insertion_sort-Sorts cmp xs v = (sort-Perm cmp xs, sort-Pairs cmp xs v.transitive v.opposed)

-- Each server's answers, in the order in which they are asked.
abbrev pub probed : Probes
probed = record {
  Net = List (Option (ℕ × ℕ));
  easy_init = λ net. (true, net);
  perform = λ net host port. elim net [ [] ↦ (none, []) | answer ∷ rest ↦ (answer, rest) ];
}

abbrev region : ℤ → Server
region time = record {
  response_time = time;
  host = codes "http://region.example";
  port = 80;
  blocks = none;
}

abbrev two_regions : List Server
two_regions = region unreached ∷ region unreached ∷ []

-- The first region takes longer.
abbrev slow_fast : List (Option (ℕ × ℕ))
slow_fast = some (200, 900) ∷ some (200, 300) ∷ []

servers_fireup-Told_example :
    let m = measure probed slow_fast failed two_regions in
    let r = servers_fireup probed insertion_sort slow_fast false two_regions in
    (map address m.servers ≡ map address two_regions)
    × Probed probed slow_fast two_regions m.servers
    × (((r.status ≡ done) × Answered m.servers × (r.servers ≡ insertion_sort servers_cmp m.servers))
        ⊎ ((r.status ≡ failed) × (r.servers ≡ map mark_unreached two_regions)))
unfolding measure
servers_fireup-Told_example =
    servers_fireup-Told probed insertion_sort slow_fast false two_regions refl

abbrev amount : ℤ → ℕ
amount (pos n) = n
amount (negsuc n) = n

servers_fireup-Sorts_example :
    let r = servers_fireup probed insertion_sort slow_fast false two_regions in
    (r.status ≡ done)
    × Perm r.servers (measure probed slow_fast failed two_regions).servers
    × Pairs (λ x y. exceeds x.response_time y.response_time ≡ false) r.servers
unfolding measure
servers_fireup-Sorts_example =
    servers_fireup-Sorts probed insertion_sort slow_fast two_regions insertion_sort-Sorts refl refl
      (((λ same. let equal : 900 ≡ 300 = ap amount same in absurd (omega arith)), tt), (tt, tt))
