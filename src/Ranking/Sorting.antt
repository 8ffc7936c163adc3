-- ===== src/Ranking/Sorting.antt =====
-- dacloud.c, the order that the ranking puts the servers in.
use deviceatlas_cloud_c.Prelude.{
  ℕ, ◌≡◌, ◌≢◌, refl, ap, ◌∙◌, sym, ◌⊎◌, inl, inr, List, [], ◌∷◌, Perm, true, false, Bool-cases, All,
  ltb, arith, ℤ, pos, negsuc, is_positive, done, failed,
}
use deviceatlas_cloud_c.Server.{Server}
use deviceatlas_cloud_c.Ranking.{Probes, exceeds, servers_cmp, measure, servers_fireup}

-- Of two results for a pair in both orders, one is positive and one is negative.
abbrev pub Opposed : ℤ → ℤ → Type 0
Opposed a b = ((a ≡ pos 1) × (b ≡ negsuc 0)) ⊎ ((a ≡ negsuc 0) × (b ≡ pos 1))

-- The results for the pairs of different positions.
abbrev pub Pairs : (Server → Server → Type 0) → List Server → Type 0
Pairs R [] = Unit
Pairs R (x ∷ xs) = All (R x) xs × Pairs R xs

-- What the C library asks of a comparison: its results for the elements are those of an order.
pub record IsConsistent (cmp : Server → Server → ℤ) (xs : List Server) : Type 0 where
  pub opposed : Pairs (λ x y. Opposed (cmp x y) (cmp y x)) xs
  pub transitive :
      (x y z : Server)
      → is_positive (cmp x y) ≡ false
      → is_positive (cmp y z) ≡ false
      → is_positive (cmp x z) ≡ false

-- What it promises for them: the same elements, in that order.
abbrev pub Sorts : (Server → Server → ℤ) → List Server → List Server → Type 0
Sorts cmp xs ys = Perm ys xs × Pairs (λ x y. is_positive (cmp x y) ≡ false) ys

-- No two servers have the same time.
abbrev pub DistinctTimes : List Server → Type 0
DistinctTimes = Pairs (λ x y. x.response_time ≢ y.response_time)

ltb_opposed :
    (m n : ℕ)
    → m ≢ n
    → ((ltb n m ≡ true) × (ltb m n ≡ false)) ⊎ ((ltb n m ≡ false) × (ltb m n ≡ true))
ltb_opposed m n h = ground arith

exceeds_opposed :
    (a b : ℤ)
    → a ≢ b
    → ((exceeds a b ≡ true) × (exceeds b a ≡ false))
      ⊎ ((exceeds a b ≡ false) × (exceeds b a ≡ true))
unfolding exceeds
exceeds_opposed (pos m) (pos n) h = ltb_opposed m n (λ e. h (ap pos e))
exceeds_opposed (pos m) (negsuc n) h = inl (refl, refl)
exceeds_opposed (negsuc m) (pos n) h = inr (refl, refl)
exceeds_opposed (negsuc m) (negsuc n) h = ltb_opposed n m (λ e. h (ap negsuc (sym e)))

exceeds_trans : (a b c : ℤ) → exceeds a b ≡ false → exceeds b c ≡ false → exceeds a c ≡ false
unfolding exceeds
exceeds_trans (pos m) (pos n) (pos k) h h' = ground arith
exceeds_trans (pos m) (pos n) (negsuc k) h h' = absurd (cc)
exceeds_trans (pos m) (negsuc n) c h h' = absurd (cc)
exceeds_trans (negsuc m) b (pos k) h h' = refl
exceeds_trans (negsuc m) (pos n) (negsuc k) h h' = absurd (cc)
exceeds_trans (negsuc m) (negsuc n) (negsuc k) h h' = ground arith

exceeds_irrefl : (a : ℤ) → exceeds a a ≡ false
unfolding exceeds
exceeds_irrefl (pos m) = ground arith
exceeds_irrefl (negsuc m) = ground arith

-- The sign of the comparison is whether the first time exceeds the second.
is_positive-servers_cmp :
    (x y : Server) → is_positive (servers_cmp x y) ≡ exceeds x.response_time y.response_time
unfolding servers_cmp is_positive
is_positive-servers_cmp x y = elim (Bool-cases (exceeds x.response_time y.response_time)) [
  | inl more ↦ rw (more, servers_cmp, is_positive) refl
  | inr less ↦ rw (less, servers_cmp, is_positive) refl
]

servers_cmp-Opposed :
    (x y : Server) → x.response_time ≢ y.response_time → Opposed (servers_cmp x y) (servers_cmp y x)
unfolding servers_cmp
servers_cmp-Opposed x y h = elim (exceeds_opposed x.response_time y.response_time h) [
  | inl (more, less) ↦ rw (more, less, servers_cmp) (inl (refl, refl))
  | inr (less, more) ↦ rw (more, less, servers_cmp) (inr (refl, refl))
]

All-map :
    (P Q : Server → Type 0) (xs : List Server) → ((x : Server) → P x → Q x) → All P xs → All Q xs
All-map P Q [] f h = tt
All-map P Q (x ∷ xs) f h = (f x h.0, All-map P Q xs f h.1)

Pairs-map :
    (R S : Server → Server → Type 0) (xs : List Server)
    → ((x y : Server) → R x y → S x y)
    → Pairs R xs
    → Pairs S xs
Pairs-map R S [] f h = tt
Pairs-map R S (x ∷ xs) f h = (All-map (R x) (S x) xs (f x) h.0, Pairs-map R S xs f h.1)

servers_cmp-IsConsistent : (xs : List Server) → DistinctTimes xs → IsConsistent servers_cmp xs
servers_cmp-IsConsistent xs h = record {
  opposed = Pairs-map _ _ xs servers_cmp-Opposed h;
  transitive = λ x y z a b.
      is_positive-servers_cmp x z
      ∙ exceeds_trans x.response_time y.response_time z.response_time
          (sym (is_positive-servers_cmp x y) ∙ a) (sym (is_positive-servers_cmp y z) ∙ b);
}

-- With a handle for each server, some server that answered, no manual ranking, no two servers of
-- the same time, and a qsort that sorts whatever a comparison orders consistently, the ranking
-- returns 0 and leaves the servers in the order of their times, a server that was not reached, with
-- its -1.0 seconds, included.
pub servers_fireup-Sorts :
    (W : Probes) (qsort : (Server → Server → ℤ) → List Server → List Server) (net : W.Net)
    (servers : List Server)
    → ((cmp : Server → Server → ℤ) (xs : List Server)
        → IsConsistent cmp xs
        → Sorts cmp xs (qsort cmp xs))
    → (measure W net failed servers).complete ≡ true
    → (measure W net failed servers).ret ≡ done
    → DistinctTimes (measure W net failed servers).servers
    → let r = servers_fireup W qsort net false servers in
      (r.status ≡ done)
      × Perm r.servers (measure W net failed servers).servers
      × Pairs (λ x y. exceeds x.response_time y.response_time ≡ false) r.servers
unfolding servers_fireup
servers_fireup-Sorts W qsort net servers sorts c ret distinct =
    let m = measure W net failed servers in
    let (perm, order) = sorts servers_cmp m.servers (servers_cmp-IsConsistent m.servers distinct) in
    rw (c, servers_fireup, ret)
      (
        refl,
        perm,
        Pairs-map _ _ (qsort servers_cmp m.servers)
            (λ x y low. sym (is_positive-servers_cmp x y) ∙ low) order,
      )

servers_cmp_same : (x y : Server) → x.response_time ≡ y.response_time → servers_cmp x y ≡ negsuc 0
unfolding servers_cmp
servers_cmp_same x y same = rw (same, exceeds_irrefl y.response_time, servers_cmp) refl

-- Where two servers have the same time, as any two that were not reached have, the comparison is
-- not consistent, as qsort asks for: each of the two comes before the other.
pub servers_cmp-ties :
    (x y : Server) (rest : List Server)
    → x.response_time ≡ y.response_time
    → ¬ IsConsistent servers_cmp (x ∷ y ∷ rest)
servers_cmp-ties x y rest same v =
    let low = servers_cmp_same x y same in
    let low' = servers_cmp_same y x (sym same) in
    elim v.opposed.0.0 [ inl (high, _) ↦ absurd (cc) | inr (_, high) ↦ absurd (cc) ]
