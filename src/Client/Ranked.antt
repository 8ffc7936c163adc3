-- ===== src/Client/Ranked.antt =====
-- dacloud.c, the blocks of the servers while they are ranked.
use mathlib.Core.List.{Permᴰ}
use mathlib.Core.List.Perm
use mathlib.Core.Logic.{∥∥₁_elim}
use deviceatlas_cloud_c.Prelude.{
  ℕ, ◌≡◌, refl, sym, ap, ◌∙◌, subst, Option, none, some, List, [], ◌∷◌, ◌++◌, Perm, Bool, ◌&&◌, not,
  inl, inr, Bool-cases, Option-cases, ℤ, Status, failed, front_swap,
}
use deviceatlas_cloud_c.Server.{Server}
use deviceatlas_cloud_c.Ranking.{
  Probes, is_done, measure, rank, servers_fireup, time_of, ret_of, servers_cmp,
}
use deviceatlas_cloud_c.Client.Balance.{blocks_of}

-- The blocks of one server.
abbrev own_blocks : Option (ℕ × ℕ) → List ℕ
own_blocks none = []
own_blocks (some (p, q)) = q ∷ p ∷ []

blocks_of-cons :
    (x : Server) (l : List Server) → blocks_of (x ∷ l) ≡ own_blocks x.blocks ++ blocks_of l
blocks_of-cons x l = elim (Option-cases x.blocks) [
  | inl e ↦ rw (e) refl
  | inr ((p, q), e) ↦ rw (e) refl
]

blocks_of-swap :
    (a b : Server) (l : List Server) → Perm (blocks_of (a ∷ b ∷ l)) (blocks_of (b ∷ a ∷ l))
blocks_of-swap a b l =
    let both : (x y : Server)
        → blocks_of (x ∷ y ∷ l) ≡ own_blocks x.blocks ++ (own_blocks y.blocks ++ blocks_of l) =
      λ x y. blocks_of-cons x (y ∷ l) ∙ ap (λ r. own_blocks x.blocks ++ r) (blocks_of-cons y l) in
    subst (λ r. Perm r (blocks_of (b ∷ a ∷ l))) (sym (both a b))
      (subst (Perm (own_blocks a.blocks ++ (own_blocks b.blocks ++ blocks_of l))) (sym (both b a))
        (front_swap (own_blocks a.blocks) (own_blocks b.blocks) (blocks_of l)))

blocks_of-behind :
    (a : Server) (l r : List Server)
    → Perm (blocks_of l) (blocks_of r)
    → Perm (blocks_of (a ∷ l)) (blocks_of (a ∷ r))
blocks_of-behind a l r h =
    subst (λ b. Perm b (blocks_of (a ∷ r))) (sym (blocks_of-cons a l))
      (subst (Perm (own_blocks a.blocks ++ blocks_of l)) (sym (blocks_of-cons a r))
        (Perm.append_left (own_blocks a.blocks) h))

blocks_of_order : {xs ys : List Server} → Permᴰ xs ys → Perm (blocks_of xs) (blocks_of ys)
blocks_of_order Permᴰ.nil = Perm.rfl
blocks_of_order (Permᴰ.cons {a = a} {l₁ = l} {l₂ = r} e d) =
    subst (λ b. Perm (blocks_of (a ∷ l)) (blocks_of (b ∷ r))) e
      (blocks_of-behind a l r (blocks_of_order d))
blocks_of_order (Permᴰ.swap {a = a} {b = b} {a' = a'} {b' = b'} {l = l} e f) =
    subst (λ x. Perm (blocks_of (a ∷ b ∷ l)) (blocks_of (x ∷ b' ∷ l))) f
      (subst (λ y. Perm (blocks_of (a ∷ b ∷ l)) (blocks_of (b ∷ y ∷ l))) e (blocks_of-swap a b l))
blocks_of_order (Permᴰ.trans d d') = Perm.trans (blocks_of_order d) (blocks_of_order d')

-- The blocks do not depend on the order of the servers.
pub blocks_of-Perm : {xs ys : List Server} → Perm xs ys → Perm (blocks_of xs) (blocks_of ys)
blocks_of-Perm h = ∥∥₁_elim h (hlevel) blocks_of_order

measure-blocks :
    (W : Probes) (net : W.Net) (ret : Status) (servers : List Server)
    → blocks_of (measure W net ret servers).servers ≡ blocks_of servers
unfolding measure
measure-blocks W net ret [] = refl
measure-blocks W net ret (s ∷ servers) =
    let (handle, net') = W.easy_init net in
    let (answer, net'') = W.perform net' s.host s.port in
    elim (Bool-cases handle) [
      | inl got ↦
          rw (measure, got)
            (blocks_of-cons (record s { response_time = time_of answer })
                (measure W net'' (ret_of ret answer) servers).servers
              ∙ ap (λ r. own_blocks s.blocks ++ r)
                  (measure-blocks W net'' (ret_of ret answer) servers)
              ∙ sym (blocks_of-cons s servers))
      | inr lost ↦ rw (measure, lost) refl
    ]

-- Where qsort gives the servers in another order, the ranking keeps their blocks.
pub servers_fireup-blocks :
    (W : Probes) (qsort : (Server → Server → ℤ) → List Server → List Server) (net : W.Net)
    (manual_ranking : Bool) (servers : List Server)
    → ((cmp : Server → Server → ℤ) (xs : List Server) → Perm (qsort cmp xs) xs)
    → Perm
        (blocks_of (servers_fireup W qsort net manual_ranking servers).servers)
        (blocks_of servers)
unfolding servers_fireup rank
servers_fireup-blocks W qsort net manual_ranking servers sorts =
    let m = measure W net failed servers in
    let same : Perm (blocks_of m.servers) (blocks_of servers) =
      subst (Perm (blocks_of m.servers)) (measure-blocks W net failed servers) Perm.rfl in
    elim (Bool-cases m.complete) [
      | inl whole ↦ elim (Bool-cases (is_done m.ret && not manual_ranking)) [
        | inl ranked ↦
            rw (servers_fireup, whole, rank, ranked)
              (Perm.trans (blocks_of-Perm (sorts servers_cmp m.servers)) same)
        | inr kept ↦ rw (servers_fireup, whole, rank, kept) same
      ]
      | inr short ↦ rw (servers_fireup, short) same
    ]
