-- ===== src/Ranking/Times.antt =====
-- dacloud.c, what the ranking leaves: which servers have a time, and what the status says of them.
use mathlib.Core.Option.{some-injective}
use deviceatlas_cloud_c.Prelude.{
  arith, ℕ, ◌≡◌, refl, ap, ◌⊎◌, inl, inr, Option, none, some, List, [], ◌∷◌, map, Bool, true,
  Bool-cases, ◌==◌, if◌then◌else◌, Bytes, ℤ, pos, Status, done, failed,
}
use deviceatlas_cloud_c.Server.{Server}
use deviceatlas_cloud_c.Ranking.{
  Probes, Measured, servers_cmp, unreached, time_of, ret_of, measure, servers_fireup,
}

-- Some server has a time.
abbrev pub Answered : List Server → Type 0
Answered [] = ⊥
Answered (s ∷ rest) = ((n : ℕ) × (s.response_time ≡ pos n)) ⊎ Answered rest

abbrev pub address : Server → Bytes × ℕ
address s = (s.host, s.port)

abbrev pub mark_unreached : Server → Server
mark_unreached s = record s { response_time = unreached }

-- A transfer gives a time and sets the status to 0, or neither.
answer_cases :
    (answer : Option (ℕ × ℕ))
    → ((ret_of failed answer ≡ done) × (n : ℕ) × (time_of answer ≡ pos n))
      ⊎ ((ret_of failed answer ≡ failed) × (time_of answer ≡ unreached))
unfolding ret_of time_of
answer_cases none = inr (refl, refl)
answer_cases (some (code, time)) = elim (Bool-cases (code == 200)) [
  | inl ok ↦ rw (ok, ret_of, time_of) (inl (refl, time, refl))
  | inr bad ↦ rw (bad, ret_of, time_of) (inr (refl, refl))
]

ret_of-done : (answer : Option (ℕ × ℕ)) → ret_of done answer ≡ done
unfolding ret_of
ret_of-done none = refl
ret_of-done (some (code, time)) = elim (Bool-cases (code == 200)) [
  | inl ok ↦ rw (ok, ret_of) refl
  | inr bad ↦ rw (bad, ret_of) refl
]

module _ (W : Probes) where
  open W use {Net}

  -- The transfer with a server: what it brings, and the network behind it.
  abbrev ask : Net → Server → Option (ℕ × ℕ) × Net
  ask net s = W.perform (W.easy_init net).1 s.host s.port

  -- The servers asked in turn: one that answers with the code 200 has the time of its transfer, any
  -- other is marked.
  abbrev pub Probed : Net → List Server → List Server → Type 0
  Probed net [] [] = Unit
  Probed net [] (t ∷ ts) = ⊥
  Probed net (s ∷ ss) [] = ⊥
  Probed net (s ∷ ss) (t ∷ ts) =
      (((n : ℕ) × ((ask net s).0 ≡ some (200, n)) × (t ≡ record s { response_time = pos n }))
        ⊎ (((n : ℕ) → ¬ ((ask net s).0 ≡ some (200, n))) × (t ≡ mark_unreached s)))
      × Probed (ask net s).1 ss ts

  time_of-cases :
      (answer : Option (ℕ × ℕ))
      → ((n : ℕ) × (answer ≡ some (200, n)) × (time_of answer ≡ pos n))
        ⊎ (((n : ℕ) → ¬ (answer ≡ some (200, n))) × (time_of answer ≡ unreached))
  unfolding time_of
  time_of-cases none = inr (λ n e. absurd (cc), refl)
  time_of-cases (some (code, time)) = elim (Bool-cases (code == 200)) [
    | inl ok ↦
        let same : code ≡ 200 = ground (arith, ok) in
        inl (time, ap (λ c. some (c, time)) same, rw (ok) refl)
    | inr bad ↦ inr (
      λ n e.
          let same : code ≡ 200 = ap (λ x. x.0) (some-injective (code, time) (200, n) e) in
          absurd (ground (arith, bad, same)),
      rw (bad) refl,
    )
  ]

  measure-Probed :
      (net : Net) (ret : Status) (servers : List Server)
      → (measure W net ret servers).complete ≡ true
      → Probed net servers (measure W net ret servers).servers
  unfolding measure
  measure-Probed net ret [] = λ c. tt
  measure-Probed net ret (s ∷ servers) = elim (Bool-cases (W.easy_init net).0) [
    | inl handle ↦
        rw (handle, measure)
          (λ c. (
            elim (time_of-cases (ask net s).0) [
              | inl (n, ok, time) ↦ inl (n, ok, ap (λ (t : ℤ). record s { response_time = t }) time)
              | inr (other, time) ↦ inr (other, ap (λ (t : ℤ). record s { response_time = t }) time)
            ],
            measure-Probed (ask net s).1 (ret_of ret (ask net s).0) servers c,
          ))
    | inr no_handle ↦ rw (no_handle, measure) (λ c. absurd (cc))
  ]

  measure-address :
      (net : Net) (ret : Status) (servers : List Server)
      → map address (measure W net ret servers).servers ≡ map address servers
  unfolding measure
  measure-address net ret [] = refl
  measure-address net ret (s ∷ servers) = elim (Bool-cases (W.easy_init net).0) [
    | inl handle ↦
        rw (handle, measure)
          (ap (◌∷◌ (address s)) (measure-address (ask net s).1 (ret_of ret (ask net s).0) servers))
    | inr no_handle ↦ rw (no_handle, measure) refl
  ]

  measure-done : (net : Net) (servers : List Server) → (measure W net done servers).ret ≡ done
  unfolding measure
  measure-done net [] = refl
  measure-done net (s ∷ servers) = elim (Bool-cases (W.easy_init net).0) [
    | inl handle ↦
        rw (handle, measure, ret_of-done (ask net s).0) (measure-done (ask net s).1 servers)
    | inr no_handle ↦ rw (no_handle, measure) refl
  ]

  -- Status 0 and a server with a time, or status -1 and every server marked.
  abbrev Told : Measured Net → List Server → Type 0
  Told m servers =
      ((m.ret ≡ done) × Answered m.servers)
      ⊎ ((m.ret ≡ failed) × (m.servers ≡ map mark_unreached servers))

  measure-Told :
      (net : Net) (servers : List Server)
      → (measure W net failed servers).complete ≡ true
      → Told (measure W net failed servers) servers
  unfolding measure
  measure-Told net [] = λ _. inr (refl, refl)
  measure-Told net (s ∷ servers) = elim (Bool-cases (W.easy_init net).0) [
    | inl handle ↦ elim (answer_cases (ask net s).0) [
      | inl (now, n, time) ↦
          rw (handle, measure, now, time)
            (λ _. inl (measure-done (ask net s).1 servers, inl (n, refl)))
      | inr (still, time) ↦
          rw (handle, measure, still, time)
            (λ c. elim (measure-Told (ask net s).1 servers c) [
              | inl (ret, some_time) ↦ inl (ret, inr some_time)
              | inr (ret, all) ↦ inr (ret, ap (◌∷◌ (mark_unreached s)) all)
            ])
    ]
    | inr no_handle ↦ rw (no_handle, measure) (λ c. absurd (cc))
  ]

  -- With a handle for each server, the ranking changes no host and no port, and each server in
  -- turn has the time of its transfer if that answered with the code 200, and -1.0 seconds
  -- otherwise. Where a server has a time it returns 0, and leaves the servers with their times as
  -- qsort puts them, or as they stood under manual ranking; else it returns -1 and leaves them in
  -- their order, each marked with -1.0 seconds.
  pub servers_fireup-Told :
      (qsort : (Server → Server → ℤ) → List Server → List Server) (net : Net)
      (manual_ranking : Bool) (servers : List Server)
      → (measure W net failed servers).complete ≡ true
      → let m = measure W net failed servers in
        let r = servers_fireup W qsort net manual_ranking servers in
        (map address m.servers ≡ map address servers)
        × Probed net servers m.servers
        × (((r.status ≡ done)
              × Answered m.servers
              × (r.servers ≡ (if manual_ranking then m.servers else qsort servers_cmp m.servers)))
            ⊎ ((r.status ≡ failed) × (r.servers ≡ map mark_unreached servers)))
  unfolding servers_fireup
  servers_fireup-Told qsort net manual servers c = (
    measure-address net failed servers,
    measure-Probed net failed servers c,
    elim (measure-Told net servers c) [
      | inl (ret, some_time) ↦ elim (Bool-cases manual) [
        | inl m ↦ rw (c, servers_fireup, ret, m) (inl (refl, some_time, refl))
        | inr m ↦ rw (c, servers_fireup, ret, m) (inl (refl, some_time, refl))
      ]
      | inr (ret, all) ↦ rw (c, servers_fireup, ret) (inr (refl, all))
    ],
  )
