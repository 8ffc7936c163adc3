-- ===== src/Examples/Bench/Balance.antt =====
-- examples/dacloud_simplebench.c, the number of its rounds and the blocks of its loop.
use mathlib.Core.List.Perm
use mathlib.Core.List.{append_assoc}
use deviceatlas_cloud_c.Prelude.{
  ℕ, zero, suc, ◌-◌, ◌^◌, ◌<◌, ◌≤◌, ◌≡◌, refl, sym, subst, Option, none, some, Option-cases, inl,
  inr, List, [], ◌++◌, Perm, true, length, length-append, arith, Bytes, ℤ, pos, negsuc, strtol,
  Ensures, Ensures->>=, Ensures-mono, front_swap,
}
use deviceatlas_cloud_c.Mem.{Allocator, AllocatorLaws}
use deviceatlas_cloud_c.Mem.Moving.{CopyLaws, RefusalLaws}
use deviceatlas_cloud_c.Header.{HeaderHead}
use deviceatlas_cloud_c.Cache.{CacheOps}
use deviceatlas_cloud_c.Cache.Blocks.{KeepsBlocks}
use deviceatlas_cloud_c.Server.{Server}
use deviceatlas_cloud_c.Detect.{Services, Detected, detect}
use deviceatlas_cloud_c.Detect.FetchBlocks.{HasPieces}
use deviceatlas_cloud_c.Detect.Balance.{after_free, detect-balanced}
use deviceatlas_cloud_c.Examples.Bench.{Looped, free_detected, checked, iterations_of, repeat}

checked_bound : (z : ℤ) → (0 < checked z) × (checked z < 2 ^ 31 - 1)
unfolding checked
checked_bound (pos tmp) = ground arith
checked_bound (negsuc n) = (omega arith, omega arith)

-- There is at least one round, and their number is an int.
pub iterations_of_bound :
    (iterationstr : Option Bytes)
    → (0 < iterations_of iterationstr) × (iterations_of iterationstr < 2 ^ 31 - 1)
unfolding iterations_of
iterations_of_bound none = (omega arith, omega arith)
iterations_of_bound (some text) = checked_bound (strtol text)

module _ (A : Allocator) (L : AllocatorLaws A) (K : CopyLaws A L) (X : RefusalLaws A L)
    (C : CacheOps A) (B : KeepsBlocks A L C) (V : Services) (pieces : HasPieces V)
    (licence_key : Bytes) (servers : List Server) where
  open A use {State}
  open L use {live}
  open C use {Cfg}
  open V use {Net}

  free_detected-after_free :
      (d : Detected A C V)
      → Ensures (λ s. s ≡ after_free A d.heap d.phead) (free_detected A C V licence_key servers d)
  unfolding free_detected
  free_detected-after_free d = elim (Option-cases d.phead) [
    | inl no_pool ↦ rw (free_detected, no_pool) tt
    | inr (phead, e) ↦ rw (free_detected, e) refl
  ]

  abbrev Within : ℕ → List ℕ → Looped A C V licence_key servers → Type 0
  Within most rest r =
      (lost : List ℕ) × (length lost ≤ most) × Perm (live r.heap) (lost ++ (B.owned r.cfg ++ rest))

  -- The loop leaves at most one block more for each round.
  pub repeat-balanced :
      (iterations : ℕ) (s : State) (cfg : Cfg) (net : Net) (hhead : HeaderHead) (rest : List ℕ)
      → Perm (live s) (B.owned cfg ++ rest)
      → Ensures
          (Within iterations rest)
          (repeat A C V licence_key servers iterations s cfg net hhead)
  unfolding repeat
  repeat-balanced zero s cfg net hhead rest h = ([], omega arith, h)
  repeat-balanced (suc iterations) s cfg net hhead rest h =
      Ensures->>= (detect A C V s cfg net hhead licence_key servers true) _
        (λ r.
          (lost : List ℕ) × (length lost ≤ 1)
          × Perm (live (after_free A r.heap r.phead)) (lost ++ (B.owned r.cfg ++ rest)))
        _ (detect-balanced A L K X C B V pieces s cfg net hhead licence_key servers true rest h)
        λ d (lost, few, held).
          Ensures->>= (free_detected A C V licence_key servers d) _
            (λ s'. s' ≡ after_free A d.heap d.phead) _ (free_detected-after_free d)
            λ s' same.
              Ensures-mono (Within iterations (lost ++ rest)) _ _
                (λ r (more, few', held'). (
                  more ++ lost,
                  omega (arith, length-append more lost, few, few'),
                  subst (Perm (live r.heap)) (sym (append_assoc more lost (B.owned r.cfg ++ rest)))
                      (Perm.trans held'
                        (Perm.append_left more (front_swap (B.owned r.cfg) lost rest))),
                ))
                (repeat-balanced iterations s' d.cfg d.net hhead (lost ++ rest) (
                  Perm.trans
                    (subst (λ t. Perm (live t) (lost ++ (B.owned d.cfg ++ rest))) (sym same) held)
                    (front_swap lost (B.owned d.cfg) rest)))
