-- ===== src/FreeList/Tests.antt =====
-- The hypotheses of the theorems on the free lists hold at concrete inputs.
use meinheld.Base.{ℕ, ◌≤◌, ◌≡◌, refl, [], ◌∷◌, arith, length}
use mathlib.Core.List.{Mem, not-mem-nil, eq-or-mem_of_mem-cons}
use mathlib.Core.Logic.Or
use mathlib.Core.HLevel.{⊥_prop}
use meinheld.FreeList.{alloc}
use meinheld.FreeList.Owned.{Pool, Reach, here, next, allocs, Reach-alloc}

abbrev start : Pool ℕ
start = record { list = record { free = []; store = λ x. x }; used = [] }

abbrev taken_seven : Pool ℕ
taken_seven = record {
  list = (alloc (λ a. 0) 7 start.list).1;
  used = (alloc (λ a. 0) 7 start.list).0 ∷ [];
}

absent : ¬ Mem {A = ℕ} 8 (7 ∷ [])
absent m = Or.elim ⊥_prop (eq-or-mem_of_mem-cons m) (λ e. omega (arith, e)) not-mem-nil

reached : Reach 1 (λ a. 0) start taken_seven
reached = next here (allocs 7 not-mem-nil refl)

Reach-alloc_example :
    (¬ Mem (alloc (λ a. 0) 8 taken_seven.list).0 taken_seven.used)
    × ((alloc (λ a. 0) 8 taken_seven.list).1.store (alloc (λ a. 0) 8 taken_seven.list).0 ≡ 0)
    × (length taken_seven.list.free ≤ 1)
unfolding alloc
Reach-alloc_example = Reach-alloc 1 (λ a. 0) (λ x. x) taken_seven 8 reached absent
