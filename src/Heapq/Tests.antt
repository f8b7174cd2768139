-- ===== src/Heapq/Tests.antt =====
-- Runs of the timer heap, and its theorems at a concrete heap.
use mathlib.Core.List.{Perm}
use meinheld.Base.{ℕ, zero, suc, ◌-◌, ◌/◌, ◌≤◌, ◌<◌, ◌≡◌, refl, true, [], ◌∷◌, arith, get_or}
use meinheld.Heapq.{
  Heapq, heappush, heappop, pop_all, sift_up, sift_down, sift_up_loop, sift_down_loop,
  earlier_child,
}
use meinheld.Heapq.Queue.{
  IsValid, Pushed, Popped, Ascending, heappush-Pushed, heappop-Popped, pop_all-Ascending,
}

-- Four timers by their pointers 0 to 3.
abbrev times : ℕ → ℕ
times t = get_or (5 ∷ 3 ∷ 9 ∷ 4 ∷ []) t 0

abbrev three : Heapq
three = record { heap = 1 ∷ 0 ∷ 2 ∷ []; size = 3; max = 3 }

three-IsHeap :
    (c : ℕ)
    → 0 < c
    → c < 3
    → times (get_or (1 ∷ 0 ∷ 2 ∷ []) ((c - 1) / 2) 0) ≤ times (get_or (1 ∷ 0 ∷ 2 ∷ []) c 0)
three-IsHeap zero a b = absurd (omega arith)
three-IsHeap (suc zero) a b = omega arith
three-IsHeap (suc (suc zero)) a b = omega arith
three-IsHeap (suc (suc (suc c))) a b = absurd (omega arith)

three-IsValid : IsValid times three
three-IsValid = record {
  counted = refl;
  positive = omega arith;
  fits = omega arith;
  bounded = omega arith;
  order = three-IsHeap;
}

push_run :
    heappush times true three 3 ≡ (true, record { heap = 1 ∷ 3 ∷ 2 ∷ 0 ∷ []; size = 4; max = 6 })
unfolding heappush sift_down sift_down_loop
push_run = refl

pop_run : pop_all times 3 three ≡ 1 ∷ 0 ∷ 2 ∷ []
unfolding pop_all heappop sift_up sift_up_loop sift_down sift_down_loop earlier_child
pop_run = refl

heappush-Pushed_example : Pushed times three 3 (heappush times true three 3)
heappush-Pushed_example = heappush-Pushed times true three 3 three-IsValid (omega arith)

heappop-Popped_example : Popped times three (heappop times three)
heappop-Popped_example = heappop-Popped times three three-IsValid

pop_all-Ascending_example :
    Ascending times (pop_all times 3 three) × Perm (pop_all times 3 three) three.heap
pop_all-Ascending_example = pop_all-Ascending times 3 three three-IsValid (omega arith)
