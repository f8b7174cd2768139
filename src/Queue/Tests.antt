-- ===== src/Queue/Tests.antt =====
-- The queue's theorems at queues of one and two requests.
use meinheld.Base.{◌≡◌, refl, none, some, [], ◌∷◌, arith, ◌==◌, if◌then◌else◌}
use meinheld.Base.Int.{pos}
use meinheld.Queue.{RequestQueue, new_request_queue, push_request, shift_request}
use meinheld.Queue.Order.{
  Holds, new_request_queue-Holds, push_request-Holds, shift_request-Holds, push_request-lost,
}

abbrev one : RequestQueue
one = record { head = some 1; tail = some 1; size = pos 1; next = λ r. none }

one-Holds : Holds one (1 ∷ [])
one-Holds = record { linked = (refl, refl); ends = refl; distinct = (tt, tt); counted = refl }

abbrev two : RequestQueue
two = record {
  head = some 1;
  tail = some 2;
  size = pos 2;
  next = λ r. if r == 1 then some 2 else none;
}

two-Holds : Holds two (1 ∷ 2 ∷ [])
two-Holds = record {
  linked = (refl, (refl, refl));
  ends = refl;
  distinct = (((λ e. omega (arith, e)), tt), (tt, tt));
  counted = refl;
}

fresh-Holds : Holds new_request_queue []
fresh-Holds = new_request_queue-Holds

push_request-Holds_example : Holds (push_request one 2) (1 ∷ 2 ∷ [])
push_request-Holds_example =
    push_request-Holds one (1 ∷ []) 2 one-Holds refl ((λ e. omega (arith, e)), tt)

shift_request-Holds_example :
    ((shift_request two).0 ≡ some 1) × Holds (shift_request two).1 (2 ∷ [])
shift_request-Holds_example = shift_request-Holds two 1 2 [] two-Holds

push_request-lost_example : (shift_request (push_request (shift_request one).1 2)).0 ≡ none
push_request-lost_example = push_request-lost one 1 2 one-Holds
