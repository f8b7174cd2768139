-- ===== src/Queue/Free.antt =====
-- meinheld/server/request.c: the end of a queue.
use meinheld.Base.{ℕ, zero, suc, ◌<◌, ◌≡◌, refl, Option, some, List, [], ◌∷◌, arith, length}
use meinheld.Queue.{RequestQueue, free_from, free_request_queue}
use meinheld.Queue.Order.{Linked, Holds}

free_from-Linked :
    (next : ℕ → Option ℕ) (rs : List ℕ) (fuel : ℕ) (p : Option ℕ)
    → Linked next p rs
    → length rs < fuel
    → free_from next fuel p ≡ some rs
unfolding free_from
free_from-Linked next rs zero p l h = absurd (omega (arith, h))
free_from-Linked next [] (suc fuel) p l h = rw l refl
free_from-Linked next (r ∷ rs) (suc fuel) p l h =
    rw (l.0, free_from-Linked next rs fuel (next r) l.1 (omega (arith, h))) refl

-- `free_request_queue` ends, and has freed each request of the queue once, in their order, with more
-- fuel than there are requests.
pub free_request_queue_lem :
    (q : RequestQueue) (rs : List ℕ) (fuel : ℕ)
    → Holds q rs
    → length rs < fuel
    → free_request_queue fuel q ≡ some rs
unfolding free_request_queue
free_request_queue_lem q rs fuel h enough = free_from-Linked q.next rs fuel q.head h.linked enough
