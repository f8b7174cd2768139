-- ===== src/Queue.antt =====
-- meinheld/server/request.c: the queue of the requests of a client.
pub mod Free
pub mod Order
mod Tests
use meinheld.Base.{ℕ, zero, suc, Option, none, some, List, [], ◌∷◌, ◌==◌, if◌then◌else◌}
use meinheld.Base.Int.{ℤ, pos, inc, dec}

-- `request_queue`, and the `next` of the requests, which are numbers; `none` is NULL.
-- There are fewer than 2 ^ 31 requests.
pub record RequestQueue : Type 0 where
  pub head : Option ℕ
  pub tail : Option ℕ
  pub size : ℤ
  pub next : ℕ → Option ℕ

-- `new_request_queue`, with memory at hand
unfoldable pub new_request_queue : RequestQueue
new_request_queue = record { head = none; tail = none; size = pos 0; next = λ r. none }

abbrev pub link : (ℕ → Option ℕ) → ℕ → ℕ → ℕ → Option ℕ
link next t req r = if r == t then some req else next r

-- The store of `push_request` at the end of the queue
unfoldable pub push_at : Option ℕ → RequestQueue → ℕ → RequestQueue
push_at none q req = record q { head = some req }
push_at (some t) q req = record q { next = link q.next t req }

-- `push_request`
unfoldable pub push_request : RequestQueue → ℕ → RequestQueue
unfolding push_at
push_request q req = record (push_at q.tail q req) { tail = some req; size = inc q.size }

-- `shift_request`; it leaves `tail` as it is.
unfoldable pub shift_at : Option ℕ → RequestQueue → Option ℕ × RequestQueue
shift_at none q = (none, q)
shift_at (some req) q = (some req, record q { head = q.next req; size = dec q.size })

unfoldable pub shift_request : RequestQueue → Option ℕ × RequestQueue
unfolding shift_at
shift_request q = shift_at q.head q

-- The loop of `free_request_queue`, from a request on: the requests that it frees, in order; `none`
-- when the fuel runs out.
unfoldable pub free_from : (ℕ → Option ℕ) → ℕ → Option ℕ → Option (List ℕ)
free_from next zero req = none
free_from next (suc fuel) none = some []
free_from next (suc fuel) (some req) = freed req (free_from next fuel (next req))
  where
    freed : ℕ → Option (List ℕ) → Option (List ℕ)
    freed req none = none
    freed req (some rest) = some (req ∷ rest)

-- `free_request_queue`
unfoldable pub free_request_queue : ℕ → RequestQueue → Option (List ℕ)
unfolding free_from
free_request_queue fuel q = free_from q.next fuel q.head
