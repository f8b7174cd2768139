-- ===== src/Queue/Order.antt =====
-- The queue gives requests back in the order in which they came, until it is empty.
use meinheld.Base.{
  ℕ, ◌≡◌, refl, sym, ap, ◌∙◌, ◌≢◌, true, false, Option, none, some, List, [], ◌∷◌, ◌++◌, arith,
  ◌==◌, length, All, length-append, All-append,
}
use meinheld.Base.Int.{pos, inc, dec}
use meinheld.Queue.{
  new_request_queue, RequestQueue, link, push_at, push_request, shift_at, shift_request,
}

-- The requests from a pointer on are these.
abbrev pub Linked : (ℕ → Option ℕ) → Option ℕ → List ℕ → Type 0
Linked next p [] = p ≡ none
Linked next p (r ∷ rs) = (p ≡ some r) × Linked next (next r) rs

abbrev pub last : List ℕ → Option ℕ
last [] = none
last (r ∷ []) = some r
last (r ∷ s ∷ rs) = last (s ∷ rs)

abbrev pub Distinct : List ℕ → Type 0
Distinct [] = Unit
Distinct (r ∷ rs) = All (λ s. r ≢ s) rs × Distinct rs

-- The queue holds these requests, in order, and `tail` is the last of them.
pub record Holds (q : RequestQueue) (rs : List ℕ) : Type 0 where
  pub linked : Linked q.next q.head rs
  pub ends : q.tail ≡ last rs
  pub distinct : Distinct rs
  pub counted : q.size ≡ pos (length rs)

-- A new queue is empty.
pub new_request_queue-Holds : Holds new_request_queue []
unfolding new_request_queue
new_request_queue-Holds = record { linked = refl; ends = refl; distinct = tt; counted = refl }

last-append : (rs : List ℕ) (req : ℕ) → last (rs ++ req ∷ []) ≡ some req
last-append [] req = refl
last-append (r ∷ []) req = refl
last-append (r ∷ s ∷ rs) req = last-append (s ∷ rs) req

not_last : (r t : ℕ) (rs : List ℕ) → All (λ s. r ≢ s) rs → last rs ≡ some t → r ≢ t
not_last r t [] h e = absurd (cc e)
not_last r t (s ∷ []) h e = let same : s ≡ t = some_inj s t e in λ k. h.0 (k ∙ sym same)
  where
    some_inj : (a b : ℕ) → some a ≡ some b → a ≡ b
    some_inj a b e = cc e
not_last r t (s ∷ u ∷ rs) h e = not_last r t (u ∷ rs) h.1 e

-- A link at the last request puts a new one behind it.
link-last-Linked :
    (next : ℕ → Option ℕ) (t req : ℕ) (p : Option ℕ) (rs : List ℕ)
    → last rs ≡ some t
    → Distinct rs
    → next req ≡ none
    → All (λ s. s ≢ req) rs
    → Linked next p rs
    → Linked (link next t req) p (rs ++ req ∷ [])
link-last-Linked next t req p [] e d n f l = absurd (cc e)
link-last-Linked next t req p (r ∷ []) e d n f l =
    let same : r ≡ t = cc e in
    let here : (r == t) ≡ true = ground (arith, same) in
    let other : (req == t) ≡ false = ground (arith, f.0, same) in (l.0, (rw here refl, rw other n))
link-last-Linked next t req p (r ∷ s ∷ rs) e d n f l =
    let other : (r == t) ≡ false = ground (arith, not_last r t (s ∷ rs) d.0 e) in
    let rest = link-last-Linked next t req (next r) (s ∷ rs) e d.1 n f.1 l.1 in (l.0, rw other rest)

Distinct-append :
    (rs : List ℕ) (req : ℕ) → Distinct rs → All (λ s. s ≢ req) rs → Distinct (rs ++ req ∷ [])
Distinct-append [] req d f = (tt, tt)
Distinct-append (r ∷ rs) req d f =
    (All-append (λ s. r ≢ s) rs (req ∷ []) d.0 (f.0, tt), Distinct-append rs req d.1 f.1)

last-some : (r : ℕ) (rs : List ℕ) → (t : ℕ) × (last (r ∷ rs) ≡ some t)
last-some r [] = (r, refl)
last-some r (s ∷ rs) = last-some s rs

-- A request that is not in the queue and has no next one is put at its end.
pub push_request-Holds :
    (q : RequestQueue) (rs : List ℕ) (req : ℕ)
    → Holds q rs
    → q.next req ≡ none
    → All (λ s. s ≢ req) rs
    → Holds (push_request q req) (rs ++ req ∷ [])
unfolding push_request push_at
push_request-Holds q [] req h n f =
    rw h.ends
      (record { linked = (refl, n); ends = refl; distinct = (tt, tt); counted = ap inc h.counted })
push_request-Holds q (r ∷ rs) req h n f =
    let (t, e) = last-some r rs in
    rw (h.ends ∙ e) (record {
      linked = link-last-Linked q.next t req q.head (r ∷ rs) e h.distinct n f h.linked;
      ends = sym (last-append (r ∷ rs) req);
      distinct = Distinct-append (r ∷ rs) req h.distinct f;
      counted = ap inc h.counted ∙ ap pos (omega (arith, length-append (r ∷ rs) (req ∷ [])));
    })

-- `shift_request` gives the first of two requests or more, and the queue holds the others.
pub shift_request-Holds :
    (q : RequestQueue) (r s : ℕ) (rs : List ℕ)
    → Holds q (r ∷ s ∷ rs)
    → ((shift_request q).0 ≡ some r) × Holds (shift_request q).1 (s ∷ rs)
unfolding shift_request shift_at
shift_request-Holds q r s rs h = rw h.linked.0 (
  refl,
  record {
    linked = h.linked.1;
    ends = h.ends;
    distinct = h.distinct.1;
    counted = ap dec h.counted;
  },
)

-- `shift_request` of the only request leaves `tail` at it: a request that is pushed next is not in
-- the queue.
pub push_request-lost :
    (q : RequestQueue) (r req : ℕ)
    → Holds q (r ∷ [])
    → (shift_request (push_request (shift_request q).1 req)).0 ≡ none
unfolding shift_request shift_at push_request push_at
push_request-lost q r req h = rw (h.linked.0, h.ends, h.linked.1) refl
