-- ===== src/Hub/Invariant.antt =====
-- The scheduler's invariant, and that scheduling a call keeps it.
use mathlib.Core.List.{Perm}
use mathlib.Core.List.Perm
use native.Mathlib.Bridge.{le_prop}
use meinheld.Base.{
  ℕ, zero, suc, ◌+◌, ◌^◌, ◌≤◌, ◌<◌, ◌≡◌, refl, inl, inr, Bool, true, false, Option, none, some,
  List, [], ◌∷◌, ◌++◌, arith, Bool-cases, length, take, All, length-append, All-append, All-perm,
}
use meinheld.Base.Int.{ℤ, inc}
use meinheld.Timer.{TimerObject, new_timer}
use meinheld.Heapq
use meinheld.Heapq.{Heapq, u32, slot, parent, heappush, heappop}
use meinheld.Heapq.Queue.{Pushed, Popped, heappush-Pushed, heappop-Popped}
use meinheld.Hub.{
  Hub, Pendings, seconds_of, update, realloc_pendings, is_zero, pend_with, queue_with,
  internal_schedule_call,
}

-- Every queued pointer is in use; the heap is ordered by the times of its timers.
pub record IsValid (h : Hub) : Type 0 where
  pub heap : Heapq.Queue.IsValid (seconds_of h) h.timers
  pub counted : h.pendings.size ≡ length h.pendings.q
  pub fits : h.pendings.size ≤ h.pendings.max
  pub positive : 0 < h.pendings.max
  pub bounded : h.pendings.max ≤ 2 ^ 31
  pub known_timers : All (λ t. t < h.next) h.timers.heap
  pub known_pendings : All (λ t. t < h.next) h.pendings.q

All_slot {κ} : (P : ℕ → Type κ) (p : List ℕ) (i : ℕ) → All P p → i < length p → P (slot p i)
All_slot P [] i a h = absurd (omega arith)
All_slot P (x ∷ p) zero a h = a.0
All_slot P (x ∷ p) (suc i) a h = All_slot P p i a.1 (omega arith)

All-weaken : (n m : ℕ) (p : List ℕ) → n ≤ m → All (λ t. t < n) p → All (λ t. t < m) p
All-weaken n m [] h a = tt
All-weaken n m (x ∷ p) h a = (omega (arith, a.0), All-weaken n m p h a.1)

-- The order depends on the times of the timers in the heap alone.
pub same_seconds-IsValid :
    (f g : ℕ → ℕ) (q : Heapq)
    → ((i : ℕ) → i < length q.heap → f (slot q.heap i) ≡ g (slot q.heap i))
    → Heapq.Queue.IsValid f q
    → Heapq.Queue.IsValid g q
same_seconds-IsValid f g q same v = record {
  counted = v.counted;
  positive = v.positive;
  fits = v.fits;
  bounded = v.bounded;
  order = λ c a b. ground (arith, same c b, same (parent c), v.order c a b);
}

module _ (h : Hub) (v : IsValid h) (t : TimerObject) where
  made : Hub
  made = record h { objects = update h.objects h.next t; next = h.next + 1 }

  made-seconds :
      (i : ℕ)
      → i < length h.timers.heap
      → seconds_of h (slot h.timers.heap i) ≡ seconds_of made (slot h.timers.heap i)
  unfolding made
  made-seconds i b = ground (arith, All_slot _ h.timers.heap i v.known_timers b)

  made-heap : Heapq.Queue.IsValid (seconds_of made) h.timers
  made-heap = same_seconds-IsValid (seconds_of h) (seconds_of made) h.timers made-seconds v.heap

-- What `internal_schedule_call` leaves: on success the timer is new, is queued once, in the heap
-- or, for 0 seconds, at the end of the pending calls, and is counted; on failure nothing is queued.
abbrev pub Scheduled : ℤ → ℕ → Option ℕ → Hub → Option ℕ × Hub → Type 0
Scheduled s cb g h (none, h') =
    IsValid h' × (h'.timers ≡ h.timers) × (h'.pendings ≡ h.pendings) × (h'.activecnt ≡ h.activecnt)
Scheduled s cb g h (some t, h') =
    IsValid h'
    × (t ≡ h.next)
    × (h'.objects t ≡ new_timer h.current_msec s cb g)
    × (h'.activecnt ≡ inc h.activecnt)
    × (is_zero s ≡ true → (h'.timers ≡ h.timers) × (h'.pendings.q ≡ h.pendings.q ++ t ∷ []))
    × (is_zero s ≡ false → Perm h'.timers.heap (t ∷ h.timers.heap) × (h'.pendings ≡ h.pendings))

update_self : (objects : ℕ → TimerObject) (p : ℕ) (t : TimerObject) → update objects p t p ≡ t
update_self objects p t = ground arith

module _ (m : Bool) (s : ℤ) (cb : ℕ) (g : Option ℕ) (h : Hub) (v : IsValid h) where
  now_made : Hub
  unfolding made
  now_made = made h v (new_timer h.current_msec s cb g)

  now_made-IsValid : IsValid now_made
  unfolding now_made
  now_made-IsValid = record {
    heap = made-heap h v (new_timer h.current_msec s cb g);
    counted = v.counted;
    fits = v.fits;
    positive = v.positive;
    bounded = v.bounded;
    known_timers = All-weaken h.next (h.next + 1) h.timers.heap (omega arith) v.known_timers;
    known_pendings = All-weaken h.next (h.next + 1) h.pendings.q (omega arith) v.known_pendings;
  }

  realloc_room :
      (p : Pendings)
      → ◌≡◌ {A = Bool × Pendings} (true, p) (realloc_pendings m h.pendings)
      → h.pendings.size < 2 ^ 30
      → (p.q ≡ h.pendings.q)
        × (p.size ≡ h.pendings.size)
        × (h.pendings.size < p.max)
        × (p.max ≤ 2 ^ 31)
  unfolding realloc_pendings
  realloc_room p e b = ground (arith, v.fits, v.positive, v.bounded)

  pended :
      (r : Bool × Pendings)
      → r ≡ realloc_pendings m h.pendings
      → h.pendings.size < 2 ^ 30
      → is_zero s ≡ true
      → Scheduled s cb g h (pend_with r h.next now_made)
  unfolding realloc_pendings now_made pend_with
  pended (false, p) e b z = (now_made-IsValid, refl, refl, refl)
  pended (true, p) e b z =
      let r = realloc_room p e b in
      (
        record {
          heap = made-heap h v (new_timer h.current_msec s cb g);
          counted =
              rw (r.0, r.1) (omega (arith, v.counted, length-append h.pendings.q (h.next ∷ [])));
          fits = rw r.1 (omega (arith, r.2));
          positive = omega (arith, r.2);
          bounded = r.3;
          known_timers = now_made-IsValid.known_timers;
          known_pendings = rw r.0 (
              All-append _ h.pendings.q (h.next ∷ []) now_made-IsValid.known_pendings
                (omega arith));
        },
        refl,
        update_self h.objects h.next _,
        refl,
        (λ _. (refl, rw r.0)),
        λ f. cc,
      )

  queued :
      (r : Bool × Heapq)
      → Pushed (seconds_of now_made) h.timers h.next r
      → is_zero s ≡ false
      → Scheduled s cb g h (queue_with r h.next now_made)
  unfolding now_made queue_with
  queued (false, q) e z = (now_made-IsValid, refl, refl, refl)
  queued (true, q) e z = (
    record {
      heap = e.0;
      counted = v.counted;
      fits = v.fits;
      positive = v.positive;
      bounded = v.bounded;
      known_timers =
          All-perm _ (λ t. le_prop) (Perm.symm e.1) (omega arith, now_made-IsValid.known_timers);
      known_pendings = now_made-IsValid.known_pendings;
    },
    refl,
    update_self h.objects h.next _,
    refl,
    (λ f. cc),
    λ _. (e.1, refl),
  )

  -- On a valid state with fewer than 2^30 timers and pending calls, `internal_schedule_call` keeps the
  -- state valid. If it succeeds, a new timer is queued once, in the heap or, for 0 seconds, at the end
  -- of the pending calls, and is counted as active; if it fails nothing is queued or counted.
  pub internal_schedule_call-Scheduled :
      h.pendings.size < 2 ^ 30
      → h.timers.size < 2 ^ 30
      → Scheduled s cb g h (internal_schedule_call m s cb g h)
  unfolding internal_schedule_call now_made
  internal_schedule_call-Scheduled b c = elim (Bool-cases (is_zero s)) [
    | inl z ↦ rw z (pended (realloc_pendings m h.pendings) refl b z)
    | inr z ↦
        rw z
          (queued _ (heappush-Pushed (seconds_of now_made) m h.timers h.next (made-heap h v _) c) z)
  ]

pub All-take {κ} : (P : ℕ → Type κ) (n : ℕ) (p : List ℕ) → All P p → All P (take n p)
All-take P zero p a = tt
All-take P (suc n) [] a = tt
All-take P (suc n) (x ∷ p) a = (a.0, All-take P n p a.1)
