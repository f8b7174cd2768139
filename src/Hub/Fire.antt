-- ===== src/Hub/Fire.antt =====
-- The loops that make the scheduled calls.
use mathlib.Core.List.Perm
use native.Mathlib.Bridge.{le_prop}
use meinheld.Base.{
  ℕ, zero, suc, ◌+◌, ◌-◌, ◌/◌, ◌≤◌, ◌<◌, ◌≡◌, refl, inl, inr, Bool, true, false, ◌&&◌, Option, none,
  some, arith, ltb, leb, Bool-cases, take, All, length-take, All-by_index, All-perm, length-perm,
}
use meinheld.Base.Int.{is_positive, dec}
use meinheld.Heapq.{Heapq, slot, heappop}
use meinheld.Heapq.Queue.{Popped, heappop-Popped, root_least_below}
use meinheld.Hub.{Hub, seconds_of, fire_timer, fire_popped, fire_due, fire_timers}
use meinheld.Hub.Invariant.{IsValid, same_seconds-IsValid, All-take}

-- A timer that was made or cancelled before is not called again, and nothing else changes.
pub fire_timer-called :
    (run : ℕ → Hub → Hub × Bool) (timer : ℕ) (h : Hub)
    → (h.objects timer).called ≡ true
    → fire_timer run timer h ≡ (h, false)
unfolding fire_timer
fire_timer-called run timer h e = rw e

Popped-IsValid :
    (h : Hub) (t : ℕ) (q : Heapq)
    → IsValid h
    → Popped (seconds_of h) h.timers (some t, q)
    → IsValid (record h { timers = q })
Popped-IsValid h t q v p = record {
  heap = p.0;
  counted = v.counted;
  fits = v.fits;
  positive = v.positive;
  bounded = v.bounded;
  known_timers = (All-perm _ (λ u. le_prop) (Perm.symm p.1) v.known_timers).1;
  known_pendings = v.known_pendings;
}

popped_pending-IsValid :
    (h : Hub)
    → IsValid h
    → IsValid (record h {
      pendings = record h.pendings {
        q = take (h.pendings.size - 1) h.pendings.q;
        size = h.pendings.size - 1;
      };
    })
popped_pending-IsValid h v = record {
  heap = v.heap;
  counted = omega (arith, v.counted, length-take (h.pendings.size - 1) h.pendings.q);
  fits = omega (arith, v.fits);
  positive = v.positive;
  bounded = v.bounded;
  known_timers = v.known_timers;
  known_pendings = All-take _ (h.pendings.size - 1) h.pendings.q v.known_pendings;
}

counted-IsValid : (h : Hub) → IsValid h → IsValid (record h { activecnt = dec h.activecnt })
counted-IsValid h v = record {
  heap = v.heap;
  counted = v.counted;
  fits = v.fits;
  positive = v.positive;
  bounded = v.bounded;
  known_timers = v.known_timers;
  known_pendings = v.known_pendings;
}

-- No timer in the heap is due.
abbrev pub NoneDue : ℕ → Hub → Type 0
NoneDue now h = All (λ t. now < seconds_of h t) h.timers.heap

-- A loop that ends with no exception, while the server runs and has active events, leaves no
-- timer that was due at `now`.
abbrev pub Stopped : ℕ → Option (Bool × Hub) → Type 0
Stopped now none = Unit
Stopped now (some (ok, h)) =
    IsValid h × (ok ≡ true → h.loop_done ≡ true → is_positive h.activecnt ≡ true → NoneDue now h)

none_in : (now : ℕ) (h : Hub) → IsValid h → h.timers.size ≡ 0 → NoneDue now h
none_in now h v e = All-by_index _ 0 h.timers.heap (λ i b. absurd (omega (arith, v.heap.counted)))

first_late :
    (now : ℕ) (h : Hub) → IsValid h → now < seconds_of h (slot h.timers.heap 0) → NoneDue now h
first_late now h v late = All-by_index _ 0 h.timers.heap (λ i b. omega (
  arith,
  late,
  root_least_below (seconds_of h) (suc i) h.timers.heap i v.heap.order (omega arith) b,
))

module _ (run : ℕ → Hub → Hub × Bool)
    (keeps : (t : ℕ) (h : Hub) → IsValid h → IsValid (run t h).0) where
  fire_timer-IsValid : (timer : ℕ) (h : Hub) → IsValid h → IsValid (fire_timer run timer h).0
  unfolding fire_timer
  fire_timer-IsValid timer h v = elim (Bool-cases (h.objects timer).called) [
    | inl old ↦ rw old v
    | inr new ↦ rw new (
        keeps timer _ (record {
          heap = same_seconds-IsValid _ _ h.timers (λ i b. ground arith) v.heap;
          counted = v.counted;
          fits = v.fits;
          positive = v.positive;
          bounded = v.bounded;
          known_timers = v.known_timers;
          known_pendings = v.known_pendings;
        }))
  ]

  fire_popped-IsValid :
      (h : Hub) (r : Option ℕ × Heapq)
      → IsValid h
      → Popped (seconds_of h) h.timers r
      → 0 < h.timers.size
      → IsValid (fire_popped run r.0 (record h { timers = r.1 })).0
  fire_popped-IsValid h (none, q) v p b = absurd (omega arith)
  fire_popped-IsValid h (some t, q) v p b = fire_timer-IsValid t _ (Popped-IsValid h t q v p)

  fire_due-Stopped : (fuel now : ℕ) (h : Hub) → IsValid h → Stopped now (fire_due run fuel now h)
  unfolding fire_due
  fire_due-Stopped zero now h v = tt
  fire_due-Stopped (suc fuel) now h v =
      elim (Bool-cases (ltb 0 h.timers.size && h.loop_done && is_positive h.activecnt)) [
        | inr stop ↦ rw stop (v, λ _ l a. none_in now h v (ground arith))
        | inl go ↦ rw go (elim (Bool-cases (leb (seconds_of h (slot h.timers.heap 0)) now)) [
          | inr late ↦ rw late (v, λ _ l a. first_late now h v (ground arith))
          | inl due ↦ rw due (
              let v' = counted-IsValid _ (
                fire_popped-IsValid h (heappop (seconds_of h) h.timers) v
                  (heappop-Popped (seconds_of h) h.timers v.heap) (ground arith)) in
              elim (Bool-cases
                (fire_popped run (heappop (seconds_of h) h.timers).0
                  (record h { timers = (heappop (seconds_of h) h.timers).1 })).1) [
                    | inl raised ↦ rw raised (v', λ e. cc)
                    | inr fine ↦ rw fine (fire_due-Stopped fuel now _ v')
                  ])
        ])
      ]

  -- Callbacks that schedule nothing new with a delay.
  module _ (no_growth : (t : ℕ) (h : Hub) → (run t h).0.timers.size ≤ h.timers.size) where
    fire_timer-size : (timer : ℕ) (h : Hub) → (fire_timer run timer h).0.timers.size ≤ h.timers.size
    unfolding fire_timer
    fire_timer-size timer h = elim (Bool-cases (h.objects timer).called) [
      | inl old ↦ rw old (omega arith)
      | inr new ↦ rw new (no_growth timer _)
    ]

    fire_popped-size :
        (h : Hub) (r : Option ℕ × Heapq)
        → IsValid h
        → Popped (seconds_of h) h.timers r
        → 0 < h.timers.size
        → (fire_popped run r.0 (record h { timers = r.1 })).0.timers.size < h.timers.size
    fire_popped-size h (none, q) v p b = absurd (omega arith)
    fire_popped-size h (some t, q) v p b = omega (
      arith,
      fire_timer-size t (record h { timers = q }),
      length-perm p.1,
      p.0.counted,
      v.heap.counted,
    )

    fire_due-total :
        (fuel now : ℕ) (h : Hub)
        → IsValid h
        → h.timers.size < fuel
        → (r : Bool × Hub) × (fire_due run fuel now h ≡ some r)
    unfolding fire_due
    fire_due-total zero now h v b = absurd (omega arith)
    fire_due-total (suc fuel) now h v b =
        elim (Bool-cases (ltb 0 h.timers.size && h.loop_done && is_positive h.activecnt)) [
          | inr stop ↦ rw stop ((true, h), refl)
          | inl go ↦ rw go (elim (Bool-cases (leb (seconds_of h (slot h.timers.heap 0)) now)) [
            | inr late ↦ rw late ((true, h), refl)
            | inl due ↦ rw due (
                let p = heappop-Popped (seconds_of h) h.timers v.heap in
                let some_left : 0 < h.timers.size = ground arith in
                let v' =
                  counted-IsValid _
                    (fire_popped-IsValid h (heappop (seconds_of h) h.timers) v p some_left) in
                let smaller = fire_popped-size h (heappop (seconds_of h) h.timers) v p some_left in
                elim (Bool-cases
                  (fire_popped run (heappop (seconds_of h) h.timers).0
                    (record h { timers = (heappop (seconds_of h) h.timers).1 })).1) [
                      | inl raised ↦ rw raised (_, refl)
                      | inr fine ↦ rw fine (fire_due-total fuel now _ v' (omega arith))
                    ])
          ])
        ]

    -- If callbacks keep the invariant and add no timers, `fire_timers` ends after at most one round
    -- for each timer in the heap; it keeps the invariant, and if it ends without an exception,
    -- while the server runs and has active events, no timer that is left was due when it began.
    pub fire_timers_lem :
        (h : Hub)
        → IsValid h
        → (r : Bool × Hub) × (fire_timers run (h.timers.size + 1) h ≡ some r)
          × Stopped (h.current_msec / 1000) (some r)
    unfolding fire_timers
    fire_timers_lem h v =
        let (r, e) = fire_due-total (h.timers.size + 1) (h.current_msec / 1000) h v (omega arith) in
        (r, e, rw e at (fire_due-Stopped (h.timers.size + 1) (h.current_msec / 1000) h v))
