-- ===== src/Hub/Tests.antt =====
-- Runs of the scheduler, and its theorems at concrete states.
use meinheld.Base.{
  ℕ, zero, suc, ◌-◌, ◌/◌, ◌≤◌, ◌<◌, ◌≡◌, refl, Bool, true, false, none, some, [], ◌∷◌, arith,
  get_or,
}
use meinheld.Base.Int.{pos}
use meinheld.Timer.{TimerObject}
use meinheld.Heapq
use meinheld.Heapq.{Heapq}
use meinheld.Hub.{Hub, seconds_of, internal_schedule_call, fire_timers}
use meinheld.Hub.Invariant.{IsValid, Scheduled, internal_schedule_call-Scheduled}
use meinheld.Hub.Fire.{Stopped, fire_timers_lem}

abbrev timer_at : ℕ → TimerObject
timer_at s = record { seconds = s; called = false; callback = s; greenlet = none }

-- Timers 0 and 1 wait for the seconds 3 and 20, timer 2 is pending, and it is second 10.
abbrev waiting : Hub
waiting = record {
  objects = λ t. timer_at (get_or (3 ∷ 20 ∷ []) t 0);
  next = 3;
  timers = record { heap = 0 ∷ 1 ∷ []; size = 2; max = 4 };
  pendings = record { q = 2 ∷ []; size = 1; max = 4 };
  activecnt = pos 5;
  loop_done = true;
  current_msec = 10_500;
  calls = [];
}

abbrev quiet : ℕ → Hub → Hub × Bool
quiet t h = (h, false)

waiting-heap : Heapq.Queue.IsValid (seconds_of waiting) waiting.timers
waiting-heap = record {
  counted = refl;
  positive = omega arith;
  fits = omega arith;
  bounded = omega arith;
  order = order;
}
  where
    order :
        (c : ℕ)
        → 0 < c
        → c < 2
        → seconds_of waiting (get_or (0 ∷ 1 ∷ []) ((c - 1) / 2) 0)
          ≤ seconds_of waiting (get_or (0 ∷ 1 ∷ []) c 0)
    order zero a b = absurd (omega arith)
    order (suc zero) a b = omega arith
    order (suc (suc c)) a b = absurd (omega arith)

waiting-IsValid : IsValid waiting
waiting-IsValid = record {
  heap = waiting-heap;
  counted = refl;
  fits = omega arith;
  positive = omega arith;
  bounded = omega arith;
  known_timers = omega arith;
  known_pendings = omega arith;
}

internal_schedule_call-Scheduled_example :
    Scheduled (pos 4) 7 none waiting (internal_schedule_call true (pos 4) 7 none waiting)
internal_schedule_call-Scheduled_example =
    internal_schedule_call-Scheduled true (pos 4) 7 none waiting waiting-IsValid (omega arith)
      (omega arith)

fire_timers_lem_example :
    (r : Bool × Hub) × (fire_timers quiet 3 waiting ≡ some r) × Stopped 10 (some r)
fire_timers_lem_example =
    fire_timers_lem quiet (λ t h v. v) (λ t h. omega arith) waiting waiting-IsValid
