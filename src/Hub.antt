-- ===== src/Hub.antt =====
-- meinheld/server/server.c: scheduled calls, and the two loops that make them.
pub mod Invariant
pub mod Fire
pub mod Greenlet
mod Tests
use meinheld.Base.{
  ℕ, zero, suc, ◌+◌, ◌-◌, ◌*◌, ◌/◌, ◌%◌, ◌^◌, ◌≤◌, ◌<◌, min, max, ◌≡◌, refl, sym, ap, ◌∙◌, ◌≢◌, ◌↔◌,
  ◌⊎◌, inl, inr, Bool, true, false, not, ◌&&◌, ◌||◌, Option, none, some, List, [], ◌∷◌, ◌++◌,
  append-nil, append_assoc, arith, ltb, leb, ◌==◌, if◌then◌else◌, ==_iff, Bool-cases, Option-cases,
  length, get_elem?, get_or, set, take, drop, replicate, All, length-append, length-set,
  length-take, length-drop, take_all, drop_all, take-append, take-append-drop, take-take, drop-drop,
  get_or-set, set-perm, move-perm, set-get_or, set-set, All-append, All-by_index, All-perm,
  length-perm, get_or-append, get_or-take, concat-perm, take-append-last,
}
use meinheld.Base.Int.{ℤ, pos, negsuc, inc, dec, is_positive, int32}
use meinheld.Timer.{TimerObject, new_timer}
use meinheld.Heapq.{Heapq, u32, slot, heappush, heappop}

-- `pending_queue_t`. `q` are the first `size` slots of the array.
pub record Pendings : Type 0 where
  pub q : List ℕ
  pub size : ℕ
  pub max : ℕ

-- The globals that the scheduler works on, and the timer objects behind their pointers: the
-- pointers below `next` are in use. `calls` lists the callbacks that were made, the last first.
pub record Hub : Type 0 where
  pub objects : ℕ → TimerObject
  pub next : ℕ
  pub timers : Heapq
  pub pendings : Pendings
  pub activecnt : ℤ
  pub loop_done : Bool
  pub current_msec : ℕ
  pub calls : List ℕ

abbrev pub seconds_of : Hub → ℕ → ℕ
seconds_of h t = (h.objects t).seconds

abbrev pub update : (ℕ → TimerObject) → ℕ → TimerObject → ℕ → TimerObject
update objects p v t = if p == t then v else objects t

-- `init_pendings`, with memory at hand
pub init_pendings : Pendings
init_pendings = record { q = []; size = 0; max = 1024 }

-- `realloc_pendings`; `false` is -1. The first argument says whether `realloc` has memory.
pub realloc_pendings : Bool → Pendings → Bool × Pendings
realloc_pendings has_memory p =
    if leb p.max p.size
    then (if has_memory then (true, record p { max = u32 (p.max * 2) }) else (false, p))
    else (true, p)

abbrev pub is_zero : ℤ → Bool
is_zero (pos n) = n == 0
is_zero (negsuc n) = false

-- The ends of the two branches of `internal_schedule_call`.
pub pend_with : Bool × Pendings → ℕ → Hub → Option ℕ × Hub
pend_with (false, p) timer h = (none, h)
pend_with (true, p) timer h = (
  some timer,
  record h {
    pendings = record p { q = p.q ++ timer ∷ []; size = u32 (p.size + 1) };
    activecnt = inc h.activecnt;
  },
)

pub queue_with : Bool × Heapq → ℕ → Hub → Option ℕ × Hub
queue_with (false, timers) timer h = (none, h)
queue_with (true, timers) timer h =
    (some timer, record h { timers = timers; activecnt = inc h.activecnt })

-- `internal_schedule_call`; `none` is NULL. The first argument says whether `realloc` has memory.
pub internal_schedule_call : Bool → ℤ → ℕ → Option ℕ → Hub → Option ℕ × Hub
internal_schedule_call has_memory seconds callback greenlet h =
    let timer = h.next in
    let made = record h {
      objects = update h.objects timer (new_timer h.current_msec seconds callback greenlet);
      next = h.next + 1;
    } in
    if is_zero seconds
    then pend_with (realloc_pendings has_memory h.pendings) timer made
    else queue_with (heappush (seconds_of made) has_memory h.timers timer) timer made

-- The Python code of a callback or a greenlet: what it makes of the globals, and whether it leaves
-- an exception.
module _ (run : ℕ → Hub → Hub × Bool) where
  -- `fire_timer`, and whether `PyErr_Occurred` after it
  unfoldable pub fire_timer : ℕ → Hub → Hub × Bool
  fire_timer timer h =
      let t = h.objects timer in
      let marked = record h {
        objects = update h.objects timer (record t { called = true });
        calls = timer ∷ h.calls;
      } in
      if t.called then (h, false) else run timer marked

  -- `fire_pendings`: `none` when the fuel runs out; `false` is -1.
  unfoldable pub fire_pendings : ℕ → Hub → Option (Bool × Hub)
  fire_pendings zero h = none
  fire_pendings (suc fuel) h =
      let p = h.pendings in
      let popped = record h {
        pendings = record p { q = take (p.size - 1) p.q; size = p.size - 1 };
      } in
      let (fired, raised) = fire_timer (slot p.q (p.size - 1)) popped in
      let after = record fired { activecnt = dec fired.activecnt } in
      let rest = fire_pendings fuel after in
      if ltb 0 p.size && h.loop_done && is_positive h.activecnt
      then (if raised then some (false, after) else rest)
      else some (true, h)

  -- The queue is not empty here, so `heappop` gives a timer.
  abbrev fire_popped : Option ℕ → Hub → Hub × Bool
  fire_popped none h = (h, false)
  fire_popped (some timer) h = fire_timer timer h

  -- The loop of `fire_timers`, with the `now` that it reads at its start.
  unfoldable pub fire_due : ℕ → ℕ → Hub → Option (Bool × Hub)
  fire_due zero now h = none
  fire_due (suc fuel) now h =
      let (first, timers) = heappop (seconds_of h) h.timers in
      let (fired, raised) = fire_popped first (record h { timers = timers }) in
      let after = record fired { activecnt = dec fired.activecnt } in
      let rest = fire_due fuel now after in
      if ltb 0 h.timers.size && h.loop_done && is_positive h.activecnt
      then (if leb (seconds_of h (slot h.timers.heap 0)) now
          then (if raised then some (false, after) else rest)
          else some (true, h))
      else some (true, h)

  -- `fire_timers`
  unfoldable pub fire_timers : ℕ → Hub → Option (Bool × Hub)
  fire_timers fuel h = fire_due fuel (h.current_msec / 1000) h

-- What `schedule_call` may be handed.
pub data PyArg : Type 0 where
  integer : ℤ → PyArg
  callable : ℕ → PyArg
  other : PyArg

pub data CallError : Type 0 where
  too_few_arguments not_an_integer not_callable overflow out_of_range no_memory : CallError

pub data CallResult : Type 0 where
  scheduled : ℕ → CallResult
  failed : CallError → CallResult

-- The seconds are a `long` here and an `int` in `internal_schedule_call`.
schedule_seconds : Bool → ℤ → ℕ → Hub → CallResult × Hub
schedule_seconds has_memory (negsuc n) cb h =
    (failed (if leb n (2 ^ 63 - 1) then out_of_range else overflow), h)
schedule_seconds has_memory (pos n) cb h =
    let (timer, h') = internal_schedule_call has_memory (int32 n) cb none h in
    let result : CallResult = elim timer [ none ↦ failed no_memory | some t ↦ scheduled t ] in
    if ltb n (2 ^ 63) then (result, h') else (failed overflow, h)

-- `meinheld_schedule_call`; further arguments belong to the callback.
pub schedule_call : Bool → List PyArg → Hub → CallResult × Hub
schedule_call has_memory [] h = (failed too_few_arguments, h)
schedule_call has_memory (sec ∷ []) h = (failed too_few_arguments, h)
schedule_call has_memory (integer s ∷ callable cb ∷ _) h = schedule_seconds has_memory s cb h
schedule_call has_memory (integer s ∷ cb ∷ _) h = (failed not_callable, h)
schedule_call has_memory (sec ∷ cb ∷ _) h = (failed not_an_integer, h)
