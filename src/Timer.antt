-- ===== src/Timer.antt =====
-- meinheld/server/timer.c: the timer objects.
use meinheld.Base.{ℕ, ◌+◌, ◌/◌, Bool, true, false, not, Option, none, some, ltb, if◌then◌else◌}
use meinheld.Base.Int.{ℤ, pos, negsuc}

-- `TimerObject`. `callback` stands for the callback with its arguments.
pub record TimerObject : Type 0 where
  pub seconds : ℕ
  pub called : Bool
  pub callback : ℕ
  pub greenlet : Option ℕ

-- `TimerObject_new`, with the clock `current_msec`
pub new_timer : ℕ → ℤ → ℕ → Option ℕ → TimerObject
new_timer current_msec (pos n) callback greenlet = record {
  seconds = if ltb 0 n then current_msec / 1000 + n else 0;
  called = false;
  callback = callback;
  greenlet = greenlet;
}
new_timer current_msec (negsuc n) callback greenlet = record {
  seconds = 0;
  called = false;
  callback = callback;
  greenlet = greenlet;
}

-- `is_active_timer`; `none` is NULL.
pub is_active_timer : Option TimerObject → Bool
is_active_timer none = false
is_active_timer (some timer) = not timer.called

-- `TimerObject_cancel`
pub cancel : TimerObject → TimerObject
cancel timer = record timer { called = true }
