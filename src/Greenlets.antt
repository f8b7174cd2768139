-- ===== src/Greenlets.antt =====
-- meinheld/server/server.c: greenlets that wait for a descriptor, for a time, or to be resumed.
pub mod Watches
pub mod Awake
pub mod Reach
pub mod Methods
mod Tests
use meinheld.Base.{
  ℕ, zero, suc, ◌+◌, ◌-◌, ◌*◌, ◌/◌, ◌%◌, ◌^◌, ◌≤◌, ◌<◌, min, max, ◌≡◌, refl, sym, ap, ◌∙◌, ◌≢◌, ◌↔◌,
  ◌⊎◌, inl, inr, Bool, true, false, not, ◌&&◌, ◌||◌, Option, none, some, List, [], ◌∷◌, ◌++◌,
  append-nil, append_assoc, arith, ltb, leb, ◌==◌, if◌then◌else◌, ==_iff, if-Q, Bool-cases,
  Option-cases, length, get_elem?, get_or, set, take, drop, replicate, All, length-append,
  length-set, length-take, length-drop, take_all, drop_all, take-append, take-append-drop,
  take-take, drop-drop, get_or-set, set-perm, move-perm, set-get_or, set-set, All-append,
  All-by_index, All-perm, length-perm, get_or-append, get_or-take, concat-perm, take-append-last,
  codes, bytes_eq, bytes_eq_iff, take_until, to_upper, drop-append-long, drop-append-short,
}
use meinheld.Base.Int.{ℤ, pos, negsuc, inc, dec}
use meinheld.FreeList.{put}
use meinheld.FreeList.Pools.{ClientObject}

-- PICOEV_READ, PICOEV_WRITE, both, or PICOEV_TIMEOUT alone
pub data Events : Type 0 where
  on_read on_write on_readwrite on_timeout : Events

-- What the loop calls, with its argument: `trampoline_callback` with a client object or a greenlet,
-- `timeout_error_callback` and `timeout_callback` with a client object
pub data Callback : Type 0 where
  trampoline_client trampoline_greenlet timeout_error timeout_call : ℕ → Callback

pub record Watch : Type 0 where
  pub events : Events
  pub timeout : ℕ
  pub callback : Callback

-- What a greenlet is resumed with: the arguments of its switch, or an exception
pub data Resumption : Type 0 where
  with_args : Option ℕ → Option ℕ → Resumption
  with_error : Resumption

-- The descriptors that the loop watches for greenlets, the count, the client objects, the
-- descriptors of their clients, and the greenlets that were resumed, the last first.
pub record Loop : Type 0 where
  pub watched : List (ℕ × Watch)
  pub activecnt : ℤ
  pub objects : ℕ → ClientObject
  pub fd_of : ℕ → ℕ
  pub resumed : List (Option ℕ × Resumption)

unfoldable pub find : ℕ → List (ℕ × Watch) → Option Watch
find fd [] = none
find fd ((g, v) ∷ ws) = if g == fd then some v else find fd ws

unfoldable pub place : ℕ → Watch → List (ℕ × Watch) → List (ℕ × Watch)
place fd w [] = (fd, w) ∷ []
place fd w ((g, v) ∷ ws) = if g == fd then (fd, w) ∷ ws else (g, v) ∷ place fd w ws

unfoldable pub remove : ℕ → List (ℕ × Watch) → List (ℕ × Watch)
remove fd [] = []
remove fd ((g, v) ∷ ws) = if g == fd then ws else (g, v) ∷ remove fd ws

abbrev pub add_count : Option Watch → ℤ → ℤ
add_count none n = inc n
add_count (some v) n = n

abbrev pub del_count : Option Watch → ℤ → ℤ
del_count none n = n
del_count (some v) n = dec n

-- `picoev_add`, which succeeds, with the count for a descriptor that was not active
unfoldable pub add_watch : ℕ → Watch → Loop → Loop
unfolding place
add_watch fd w l = record l {
  watched = place fd w l.watched;
  activecnt = add_count (find fd l.watched) l.activecnt;
}

-- `picoev_del`, which succeeds on a descriptor that is active, with the count
unfoldable pub del_watch : ℕ → Loop → Loop
unfolding remove
del_watch fd l = record l {
  watched = remove fd l.watched;
  activecnt = del_count (find fd l.watched) l.activecnt;
}

-- The result of a function of the module: an exception, `None`, or a switch to the hub
pub data Outcome : Type 0 where
  value_error type_error io_error none_result switched : Outcome

-- An argument that should be a client object
pub data Object : Type 0 where
  client_object : ℕ → Object
  other_object : Object

-- The event of a client that is suspended
abbrev pub suspend_watch : ℕ → ℕ → Watch
suspend_watch o timeout = record {
  events = on_timeout;
  timeout = if ltb 0 timeout then timeout else 3;
  callback = if ltb 0 timeout then timeout_error o else timeout_call o;
}

-- The part of `meinheld_suspend_client` after its checks
unfoldable pub suspend : ℕ → ℕ → Loop → Outcome × Loop
unfolding add_watch
suspend o timeout l =
    let marked = record l {
      objects = put l.objects o (record (l.objects o) { suspended = true });
    } in
    if (l.objects o).suspended
    then (io_error, l)
    else (switched, add_watch (l.fd_of (l.objects o).client) (suspend_watch o timeout) marked)

abbrev pub if_greenlet : Option ℕ → Loop → Outcome × Loop → Outcome × Loop
if_greenlet none l r = (value_error, l)
if_greenlet (some g) l r = r

-- `meinheld_suspend_client`
unfoldable pub suspend_client : Object → ℤ → Loop → Outcome × Loop
unfolding suspend
suspend_client temp (negsuc n) l = (value_error, l)
suspend_client other_object (pos timeout) l = (type_error, l)
suspend_client (client_object o) (pos timeout) l =
    if_greenlet (l.objects o).greenlet l (suspend o timeout l)

-- The part of `meinheld_resume_client` after its checks. Both optional arguments are given: without
-- them the code reads pointers that were never set.
unfoldable pub resume : ℕ → ℕ → ℕ → Loop → Outcome × Loop
unfolding add_watch
resume o args kwargs l =
    let w : Watch = record { events = on_write; timeout = 0; callback = trampoline_client o } in
    let marked = record l {
      objects =
          put l.objects o
            (record (l.objects o) { args = some args; kwargs = some kwargs; suspended = false });
    } in
    if (l.objects o).suspended
    then (none_result, add_watch (l.fd_of (l.objects o).client) w marked)
    else (io_error, l)

-- `meinheld_resume_client`
unfoldable pub resume_client : Object → ℕ → ℕ → Loop → Outcome × Loop
unfolding resume
resume_client other_object args kwargs l = (type_error, l)
resume_client (client_object o) args kwargs l =
    if_greenlet (l.objects o).greenlet l (resume o args kwargs l)

-- `meinheld_cancel_wait`
unfoldable pub cancel_wait : ℤ → Loop → Outcome × Loop
unfolding del_watch
cancel_wait (negsuc n) l = (value_error, l)
cancel_wait (pos fd) l = (none_result, del_watch fd l)

-- The events of `meinheld_trampoline`; `none` is a wait for nothing at all.
unfoldable pub trampoline_events : Bool → Bool → ℕ → Option Events
trampoline_events true true timeout = some on_readwrite
trampoline_events true false timeout = some on_read
trampoline_events false true timeout = some on_write
trampoline_events false false timeout = if timeout == 0 then none else some on_timeout

unfoldable pub trampoline_at : ℕ → ℕ → Callback → Option Events → Loop → Outcome × Loop
unfolding add_watch
trampoline_at fd timeout callback none l = (value_error, l)
trampoline_at fd timeout callback (some events) l =
    (switched, add_watch fd (record { events = events; timeout = timeout; callback = callback }) l)

-- `meinheld_trampoline`. `callback` is of the current client object, where the current greenlet is
-- its own, and of the greenlet, which has a parent, elsewhere.
unfoldable pub trampoline : ℤ → Bool → Bool → ℤ → Callback → Loop → Outcome × Loop
unfolding trampoline_events trampoline_at
trampoline (negsuc n) read write timeout callback l = (value_error, l)
trampoline (pos fd) read write (negsuc n) callback l = (value_error, l)
trampoline (pos fd) read write (pos timeout) callback l =
    trampoline_at fd timeout callback (trampoline_events read write timeout) l

-- `resume_wsgi_handler` and what its greenlet is given; an exception that is set is thrown.
unfoldable pub resume_wsgi_handler : ℕ → Bool → Loop → Loop
resume_wsgi_handler o has_error l =
    let object = l.objects o in
    let given = if has_error then with_error else with_args object.args object.kwargs in
    record l {
      resumed = (object.greenlet, given) ∷ l.resumed;
      objects = put l.objects o (record object { args = none; kwargs = none });
    }

-- A client that is not suspended any more
abbrev pub released : ℕ → Loop → Loop
released o l = record l { objects = put l.objects o (record (l.objects o) { suspended = false }) }

-- What the two callbacks for a suspended client have in common: the event is over, and the greenlet
-- gets an exception.
unfoldable pub wake_with_error : ℕ → ℕ → Loop → Loop
unfolding del_watch resume_wsgi_handler
wake_with_error fd o l = resume_wsgi_handler o true (released o (del_watch fd l))

-- `trampoline_callback`, `timeout_error_callback` and `timeout_callback` for a watched descriptor, by
-- its callback. The flags say whether the event is a timeout, and whether `write` still succeeds.
unfoldable pub fire : ℕ → Bool → Bool → Callback → Loop → Loop
unfolding del_watch add_watch resume_wsgi_handler wake_with_error
fire fd timed_out alive (trampoline_client o) l = resume_wsgi_handler o timed_out (del_watch fd l)
fire fd timed_out alive (trampoline_greenlet g) l =
    let m = del_watch fd l in record m { resumed = (some g, with_args none none) ∷ m.resumed }
fire fd timed_out alive (timeout_error o) l = if timed_out then wake_with_error fd o l else l
fire fd timed_out alive (timeout_call o) l =
    let again =
      add_watch fd (record { events = on_timeout; timeout = 30; callback = timeout_call o }) l in
    if timed_out then (if alive then again else wake_with_error fd o again) else l
