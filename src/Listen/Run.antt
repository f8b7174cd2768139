-- ===== src/Listen/Run.antt =====
-- meinheld/server/server.c: the loop of the server, with its signals and its watchdog.
use meinheld.Base.{
  ℕ, ◌+◌, ◌%◌, Bool, true, false, not, ◌&&◌, Option, none, some, List, [], ◌∷◌, ◌==◌, if◌then◌else◌,
}
use meinheld.Base.Int.{ℤ, pos, inc, is_positive}
use meinheld.Hub.{Hub, fire_pendings, fire_timers}
use meinheld.Listen.{Sock, fileno, not_int, Server, kill_server}
use meinheld.Listen.Sockets.{Process, close_sock}

pub data Signal : Type 0 where
  sigint sigterm : Signal

-- The globals of the loop. The count and the flag are in `hub`; `now` is the time of the event loop,
-- `modes` are the modes of the temporary file, the last first, `watchdog_calls` the calls of the
-- watchdog.
pub record Running : Type 0 where
  pub hub : Hub
  pub process : Process
  pub catch_signal : Option Signal
  pub interrupted : Bool
  pub watch_loop : Bool
  pub watchdog : Option ℕ
  pub watchdog_lasttime : ℕ
  pub tempfile_fd : ℕ
  pub ppid : ℕ
  pub gtimeout : ℤ
  pub spinner : ℕ
  pub now : ℕ
  pub modes : List ℕ
  pub watchdog_calls : List ℕ

-- The count and the flag are handed to `kill_server` and back.
unfoldable pub server_of : Running → Server
server_of r = record r.process.server { activecnt = r.hub.activecnt; loop_done = r.hub.loop_done }

unfoldable pub with_server : Server → Running → Running
with_server s r = record r {
  hub = record r.hub { activecnt = s.activecnt; loop_done = s.loop_done };
  process = record r.process { server = s };
}

unfoldable pub kill : ℤ → Running → Running
unfolding server_of with_server
kill timeout r = with_server (kill_server timeout (server_of r)) r

-- `sigint_cb`, the handler of both signals: the first one is kept.
unfoldable pub catch_first : Option Signal → Signal → Running → Running
catch_first none signum r = record r { catch_signal = some signum }
catch_first (some earlier) signum r = r

unfoldable pub sigint_cb : Signal → Running → Running
unfolding catch_first
sigint_cb signum r = catch_first r.catch_signal signum r

-- `meinheld_set_fastwatchdog`
unfoldable pub set_fastwatchdog : ℕ → ℕ → ℤ → Running → Running
set_fastwatchdog fd ppid timeout r = record r {
  watchdog_lasttime = 0;
  tempfile_fd = fd;
  ppid = ppid;
  gtimeout = timeout;
  watch_loop = true;
}

-- `meinheld_set_watchdog`; the argument is `none` when it is not callable, and `false` a TypeError.
unfoldable pub set_watchdog : Option ℕ → Running → Bool × Running
set_watchdog none r = (false, r)
set_watchdog (some func) r =
    (true, record r { watchdog_lasttime = 0; watchdog = some func; watch_loop = true })

-- `fast_notify`, with what `getppid` answers
unfoldable pub fast_notify : ℕ → Running → Running
unfolding kill
fast_notify getppid r =
    let spinner = (r.spinner + 1) % 2 in
    let spun = record r { spinner = spinner; modes = spinner ∷ r.modes } in
    if r.ppid == getppid then spun else record (kill r.gtimeout spun) { tempfile_fd = 0 }

unfoldable pub call_watchdog : Option ℕ → Running → Running
call_watchdog none r = r
call_watchdog (some func) r = record r { watchdog_calls = func ∷ r.watchdog_calls }

-- The end of a pass of the loop
unfoldable pub notify : ℕ → Running → Running
unfolding fast_notify call_watchdog
notify getppid r =
    let seen = record r { watchdog_lasttime = r.now } in
    if r.watch_loop && not (r.watchdog_lasttime == r.now)
    then (if r.tempfile_fd == 0 then call_watchdog r.watchdog seen else fast_notify getppid seen)
    else r

-- The signal that was caught in a pass
unfoldable pub signalled : Option Signal → Running → Running
unfolding kill
signalled none r = r
signalled (some sigint) r = kill (pos 0) (record r { catch_signal = none; interrupted = true })
signalled (some sigterm) r = kill (pos 0) (record r { catch_signal = none })

-- What the world does in a pass: `picoev_loop_once`, with the callbacks that it makes and the signals
-- that arrive, and the answer of `getppid`
pub record Turn : Type 0 where
  pub loop_once : Running → Running
  pub getppid : ℕ

-- `listen_all_sockets`, where `picoev_add` succeeds
unfoldable pub listen_all_sockets : List Sock → Running → Running
listen_all_sockets [] r = r
listen_all_sockets (not_int ∷ socks) r = listen_all_sockets socks r
listen_all_sockets (fileno fd ∷ socks) r =
    listen_all_sockets socks (record r { hub = record r.hub { activecnt = inc r.hub.activecnt } })

unfoldable pub unlink_name : Option (List ℕ) → Process → Process
unlink_name none p = p
unlink_name (some name) p = record p { unlinked = name ∷ p.unlinked; unix_sock_name = none }

-- The loop of `close_all_sockets`
unfoldable pub close_each : List Sock → Process → Process
unfolding close_sock unlink_name
close_each [] p = p
close_each (not_int ∷ socks) p = close_each socks p
close_each (fileno fd ∷ socks) p =
    close_each socks (unlink_name p.unix_sock_name (close_sock (pos fd) p))

-- `close_all_sockets`; the flag is whether an error is set, also one from before, which is logged.
unfoldable pub close_all_sockets : Bool → List Sock → Process → Process
unfolding close_each
close_all_sockets true socks p = record p { server = record p.server { error_set = false } }
close_all_sockets false socks p = close_each socks p

abbrev pub and_then : (Running → Option Running) → Option Running → Option Running
and_then next none = none
and_then next (some r) = next r

unfoldable pub continues : Running → Bool
continues r = r.hub.loop_done && is_positive r.hub.activecnt

abbrev pub with_hub : Running → Option (Bool × Hub) → Option Running
with_hub r none = none
with_hub r (some (result, h)) = some (record r { hub = h })

-- The code behind scheduled calls, and the fuel of their two loops
module _ (run : ℕ → Hub → Hub × Bool) (fuel : ℕ) where
  -- From `picoev_loop_once` on
  unfoldable pub turned : Turn → Running → Option Running
  unfolding signalled notify
  turned t r =
      let once = t.loop_once r in some (notify t.getppid (signalled once.catch_signal once))

  unfoldable pub fire_both : Turn → Running → Option Running
  unfolding turned
  fire_both t r = and_then (turned t) (with_hub r (fire_timers run fuel r.hub))

  -- A pass of the loop
  unfoldable pub pass : Turn → Running → Option Running
  unfolding fire_both
  pass t r = and_then (fire_both t) (with_hub r (fire_pendings run fuel r.hub))

  -- The loop of `meinheld_run_loop`: `none` when the turns are over before it ends.
  unfoldable pub loop : List Turn → Running → Option Running
  unfolding pass continues
  loop [] r = if continues r then none else some r
  loop (t ∷ turns) r = if continues r then and_then (loop turns) (pass t r) else some r

pub data RunResult : Type 0 where
  returned keyboard_interrupt not_found : RunResult

-- `init_main_loop`, and the reset of the flags
unfoldable pub set_up : Running → Running
set_up r = record r {
  hub = record r.hub { loop_done = true };
  process = record r.process { server = record r.process.server { has_loop = true } };
  interrupted = false;
}

unfoldable pub begin : List Sock → Running → Running
unfolding listen_all_sockets set_up
begin socks r = listen_all_sockets socks (set_up r)

unfoldable pub close_listed : Option (List Sock) → Process → Process
unfolding close_all_sockets
close_listed none p = p
close_listed (some socks) p = close_all_sockets p.server.error_set socks p

-- After the loop
unfoldable pub finish : Bool → Running → RunResult × Running
unfolding close_listed
finish silent r =
    let closed = close_listed r.process.server.listen_socks r.process in
    (
      if not silent && r.interrupted then keyboard_interrupt else returned,
      record r {
        watchdog = none;
        process = record closed {
          server = record closed.server { has_loop = false; listen_socks = none };
        };
      },
    )

abbrev pub finished : Bool → Option Running → Option (RunResult × Running)
unfolding finish
finished silent none = none
finished silent (some r) = some (finish silent r)

-- `meinheld_run_loop`
unfoldable pub run_loop :
    (ℕ → Hub → Hub × Bool) → ℕ → Bool → List Turn → Running → Option (RunResult × Running)
unfolding begin loop finish
run_loop run fuel silent turns r = elim r.process.server.listen_socks [
  | none ↦ some (not_found, r)
  | some socks ↦ finished silent (loop run fuel turns (begin socks r))
]
