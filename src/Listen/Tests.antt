-- ===== src/Listen/Tests.antt =====
-- The hypotheses of the theorems on sockets hold at concrete inputs.
use meinheld.Base.{
  ℕ, ◌≡◌, refl, sym, ap, Bool, true, false, Option, none, some, List, [], ◌∷◌, arith, codes,
}
use meinheld.Base.Int.{pos}
use meinheld.Hub.{Hub, fire_pendings, fire_timers, fire_due}
use meinheld.Listen.{Sock, fileno, kill_server, kill_listed, kill_loop}
use meinheld.Listen.Sockets.{
  Process, Kernel, found, inet_address, unix_address, listening, meinheld_listen, listen_unset,
  inet_listen, looked_up, bind_first, bind_opened, finish_inet, open_sock, port,
}
use meinheld.Listen.Owned.{Unset, Owned, meinheld_listen-Owned}
use meinheld.Listen.Run.{
  catch_first, server_of, with_server, Signal, sigint, Running, Turn, sigint_cb, kill, notify,
  signalled, loop, run_loop, pass, fire_both, turned, continues, begin, set_up, listen_all_sockets,
  keyboard_interrupt, finish,
}
use meinheld.Listen.Released.{Leaves, Released, meinheld_listen-run_loop}
use mathlib.Core.Path.{subst}
use meinheld.Listen.Ends.{Alone, loop-Ends}

abbrev kernel : Kernel
kernel = record {
  getaddrinfo = λ n.
      found (record { socket = none; reuse = true; bind = true })
        (record { socket = some 5; reuse = true; bind = true } ∷ []);
  exists = λ path. true;
  unlink = true;
  unix_socket = record { socket = some 6; reuse = true; bind = false };
  listen = true;
}

abbrev process : Process
process = record {
  server = record {
    listen_socks = none;
    has_loop = false;
    activecnt = pos 0;
    kill_timer = none;
    loop_done = false;
    error_set = false;
  };
  server_port = 8000;
  unix_sock_name = none;
  opened = [];
  addrinfos = 0;
  umask = 18;
  unlinked = [];
}

meinheld_listen-Owned_example :
    Owned
      (Unset kernel (unix_address (codes "/tmp/s")) none)
      none
      process
      (meinheld_listen kernel (unix_address (codes "/tmp/s")) none process)
meinheld_listen-Owned_example =
    meinheld_listen-Owned kernel (unix_address (codes "/tmp/s")) none process

abbrev bound_process : Process
bound_process = record process {
  server = record process.server { listen_socks = some (fileno 5 ∷ []) };
  opened = 5 ∷ [];
}

abbrev running : Running
running = record {
  hub = record {
    objects = λ t. record { seconds = 0; called = false; callback = 0; greenlet = none };
    next = 0;
    timers = record { heap = []; size = 0; max = 4 };
    pendings = record { q = []; size = 0; max = 4 };
    activecnt = pos 0;
    loop_done = false;
    current_msec = 0;
    calls = [];
  };
  process = bound_process;
  catch_signal = none;
  interrupted = false;
  watch_loop = false;
  watchdog = none;
  watchdog_lasttime = 0;
  tempfile_fd = 0;
  ppid = 1;
  gtimeout = pos 0;
  spinner = 0;
  now = 0;
  modes = [];
  watchdog_calls = [];
}

abbrev quiet : ℕ → Hub → Hub × Bool
quiet t h = (h, false)

-- A turn in which the user interrupts
interrupt : Running → Running
unfolding sigint_cb
interrupt r = sigint_cb sigint r

abbrev turn : Turn
turn = record { loop_once = interrupt; getppid = 1 }

abbrev sockets : Running → List ℕ × Option (List Sock) × Bool
sockets r = (r.process.opened, r.process.server.listen_socks, r.process.server.error_set)

caught-sockets : (o : Option Signal) (r : Running) → sockets (catch_first o sigint r) ≡ sockets r
unfolding catch_first
caught-sockets none r = refl
caught-sockets (some e) r = refl

turn-Leaves : Leaves turn
unfolding interrupt sigint_cb
turn-Leaves r = caught-sockets r.catch_signal r

abbrev last : Running
last = record running {
  hub = record running.hub { loop_done = true };
  process = record bound_process {
    server = record bound_process.server {
      listen_socks = none;
      kill_timer = some (5, 1);
      activecnt = pos 0;
      loop_done = true;
    };
    opened = [];
  };
  interrupted = true;
}

run_once : run_loop quiet 1 false (turn ∷ []) running ≡ some (keyboard_interrupt, last)
unfolding run_loop begin set_up listen_all_sockets loop continues pass fire_both turned
    fire_pendings fire_timers fire_due interrupt sigint_cb catch_first signalled kill server_of
    with_server kill_server kill_listed kill_loop notify finish
run_once = refl

bound_once :
    meinheld_listen kernel (inet_address (pos 8000)) none process ≡ (listening, bound_process)
unfolding meinheld_listen listen_unset inet_listen looked_up bind_first bind_opened finish_inet
    open_sock port
bound_once = refl

meinheld_listen-run_loop_example : Released process last
meinheld_listen-run_loop_example =
    meinheld_listen-run_loop kernel (inet_address (pos 8000)) process bound_process quiet 1 false
      (turn ∷ []) running keyboard_interrupt last bound_once (turn-Leaves, tt) refl refl run_once

-- `last` before the end of the loop
abbrev begun : Running
begun = record running {
  hub = record running.hub { activecnt = pos 1; loop_done = true };
  process = record bound_process { server = record bound_process.server { has_loop = true } };
}

interrupted_once : interrupt begun ≡ record begun { catch_signal = some sigint }
unfolding interrupt sigint_cb catch_first
interrupted_once = refl

begun-Alone : Alone (interrupt begun)
begun-Alone = subst Alone (sym interrupted_once) (record {
  socks = fileno 5 ∷ [];
  count = 1;
  has_loop = refl;
  calm = refl;
  listens = refl;
  counts = refl;
  few = omega arith;
})

begun-continues : continues begun ≡ true
unfolding continues
begun-continues = refl

fired_pendings : fire_pendings quiet 1 begun.hub ≡ some (true, begun.hub)
unfolding fire_pendings
fired_pendings = refl

fired_timers : fire_timers quiet 1 begun.hub ≡ some (true, begun.hub)
unfolding fire_timers fire_due
fired_timers = refl

loop-Ends_example :
    loop quiet 1 (turn ∷ turn ∷ []) begun
    ≡ some (notify 1 (signalled (some sigint) (interrupt begun)))
loop-Ends_example =
    loop-Ends quiet 1 turn (turn ∷ []) begun true true begun.hub begun.hub sigint begun-continues
      fired_pendings fired_timers (ap (λ r. r.catch_signal) interrupted_once) begun-Alone
