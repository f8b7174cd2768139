-- ===== src/Listen/Released.antt =====
-- meinheld/server/server.c: what `listen` opens, `run` closes.
use meinheld.Base.{
  ℕ, ◌+◌, ◌%◌, ◌≡◌, refl, sym, ap, ◌∙◌, Bool, true, false, not, ◌&&◌, Option, none, some, List, [],
  ◌∷◌, arith, ◌==◌, if-Q, set, All,
}
use meinheld.Base.Int.{ℤ, pos, inc}
use meinheld.Hub.{Hub, fire_pendings, fire_timers}
use meinheld.Listen.{
  Sock, fileno, not_int, Server, kill_server, kill_unless, kill_loop, kill_listed,
}
use meinheld.Listen.Sockets.{
  Process, Kernel, AddressArg, Listened, listening, close_sock, without, meinheld_listen,
}
use meinheld.Listen.Owned.{
  Unset, Owned, one_made, none_made, not_set, were_given, meinheld_listen-Owned,
}
use meinheld.Listen.Run.{
  Signal, sigint, sigterm, Running, server_of, with_server, kill, fast_notify, call_watchdog,
  notify, signalled, Turn, listen_all_sockets, unlink_name, close_each, close_all_sockets, and_then,
  continues, with_hub, turned, fire_both, pass, loop, set_up, begin, close_listed, finish, finished,
  run_loop, RunResult,
}

-- The open sockets, the list that names them, and whether an error is set
abbrev sockets : Running → List ℕ × Option (List Sock) × Bool
sockets r = (r.process.opened, r.process.server.listen_socks, r.process.server.error_set)

-- No error is set.
abbrev Calm : Running → Type 0
Calm r = r.process.server.error_set ≡ false

-- What `kill_server` leaves of the globals
abbrev kept : Server → Option (List Sock) × Bool
kept s = (s.listen_socks, s.error_set)

kill_loop-kept :
    (timeout : ℤ) (set_callback : Bool) (socks : List Sock) (s : Server)
    → kept (kill_loop timeout set_callback socks s) ≡ kept s
unfolding kill_loop
kill_loop-kept timeout c [] s = refl
kill_loop-kept timeout c (not_int ∷ socks) s = kill_loop-kept timeout c socks s
kill_loop-kept timeout true (fileno fd ∷ socks) s = kill_loop-kept timeout true socks _
kill_loop-kept timeout false (fileno fd ∷ socks) s = kill_loop-kept timeout true socks _

kill_listed-kept :
    (timeout : ℤ) (o : Option (List Sock)) (s : Server) → kept (kill_listed timeout o s) ≡ kept s
unfolding kill_listed
kill_listed-kept timeout none s = refl
kill_listed-kept timeout (some socks) s = kill_loop-kept timeout false socks s

kill_unless-kept :
    (timeout : ℤ) (s : Server)
    → s.error_set ≡ false
    → kept (kill_unless s.error_set timeout s) ≡ kept s
unfolding kill_unless
kill_unless-kept timeout s calm =
    ap (λ b. kept (kill_unless b timeout s)) calm ∙ kill_listed-kept timeout s.listen_socks s

kill-sockets : (timeout : ℤ) (r : Running) → Calm r → sockets (kill timeout r) ≡ sockets r
unfolding kill kill_server with_server server_of
kill-sockets timeout r calm =
    if-Q (λ (s : Server). (r.process.opened, s.listen_socks, s.error_set) ≡ sockets r)
      r.process.server.has_loop _ _
      (λ e. ap (λ k. (r.process.opened, k.0, k.1)) (kill_unless-kept timeout (server_of r) calm))
      (λ e. refl)

signalled-sockets : (o : Option Signal) (r : Running) → Calm r → sockets (signalled o r) ≡ sockets r
unfolding signalled
signalled-sockets none r calm = refl
signalled-sockets (some sigint) r calm =
    kill-sockets (pos 0) (record r { catch_signal = none; interrupted = true }) calm
signalled-sockets (some sigterm) r calm =
    kill-sockets (pos 0) (record r { catch_signal = none }) calm

call_watchdog-sockets : (o : Option ℕ) (r : Running) → sockets (call_watchdog o r) ≡ sockets r
unfolding call_watchdog
call_watchdog-sockets none r = refl
call_watchdog-sockets (some func) r = refl

notify-sockets : (getppid : ℕ) (r : Running) → Calm r → sockets (notify getppid r) ≡ sockets r
unfolding notify fast_notify
notify-sockets getppid r calm =
    let seen = record r { watchdog_lasttime = r.now } in
    let spinner = (r.spinner + 1) % 2 in
    let spun = record seen { spinner = spinner; modes = spinner ∷ r.modes } in
    let Same : Running → Type 0 = λ q. sockets q ≡ sockets r in
    if-Q Same (r.watch_loop && not (r.watchdog_lasttime == r.now)) _ _
      (λ e.
        if-Q Same (r.tempfile_fd == 0) _ _ (λ e. call_watchdog-sockets r.watchdog seen)
          (λ e.
            if-Q Same (r.ppid == getppid) _ _ (λ e. refl) (λ e. kill-sockets r.gtimeout spun calm)))
      (λ e. refl)

-- What the callbacks of a turn do keeps the sockets and the list, and leaves no error set.
abbrev pub Leaves : Turn → Type 0
Leaves t = (r : Running) → sockets (t.loop_once r) ≡ sockets r

some_inj : {p q : Running} → some p ≡ some q → p ≡ q
some_inj e = cc e

-- A run that has ended has ended with the sockets of `r`.
abbrev SameSockets : Running → Option Running → Type 0
SameSockets r o = (q : Running) → o ≡ some q → sockets q ≡ sockets r

module _ (run : ℕ → Hub → Hub × Bool) (fuel : ℕ) where
  and_then-SameSockets :
      (next : Running → Option Running) (r p : Running) (o : Option (Bool × Hub))
      → sockets p ≡ sockets r
      → ((q : Running) → sockets q ≡ sockets r → SameSockets r (next q))
      → SameSockets r (and_then next (with_hub p o))
  and_then-SameSockets next r p none same each q e = absurd cc
  and_then-SameSockets next r p (some (b, h)) same each q e = each (record p { hub = h }) same q e

  turned-SameSockets :
      (t : Turn) (r p : Running)
      → Leaves t
      → Calm r
      → sockets p ≡ sockets r
      → SameSockets r (turned run fuel t p)
  unfolding turned
  turned-SameSockets t r p leaves calm same q e =
      let once = t.loop_once p in
      let calm_once : Calm once = ap (λ x. x.2) (leaves p ∙ same) ∙ calm in
      let signals = signalled-sockets once.catch_signal once calm_once in
      ap sockets (sym (some_inj e))
      ∙ notify-sockets t.getppid (signalled once.catch_signal once)
          (ap (λ x. x.2) signals ∙ calm_once)
      ∙ signals
      ∙ leaves p
      ∙ same

  pass-SameSockets :
      (t : Turn) (r p : Running)
      → Leaves t
      → Calm r
      → sockets p ≡ sockets r
      → SameSockets r (pass run fuel t p)
  unfolding pass fire_both
  pass-SameSockets t r p leaves calm same =
      and_then-SameSockets (fire_both run fuel t) r p (fire_pendings run fuel p.hub) same
        (λ p1 same1.
          and_then-SameSockets (turned run fuel t) r p1 (fire_timers run fuel p1.hub) same1
            (λ p2 same2. turned-SameSockets t r p2 leaves calm same2))

  looped-SameSockets :
      (next : Running → Option Running) (r : Running) (o : Option Running)
      → ((p : Running) → sockets p ≡ sockets r → SameSockets r (next p))
      → SameSockets r o
      → SameSockets r (and_then next o)
  looped-SameSockets next r none each s = λ q e. absurd cc
  looped-SameSockets next r (some p) each s = each p (s p refl)

  loop-SameSockets :
      (turns : List Turn) (r p : Running)
      → All Leaves turns
      → Calm r
      → sockets p ≡ sockets r
      → SameSockets r (loop run fuel turns p)
  unfolding loop
  loop-SameSockets [] r p leaves calm same =
      if-Q (SameSockets r) (continues p) _ _ (λ e q e'. absurd cc)
        (λ e q e'. ap sockets (sym (some_inj e')) ∙ same)
  loop-SameSockets (t ∷ turns) r p leaves calm same =
      if-Q (SameSockets r) (continues p) _ _
        (λ e.
          looped-SameSockets (loop run fuel turns) r (pass run fuel t p)
            (λ p1 same1. loop-SameSockets turns r p1 leaves.1 calm same1)
            (pass-SameSockets t r p leaves.0 calm same))
        (λ e q e'. ap sockets (sym (some_inj e')) ∙ same)

listen_all_sockets-sockets :
    (socks : List Sock) (r : Running) → sockets (listen_all_sockets socks r) ≡ sockets r
unfolding listen_all_sockets
listen_all_sockets-sockets [] r = refl
listen_all_sockets-sockets (not_int ∷ socks) r = listen_all_sockets-sockets socks r
listen_all_sockets-sockets (fileno fd ∷ socks) r =
    listen_all_sockets-sockets socks
      (record r { hub = record r.hub { activecnt = inc r.hub.activecnt } })

unlink_name-opened : (name : Option (List ℕ)) (p : Process) → (unlink_name name p).opened ≡ p.opened
unfolding unlink_name
unlink_name-opened none p = refl
unlink_name-opened (some name) p = refl

close_listed-opened :
    (fd : ℕ) (o : Option (List Sock)) (p : Process)
    → o ≡ some (fileno fd ∷ [])
    → p.server.error_set ≡ false
    → (close_listed o p).opened ≡ without fd p.opened
unfolding close_listed close_all_sockets close_each close_sock
close_listed-opened fd o p e calm =
    ap (λ o. (close_listed o p).opened) e
    ∙ ap (λ b. (close_all_sockets b (fileno fd ∷ []) p).opened) calm
    ∙ unlink_name-opened p.unix_sock_name (close_sock (pos fd) p)

-- The loop has ended in `l`, with one socket in the list.
finish-opened :
    (silent : Bool) (l : Running) (fd : ℕ) (opened : List ℕ)
    → sockets l ≡ (fd ∷ opened, some (fileno fd ∷ []), false)
    → (finish silent l).1.process.opened ≡ opened
unfolding finish
finish-opened silent l fd opened e =
    close_listed-opened fd l.process.server.listen_socks l.process (ap (λ x. x.1) e)
      (ap (λ x. x.2) e)
    ∙ ap (without fd) (ap (λ x. x.0) e)
    ∙ ground arith

listed :
    {A : Type 0} (socks : List Sock) (o : Option (List Sock)) (n : A) (f : List Sock → A)
    → o ≡ some socks
    → elim o [ none ↦ n | some s ↦ f s ] ≡ f socks
listed socks o n f e = ap (λ o. elim o [ none ↦ n | some s ↦ f s ]) e

-- The server has closed what was opened, and may listen again.
abbrev pub Released : Process → Running → Type 0
Released p r = r.process.opened ≡ p.opened × r.process.server.listen_socks ≡ none

module _ (run : ℕ → Hub → Hub × Bool) (fuel : ℕ) (silent : Bool) (turns : List Turn)
    (leaves : All Leaves turns) where
  finished-Released :
      (p : Process) (r : Running) (fd : ℕ) (o : Option Running) (result : RunResult) (r' : Running)
      → sockets r ≡ (fd ∷ p.opened, some (fileno fd ∷ []), false)
      → SameSockets r o
      → finished silent o ≡ some (result, r')
      → Released p r'
  unfolding finish
  finished-Released p r fd none result r' e same f = absurd cc
  finished-Released p r fd (some l) result r' e same f =
      let last : finish silent l ≡ (result, r') = cc f in
      let opened = finish-opened silent l fd p.opened (same l refl ∙ e) in
      (
        ap (λ x. x.1.process.opened) (sym last) ∙ opened,
        ap (λ x. x.1.process.server.listen_socks) (sym last),
      )

  run_loop-Released :
      (p : Process) (r : Running) (fd : ℕ) (result : RunResult) (r' : Running)
      → sockets r ≡ (fd ∷ p.opened, some (fileno fd ∷ []), false)
      → run_loop run fuel silent turns r ≡ some (result, r')
      → Released p r'
  unfolding run_loop begin set_up
  run_loop-Released p r fd result r' e f =
      let socks = fileno fd ∷ [] in
      let begun = begin socks r in
      let begins : sockets begun ≡ sockets r = listen_all_sockets-sockets socks (set_up r) in
      finished-Released p begun fd (loop run fuel turns begun) result r' (begins ∙ e)
        (loop-SameSockets run fuel turns begun begun leaves (ap (λ x. x.2) (begins ∙ e)) refl)
        (sym (
            listed socks r.process.server.listen_socks _
              (λ s. finished silent (loop run fuel turns (begin s r))) (ap (λ x. x.1) e))
          ∙ f)

-- A socket that `listen` opened for an address or a path is closed when the loop of the server ends,
-- so that the server leaves no socket open and may listen again, if no error of Python is set when the
-- loop begins, and what happens in its turns leaves none set, and the open sockets and their list
-- alone.
pub meinheld_listen-run_loop :
    (k : Kernel) (address : AddressArg) (p q : Process) (run : ℕ → Hub → Hub × Bool) (fuel : ℕ)
    (silent : Bool) (turns : List Turn) (r : Running) (result : RunResult) (r' : Running)
    → meinheld_listen k address none p ≡ (listening, q)
    → All Leaves turns
    → r.process ≡ q
    → r.process.server.error_set ≡ false
    → run_loop run fuel silent turns r ≡ some (result, r')
    → Released p r'
meinheld_listen-run_loop k address p q run fuel silent turns r result r' e leaves at_q calm ran =
    by_owner (meinheld_listen k address none p) e (meinheld_listen-Owned k address none p)
  where
    by_owner :
        (x : Listened × Process)
        → x ≡ (listening, q)
        → Owned (Unset k address none) none p x
        → Released p r'
    by_owner _ e (none_made error opened socks) = absurd (cc (ap (λ x. x.0) e))
    by_owner _ e (not_set unset) = absurd (cc (ap (λ x. x.0) e))
    by_owner _ e (one_made {q = q1} fd opened socks) =
        let same : r.process ≡ q1 = at_q ∙ ap (λ x. x.1) (sym e) in
        run_loop-Released run fuel silent turns leaves p r fd result r'
          (ap (λ b. (r.process.opened, r.process.server.listen_socks, b)) calm
            ∙ ap (λ (p : Process). (p.opened, p.server.listen_socks, false)) same
            ∙ ap (λ os. (os, q1.server.listen_socks, false)) opened
            ∙ ap (λ o. (fd ∷ p.opened, o, false)) socks)
          ran
    by_owner _ e (were_given a is opened set) = absurd (cc is)
