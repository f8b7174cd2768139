-- ===== src/Listen/Ends.antt =====
-- meinheld/server/server.c: a signal ends the loop of the server.
use meinheld.Base.{
  ℕ, zero, suc, ◌+◌, ◌%◌, ◌≤◌, ◌≡◌, refl, ap, ◌∙◌, inl, inr, Bool, true, false, not, ◌&&◌, Option,
  none, some, List, [], ◌∷◌, arith, ◌==◌, if-Q, Bool-cases,
}
use meinheld.Base.Int.{ℤ, pos, negsuc, dec, is_positive}
use meinheld.Hub.{Hub, fire_pendings, fire_timers}
use meinheld.Response.Stream.{if_true, if_false}
use meinheld.Listen.{Sock, Server, kill_server, kill_unless, kill_listed}
use meinheld.Listen.Stop.{filenos, less, kill_loop-less, kill_server-less}
use meinheld.Listen.Run.{
  Signal, sigint, sigterm, Running, server_of, with_server, kill, fast_notify, call_watchdog,
  notify, signalled, Turn, and_then, continues, with_hub, turned, fire_both, pass, loop,
}

-- The count is not positive.
abbrev Over : ℤ → Type 0
Over n = is_positive n ≡ false

dec-Over : (n : ℤ) → Over n → Over (dec n)
dec-Over (pos zero) o = refl
dec-Over (pos (suc n)) o = absurd (ground arith)
dec-Over (negsuc n) o = refl

less-Over : (k : ℕ) (n : ℤ) → Over n → Over (less k n)
less-Over zero n o = o
less-Over (suc k) n o = less-Over k (dec n) (dec-Over n o)

-- As many connections are gone as there are sockets.
less-enough : (k n : ℕ) → n ≤ k → Over (less k (pos n))
less-enough zero zero le = refl
less-enough zero (suc n) le = absurd (omega arith)
less-enough (suc k) zero le = less-Over k (negsuc 0) refl
less-enough (suc k) (suc n) le = less-enough k n (omega arith)

kill_listed-Over :
    (timeout : ℤ) (o : Option (List Sock)) (s : Server)
    → Over s.activecnt
    → Over (kill_listed timeout o s).activecnt
unfolding kill_listed
kill_listed-Over timeout none s over = over
kill_listed-Over timeout (some socks) s over =
    rw (kill_loop-less timeout false socks s) (less-Over (filenos socks) s.activecnt over)

kill_unless-Over :
    (timeout : ℤ) (b : Bool) (s : Server)
    → Over s.activecnt
    → Over (kill_unless b timeout s).activecnt
unfolding kill_unless
kill_unless-Over timeout true s over = over
kill_unless-Over timeout false s over = kill_listed-Over timeout s.listen_socks s over

kill-Over : (timeout : ℤ) (r : Running) → Over r.hub.activecnt → Over (kill timeout r).hub.activecnt
unfolding kill kill_server with_server server_of
kill-Over timeout r over =
    if-Q (λ (s : Server). Over s.activecnt) r.process.server.has_loop _ _
      (λ e. kill_unless-Over timeout r.process.server.error_set (server_of r) over) (λ e. over)

call_watchdog-Over :
    (o : Option ℕ) (r : Running) → Over r.hub.activecnt → Over (call_watchdog o r).hub.activecnt
unfolding call_watchdog
call_watchdog-Over none r over = over
call_watchdog-Over (some func) r over = over

notify-Over :
    (getppid : ℕ) (r : Running) → Over r.hub.activecnt → Over (notify getppid r).hub.activecnt
unfolding notify fast_notify
notify-Over getppid r over =
    let seen = record r { watchdog_lasttime = r.now } in
    let spinner = (r.spinner + 1) % 2 in
    let spun = record seen { spinner = spinner; modes = spinner ∷ r.modes } in
    let Q : Running → Type 0 = λ q. Over q.hub.activecnt in
    if-Q Q (r.watch_loop && not (r.watchdog_lasttime == r.now)) _ _
      (λ e.
        if-Q Q (r.tempfile_fd == 0) _ _ (λ e. call_watchdog-Over r.watchdog seen over)
          (λ e. if-Q Q (r.ppid == getppid) _ _ (λ e. over) (λ e. kill-Over r.gtimeout spun over)))
      (λ e. over)

-- The loop is set up for its sockets, counts no more than them, and no error is set.
pub record Alone (r : Running) : Type 0 where
  pub socks : List Sock
  pub count : ℕ
  pub has_loop : r.process.server.has_loop ≡ true
  pub calm : r.process.server.error_set ≡ false
  pub listens : r.process.server.listen_socks ≡ some socks
  pub counts : r.hub.activecnt ≡ pos count
  pub few : count ≤ filenos socks

kill-Alone : (timeout : ℤ) (r : Running) → Alone r → Over (kill timeout r).hub.activecnt
unfolding kill with_server server_of
kill-Alone timeout r a =
    rw (kill_server-less timeout a.socks (server_of r) a.has_loop a.calm a.listens)
      (rw a.counts (less-enough (filenos a.socks) a.count a.few))

signalled-Alone :
    (signum : Signal) (r : Running) → Alone r → Over (signalled (some signum) r).hub.activecnt
unfolding signalled
signalled-Alone sigint r a =
    kill-Alone (pos 0) (record r { catch_signal = none; interrupted = true })
      (record {
        socks = a.socks;
        count = a.count;
        has_loop = a.has_loop;
        calm = a.calm;
        listens = a.listens;
        counts = a.counts;
        few = a.few;
      })
signalled-Alone sigterm r a =
    kill-Alone (pos 0) (record r { catch_signal = none })
      (record {
        socks = a.socks;
        count = a.count;
        has_loop = a.has_loop;
        calm = a.calm;
        listens = a.listens;
        counts = a.counts;
        few = a.few;
      })

Over-stops : (r : Running) → Over r.hub.activecnt → continues r ≡ false
unfolding continues
Over-stops r over = elim (Bool-cases r.hub.loop_done) [ inl e ↦ rw e over | inr e ↦ rw e refl ]

loop-Over :
    (run : ℕ → Hub → Hub × Bool) (fuel : ℕ) (turns : List Turn) (r : Running)
    → Over r.hub.activecnt
    → loop run fuel turns r ≡ some r
unfolding loop continues
loop-Over run fuel [] r over = if_false (continues r) _ _ (Over-stops r over)
loop-Over run fuel (t ∷ turns) r over = if_false (continues r) _ _ (Over-stops r over)

-- A turn in which SIGINT or SIGTERM is caught, and after whose callbacks the server counts no more
-- than its sockets and Python's error indicator is clear, is the last turn of the loop, whatever would
-- come after it: the loop ends with what that turn leaves. The two loops of scheduled calls are given enough fuel to end.
pub loop-Ends :
    (run : ℕ → Hub → Hub × Bool) (fuel : ℕ) (t : Turn) (turns : List Turn) (r : Running)
    (b c : Bool) (h h' : Hub) (signum : Signal)
    → continues r ≡ true
    → fire_pendings run fuel r.hub ≡ some (b, h)
    → fire_timers run fuel h ≡ some (c, h')
    → (t.loop_once (record r { hub = h' })).catch_signal ≡ some signum
    → Alone (t.loop_once (record r { hub = h' }))
    → loop run fuel (t ∷ turns) r
      ≡ some (notify t.getppid (signalled (some signum) (t.loop_once (record r { hub = h' }))))
unfolding loop pass fire_both turned
loop-Ends run fuel t turns r b c h h' signum continuing pendings timers caught alone =
    let once = t.loop_once (record r { hub = h' }) in
    let ended = signalled (some signum) once in
    if_true _ _ _ continuing
    ∙ ap (λ o. and_then (loop run fuel turns) (and_then (fire_both run fuel t) (with_hub r o)))
        pendings
    ∙ ap
        (λ o.
          and_then (loop run fuel turns)
            (and_then (turned run fuel t) (with_hub (record r { hub = h }) o)))
        timers
    ∙ ap (λ o. loop run fuel turns (notify t.getppid (signalled o once))) caught
    ∙ loop-Over run fuel turns (notify t.getppid ended)
        (notify-Over t.getppid ended (signalled-Alone signum once alone))
