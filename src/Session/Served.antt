-- ===== src/Session/Served.antt =====
-- `close_client` of meinheld/server/server.c ends, and serves the requests of the queue before it
-- gives the client back.
use meinheld.Base.{
  if-Q, ℕ, suc, ◌≡◌, refl, sym, ◌≢◌, inl, Bool, true, false, Option, none, some, List, [], ◌∷◌, ltb,
  ◌==◌, take, codes, bytes_eq,
}
use meinheld.Base.Int.{ℤ}
use meinheld.Environ.{Value, text, flag, number, input_object, input_file, object, pair_of}
use meinheld.Response.{Answer, room, again, failed, Status, ok, suspend, error, endless}
use meinheld.Response.Client.{Client, c_str, upper}
use meinheld.Response.Header.{Result, returned, crashed}
use meinheld.Response.ErrorPage.{send_error_page}
use meinheld.Session.{
  World, Session, Run, done, stuck, no_fuel, and_then, stored, watch, unwatch, AppResult, Called,
  returned_none, raised, waiting, serving, gone,
}
use meinheld.Session
use meinheld.Session.Serve.{
  with_client, answer_error, refuse, check_head, check_status_code, write_continue, expected,
  check_http_expect, prepared, prepare_current, prepare_call_wsgi, set_current_request,
}
use meinheld.Session.Close.{
  app_error, bad_request, app_status, app_started, app_result, app_called, app_handler,
  handle_current, call_wsgi_handler, call_prepared, prepare_checked, serve_next,
}
use mathlib.Core.Path.{subst}
use meinheld.Session.Serves.{Serves, Responds, IsSome, send_error_page-IsSome}
use meinheld.Session.Counted.{
  Ready, Ends, and_then-Ends, Live, Closed, watch-Live, set_current_request-Live, current_req-Live,
}

module _ {P : Type 0} (w : World P) (k : ℤ) (serves : Serves w) where
  -- What the tests and the preparation of a request leave
  abbrev pub Checked : ℕ → Bool × Session P → Type 0
  Checked n (true, s) = Ready k (suc n) s
  Checked n (false, s) = Closed k n s

  abbrev pub Prepared : ℕ → Session P → Type 0
  Prepared n s = Live k n s × (s.client.headers ≡ none) × (s.current_req ≢ none)

  abbrev pub Passed : ℕ → Bool × Session P → Type 0
  Passed n (true, s) = Prepared n s
  Passed n (false, s) = Closed k n s

  with_client-Live :
      (n : ℕ) (s : Session P) (c : Option Client)
      → IsSome c
      → Live k n s
      → Ends (Live k n) (with_client w s c)
  unfolding with_client Ends
  with_client-Live n s none (c, e) v = absurd (cc e)
  with_client-Live n s (some c) e v = record { counted = v.counted; queue = v.queue }

  -- `close` ends for a connection with at most `n` requests.
  module _ (close : Session P → Run (Session P)) (n : ℕ)
      (close-Closed : (s : Session P) → Live k n s → Ends (Closed k n) (close s)) where
    answer_close-Closed :
        (s : Session P) → Live k n s → Ends (Closed k n) (and_then (answer_error w s) close)
    unfolding answer_error
    answer_close-Closed s v =
        and_then-Ends (Live k n) (Closed k n) (answer_error w s) close
          (with_client-Live n s (send_error_page w.epipe s.client)
            (send_error_page-IsSome w.epipe s.client) v)
          close-Closed

    -- What is refused is closed, whatever would be true of what is not.
    refuse-Closed :
        (Q : Bool × Session P → Type 0)
        → ((t : Session P) → Closed k n t → Q (false, t))
        → (s : Session P) → Live k n s
        → Ends Q (refuse w close s)
    unfolding answer_error Ends
    refuse-Closed Q closes s v =
        and_then-Ends (Live k n) Q (answer_error w s) _
          (with_client-Live n s (send_error_page w.epipe s.client)
            (send_error_page-IsSome w.epipe s.client) v)
          (λ t u. and_then-Ends (Closed k n) Q (close t) _ (close-Closed t u) closes)

    refuse-Passed : (s : Session P) → Live k n s → Ends (Passed n) (refuse w close s)
    refuse-Passed s v = refuse-Closed (Passed n) (λ t c. c) s v

    check_head-Checked :
        (s : Session P) (h : Option ℕ)
        → s.request_queue.head ≡ h
        → Ready k (suc n) s
        → Ends (Checked n) (check_head w close s h)
    unfolding check_head Ends
    check_head-Checked s none e v = v
    check_head-Checked s (some r) e v =
        if-Q (Ends (Checked n)) (ltb 200 (s.requests r).bad_request_code) _ _
          (λ bad.
            let v' = set_current_request-Live k w n s r e v.live in
            refuse-Closed (Checked n) (λ t c. c) _
              (record { counted = v'.counted; queue = v'.queue }))
          (λ good. v)

    write_continue-Passed :
        (answers : List Answer) (s : Session P)
        → Prepared n s
        → Ends (Passed n) (write_continue w close answers s)
    unfolding write_continue Ends
    write_continue-Passed [] s (v, b, c) =
        refuse-Passed _ (record { counted = v.counted; queue = v.queue })
    write_continue-Passed (again ∷ answers) s (v, b, c) =
        refuse-Passed _ (record { counted = v.counted; queue = v.queue })
    write_continue-Passed (failed ∷ answers) s (v, b, c) =
        refuse-Passed _ (record { counted = v.counted; queue = v.queue })
    write_continue-Passed (room m ∷ answers) s (v, b, c) =
        (record { counted = v.counted; queue = v.queue }, b, c)

    expected-Passed :
        (val : Option Value) (s : Session P)
        → Prepared n s
        → Ends (Passed n) (expected w close val s)
    unfolding expected Ends
    expected-Passed (some (text val)) s v =
        if-Q (Ends (Passed n))
          (bytes_eq (upper (take 12 (c_str val))) (upper (codes "100-continue"))) _ _
          (λ e. write_continue-Passed s.client.answers s v)
          (λ e. refuse-Passed _ (record { counted = (v.0).counted; queue = (v.0).queue }))
    expected-Passed none s v = v
    expected-Passed (some (flag b)) s v = v
    expected-Passed (some (input_object b)) s v = v
    expected-Passed (some (input_file b)) s v = v
    expected-Passed (some (object b)) s v = v
    expected-Passed (some (number b)) s v = v
    expected-Passed (some (pair_of a b)) s v = v

    prepared-Passed :
        (r : ℕ) (a : Bool × Session P) → Passed n a → Ends (Passed n) (prepared w close r a)
    unfolding prepared Ends
    prepared-Passed r (true, s) (v, b, c) = (record { counted = v.counted; queue = v.queue }, b, c)
    prepared-Passed r (false, s) c = c

    prepare_current-Passed :
        (s : Session P) (r : Option ℕ)
        → r ≢ none
        → Prepared n s
        → Ends (Passed n) (prepare_current w close s r)
    unfolding prepare_current check_http_expect Ends
    prepare_current-Passed s none given v = absurd (given refl)
    prepare_current-Passed s (some r) given v =
        and_then-Ends (Passed n) (Passed n) (check_http_expect w close r s) (prepared w close r)
          (if-Q (Ends (Passed n)) (s.client.http_minor == 1) _ _ (λ e. expected-Passed _ s v)
            (λ e. v))
          (prepared-Passed r)

    app_error-Closed : (s : Session P) → Live k n s → Ends (Closed k n) (app_error w close s)
    unfolding app_error
    app_error-Closed s v = answer_close-Closed _ (record { counted = v.counted; queue = v.queue })

    bad_request-Live :
        (r : Option ℕ) (s : Session P) → Live k n s → Live k n (bad_request w close r s)
    bad_request-Live none s v = v
    bad_request-Live (some r) s v = record { counted = v.counted; queue = v.queue }

    pub app_status-Closed :
        (a : Status) (client : Client) (s : Session P)
        → a ≢ endless
        → Live k n s
        → Ends (Closed k n) (app_status w close (a, client) s)
    unfolding app_status Ends
    app_status-Closed ok client s ends v =
        close-Closed _ (record { counted = v.counted; queue = v.queue })
    app_status-Closed suspend client s ends v =
        let v' =
          watch-Live k n (record s { client = client })
            (record { counted = v.counted; queue = v.queue }) in
        record { live = record { counted = v'.counted; queue = v'.queue }; over = inl refl }
    app_status-Closed endless client s ends v = absurd (ends refl)
    app_status-Closed error client s ends v =
        app_error-Closed _
          (bad_request-Live s.current_req _ (record { counted = v.counted; queue = v.queue }))

    app_started-Closed :
        (a : Result) (status : Status) (d : Client) (s : Session P)
        → a ≡ returned status d
        → status ≢ endless
        → Live k n s
        → Ends (Closed k n) (app_started w close a s)
    unfolding app_started
    app_started-Closed crashed status d s e ends v = absurd (cc e)
    app_started-Closed (returned st client) status d s e ends v =
        app_status-Closed st client s (λ f. ends (cc (e, f))) v

    app_result-Closed :
        (a : AppResult) (s : Session P)
        → Responds w a s.client
        → Live k n s
        → Ends (Closed k n) (app_result w close a s)
    unfolding app_result
    app_result-Closed returned_none s p v = app_error-Closed s v
    app_result-Closed raised s p v = app_error-Closed s v
    app_result-Closed (Session.returned body close_raises) s (status, d, e, ends) v =
        if-Q (Ends (Closed k n)) s.client.response_closed _ _
          (λ f. close-Closed _ (record { counted = v.counted; queue = v.queue }))
          (λ f.
            app_started-Closed _ status d _ e ends
              (record { counted = v.counted; queue = v.queue }))

    handle_current-Closed :
        (s : Session P) (r : Option ℕ)
        → r ≢ none
        → Prepared n s
        → Ends (Closed k n) (handle_current w close s r)
    unfolding handle_current app_handler app_called with_client
    handle_current-Closed s none given v = absurd (given refl)
    handle_current-Closed s (some r) given (v, b, c) =
        let called = w.wsgi_app (s.requests r).environ in
        let (d, e, responds) = serves (s.requests r).environ s.client b in
        subst
          (λ o. Ends (Closed k n) (and_then (with_client w s o) (app_result w close called.result)))
          (sym e)
          (app_result-Closed called.result (record s { client = d }) responds
            (record { counted = v.counted; queue = v.queue }))

    call_prepared-Closed :
        (a : Bool × Session P) → Passed n a → Ends (Closed k n) (call_prepared w close a)
    unfolding call_prepared call_wsgi_handler Ends
    call_prepared-Closed (true, s) v = handle_current-Closed s s.current_req v.2 v
    call_prepared-Closed (false, s) c = c

    prepare_checked-Closed :
        (a : Bool × Session P) → Checked n a → Ends (Closed k n) (prepare_checked w close a)
    unfolding prepare_checked prepare_call_wsgi Ends set_current_request
    prepare_checked-Closed (true, s) v =
        let (u, given) = current_req-Live k w n s v in
        and_then-Ends (Passed n) (Closed k n) (prepare_call_wsgi w close s) (call_prepared w close)
          (prepare_current-Passed (set_current_request w s) (set_current_request w s).current_req
            given (u, v.bare, given))
          call_prepared-Closed
    prepare_checked-Closed (false, s) c = c

    pub serve_next-Closed :
        (s : Session P) → Ready k (suc n) s → Ends (Closed k n) (serve_next w close s)
    unfolding serve_next check_status_code
    serve_next-Closed s v =
        and_then-Ends (Checked n) (Closed k n) (check_status_code w close s)
          (prepare_checked w close) (check_head-Checked s s.request_queue.head refl v)
          prepare_checked-Closed
