-- ===== src/Session/Respond.antt =====
-- A request that is in order is answered by the application's response: the path of meinheld/server/
-- server.c from `check_status_code` over `prepare_call_wsgi` and `app_handler` to `close_client`.
use meinheld.Base.{
  ℕ, suc, ◌≤◌, ◌≡◌, refl, sym, ap, ◌∙◌, inl, inr, Bool, true, false, Option, none, some, List,
  arith, ltb, ◌==◌, if◌then◌else◌, if-Q, Bool-cases, codes,
}
use meinheld.Base.Int.{pos, dec}
use meinheld.Environ.{get_item}
use meinheld.Queue.{shift_request, shift_at}
use meinheld.Response.{ok}
use meinheld.Response.Client.{Client, Text, Body}
use meinheld.Response.Header.{Result}
use meinheld.Response.Header
use meinheld.Response.Body.{close_response, response_start}
use meinheld.Response.Start.{HeaderArg, ExcInfo}
use meinheld.Response.Stream.{if_false}
use meinheld.Session.{
  World, Session, Run, done, stuck, no_fuel, and_then, stored, Called, AppResult, waiting, serving,
  gone, Phase,
}
use meinheld.Session
use meinheld.Session.Serve.{
  with_client, check_head, check_status_code, expected, check_http_expect, set_input, prepared,
  prepare_current, prepare_call_wsgi, set_current_request,
}
use meinheld.Session.Close.{
  app_status, app_started, app_result, app_called, app_handler, start_calls, handle_current,
  call_wsgi_handler, call_prepared, prepare_checked, serve_next, close_client,
}
use meinheld.Session.Kept.{close_response-Kept, close_client-gone, close_client-serving}

module _ {P : Type 0} (w : World P) where
  -- The session of a request that is ready for the application
  abbrev pub ready : Session P → ℕ → Session P
  ready s r =
      let t = set_current_request w s in
      let u = stored t r (set_input w (λ x. done x) (t.requests r)) in
      record u {
        client = record u.client {
          keep_alive = if w.is_keep_alive then u.client.keep_alive else false;
        };
      }

  -- What a session is after its response: closed, or read again
  abbrev pub Answered : Client → Run (Session P) → Type 0
  Answered c run =
      (t : Session P) × (run ≡ done t)
      × (t.phase ≡ (if c.keep_alive then serving else gone))
      × (t.client.out ≡ c.out)

  close-Answered :
      (fuel : ℕ) (c : Client) (s : Session P)
      → s.client.keep_alive ≡ c.keep_alive
      → s.client.out ≡ c.out
      → s.request_queue.size ≡ pos 0
      → Answered c (close_client w (suc fuel) s)
  close-Answered fuel c s alive out empty = elim (Bool-cases c.keep_alive) [
    | inl e ↦
        let (t, run, phase, sent, _, _) = close_client-serving w fuel s (alive ∙ e) empty in
        (t, run, phase ∙ ap (λ b. if b then serving else gone) (sym e), sent ∙ out)
    | inr e ↦
        let (t, run, phase, sent) = close_client-gone w fuel s (alive ∙ e) empty in
        (t, run, phase ∙ ap (λ b. if b then serving else gone) (sym e), sent ∙ out)
  ]

  prepare-ready :
      (close : Session P → Run (Session P)) (s : Session P) (r : ℕ)
      → s.request_queue.head ≡ some r
      → get_item (codes "HTTP_EXPECT") (s.requests r).environ ≡ none
      → prepare_call_wsgi w close s ≡ done (true, ready s r)
  unfolding prepare_call_wsgi prepare_current check_http_expect expected prepared
      set_current_request shift_request shift_at set_input
  prepare-ready close s r head unexpected =
      let t = set_current_request w s in
      let current : t.current_req ≡ some r = ap (λ h. (shift_at h s.request_queue).0) head in
      let end : Bool × Session P → Run (Bool × Session P) = prepared w close r in
      ap (prepare_current w close t) current
      ∙ ap
          (λ o.
            and_then (if t.client.http_minor == 1 then expected w close o t else done (true, t))
              end)
          unexpected
      ∙ if-Q (λ x. and_then x end ≡ done (true, ready s r)) (t.client.http_minor == 1)
          (done (true, t)) (done (true, t)) (λ e. refl) (λ e. refl)

  -- A connection whose only request is in order and expects nothing, for which the application's
  -- calls of `start_response` and its result make a response that is sent to its end, is answered by
  -- that response and no other byte, and is then closed, or read again if it is kept.
  pub serve_next-Answered :
      (fuel : ℕ) (s : Session P) (r : ℕ) (calls : List (Text × HeaderArg × ExcInfo)) (body : Body)
      (close_raises : Option Bool) (c d : Client)
      → s.request_queue.head ≡ some r
      → s.request_queue.size ≡ pos 1
      → (s.requests r).bad_request_code ≤ 200
      → get_item (codes "HTTP_EXPECT") (s.requests r).environ ≡ none
      → w.wsgi_app ((ready s r).requests r).environ
        ≡ record { calls = calls; result = Session.returned body close_raises }
      → start_calls w calls (ready s r).client ≡ some c
      → c.response_closed ≡ false
      → response_start w.strtol w.http_time (record c { response = body; close = close_raises })
        ≡ Header.returned ok d
      → Answered d (serve_next w (close_client w (suc fuel)) s)
  unfolding serve_next check_status_code check_head prepare_checked call_prepared call_wsgi_handler
      handle_current app_handler app_called with_client app_result app_started app_status
      set_current_request shift_request shift_at
  serve_next-Answered fuel s r calls body close_raises c d head one good unexpected called begun
        opened sent =
      let close = close_client w (suc fuel) in
      let u = ready s r in
      let t = record u { client = record c { response = body; close = close_raises } } in
      let current : u.current_req ≡ some r = ap (λ h. (shift_at h s.request_queue).0) head in
      let empty : u.request_queue.size ≡ pos 0 =
        ap (λ h. (shift_at h s.request_queue).1.size) head ∙ ap dec one in
      let checked : check_status_code w close s ≡ done (true, s) =
        ap (check_head w close s) head
        ∙ if_false (ltb 200 (s.requests r).bad_request_code) _ _ (ground (arith, good)) in
      let kept = close_response-Kept d in
      let (v, run, phase, out) =
        close-Answered fuel d (record t { client = (close_response d).1 }) kept.alive kept.sent
          empty in
      (
        v,
        ap (λ x. and_then x (prepare_checked w close)) checked
            ∙ ap (λ x. and_then x (call_prepared w close)) (prepare-ready close s r head unexpected)
            ∙ ap (handle_current w close u) current
            ∙ ap (λ a. app_handler w close a u) called
            ∙ ap
                (λ x.
                  and_then (with_client w u x)
                    (app_result w close (Session.returned body close_raises)))
                begun
            ∙ if_false c.response_closed _ _ opened
            ∙ ap (λ x. app_started w close x t) sent
            ∙ run,
        phase,
        out,
      )
