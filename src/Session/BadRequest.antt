-- ===== src/Session/BadRequest.antt =====
-- A request that was refused is answered by the page for its code: `check_status_code` and
-- `close_client` of meinheld/server/server.c with `send_error_page` of meinheld/server/response.c.
use meinheld.Base.{
  ℕ, suc, ◌^◌, ◌≤◌, ◌<◌, ◌≡◌, refl, ap, ◌∙◌, Bool, true, false, ◌||◌, Option, none, some, ◌++◌,
  arith, ltb, length,
}
use meinheld.Base.Int.{pos, dec}
use meinheld.Queue.{shift_request, shift_at}
use meinheld.Response.{error}
use meinheld.Response.Client.{Client}
use meinheld.Response.ErrorPage.{send_error_page, header_message, page}
use meinheld.Response.Answered.{capacity, answered, send_error_page_lem}
use meinheld.Session.{World, Session, Run, done, and_then, serving, gone}
use meinheld.Session.Serve.{
  with_client, answer_error, check_head, check_status_code, set_current_request,
}
use meinheld.Response.Stream.{if_true}
use meinheld.Response.Body.{close_response}
use meinheld.Session.Close.{
  bad_request, app_error, app_status, prepare_checked, serve_next, close_client,
}
use meinheld.Session.Kept.{close_response-Kept, close_client-gone, close_client-serving}

module _ {P : Type 0} (w : World P) where
  -- The client on which the page for the code of the request is sent
  abbrev pub refused : Session P → ℕ → Client
  refused s code = record (set_current_request w s).client { status_code = code }

  -- A connection whose only request was refused with a code above 200, and of which no response was
  -- sent, is sent the whole page for that code and is given back, if the kernel takes as many bytes
  -- as the page has before it fails.
  pub serve_next-refused :
      (fuel : ℕ) (s : Session P) (r : ℕ)
      → s.request_queue.head ≡ some r
      → s.request_queue.size ≡ pos 1
      → 200 < (s.requests r).bad_request_code
      → s.client.header_done ≡ false
      → s.client.response_closed ≡ false
      → s.client.write_bytes < 2 ^ 64
      → length
          (header_message (s.requests r).bad_request_code ++ page (s.requests r).bad_request_code)
        ≤ capacity s.client.answers
      → (t : Session P) × (serve_next w (close_client w (suc fuel)) s ≡ done t)
        × (t.phase ≡ gone)
        × (t.client.out
            ≡ s.client.out
              ++ (header_message (s.requests r).bad_request_code
                  ++ page (s.requests r).bad_request_code))
  unfolding serve_next check_status_code check_head set_current_request shift_request shift_at
      answer_error with_client prepare_checked
  serve_next-refused fuel s r head one bad unsent opened small enough =
      let c = refused s (s.requests r).bad_request_code in
      let close = close_client w (suc fuel) in
      let current = record (set_current_request w s) { client = c } in
      let (left, e) = send_error_page_lem w.epipe c unsent opened enough small in
      let empty : (shift_at s.request_queue.head s.request_queue).1.size ≡ pos 0 =
        ap (λ h. (shift_at h s.request_queue).1.size) head ∙ ap dec one in
      let (t, closed, over, out) =
        close_client-gone w fuel (record current { client = answered left c }) refl empty in
      let end : Session P → Run (Bool × Session P) = λ u. done (false, u) in
      let checked : check_status_code w close s ≡ done (false, t) =
        ap (check_head w close s) head
        ∙ if_true (ltb 200 (s.requests r).bad_request_code) _ _ (ground (arith, bad))
        ∙ ap (λ o. and_then (with_client w current o) (λ u. and_then (close u) end)) e
        ∙ ap (λ x. and_then x end) closed in
      (t, ap (λ x. and_then x (prepare_checked w close)) checked, over, out)

  abbrev pub Reads : Session P → Run (Session P) → Type 0
  Reads s r =
      (t : Session P) × (r ≡ done t)
      × (t.phase ≡ serving)
      × (t.client.out ≡ s.client.out)
      × (t.active ≡ true)
      × (t.client.read_shut ≡ true)

  app_error-broken :
      (fuel : ℕ) (s : Session P)
      → s.client.header_done ≡ true
      → s.client.keep_alive ≡ true
      → s.request_queue.size ≡ pos 0
      → Reads s (app_error w (close_client w (suc fuel)) s)
  unfolding app_error answer_error send_error_page with_client
  app_error-broken fuel s headed alive empty =
      let failed = record s.client { status_code = 500 } in
      let c = (close_response failed).1 in
      let shut = record c { read_shut = true } in
      let kept = close_response-Kept failed in
      let close = close_client w (suc fuel) in
      let current = record s { client = c } in
      let (t, closed, phase, out, active, ended) =
        close_client-serving w fuel (record s { client = shut }) (kept.alive ∙ alive) empty in
      let silent : send_error_page w.epipe c ≡ some shut =
        if_true (c.header_done || c.response_closed) _ _
          (ap (λ b. b || c.response_closed) (kept.headed ∙ headed)) in
      (
        t,
        ap (λ o. and_then (with_client w current o) close) silent ∙ closed,
        phase,
        out ∙ kept.sent,
        active,
        ended,
      )

  -- A response that fails after its header was sent, on a connection that is kept and has no other
  -- request, ends without another byte. The connection is not given back: a new client is watched for
  -- its next request, on a socket whose reading side has been shut down.
  pub app_status-broken :
      (fuel : ℕ) (client : Client) (s : Session P)
      → client.header_done ≡ true
      → client.keep_alive ≡ true
      → s.request_queue.size ≡ pos 0
      → (t : Session P) × (app_status w (close_client w (suc fuel)) (error, client) s ≡ done t)
        × (t.phase ≡ serving)
        × (t.client.out ≡ client.out)
        × (t.active ≡ true)
        × (t.client.read_shut ≡ true)
  unfolding app_status
  app_status-broken fuel client s headed alive empty = at s.current_req
    where
      at :
          (r : Option ℕ)
          → Reads
              (record s { client = client })
              (app_error w
                (close_client w (suc fuel))
                (bad_request w (close_client w (suc fuel)) r (record s { client = client })))
      at none = app_error-broken fuel (record s { client = client }) headed alive empty
      at (some r) =
          app_error-broken fuel
            (bad_request w (close_client w (suc fuel)) (some r) (record s { client = client }))
            headed alive empty
