-- ===== src/Session/Events.antt =====
-- meinheld/server/server.c: the callbacks of the event loop on a client's descriptor.
use meinheld.Base.{
  ℕ, Bool, true, false, not, ◌&&◌, ◌||◌, Option, none, some, List, ltb, ◌==◌, if◌then◌else◌, length,
  codes,
}
use meinheld.Base.Int.{is_positive}
use meinheld.Environ.{Value, text, Environ, get_item}
use meinheld.Request.{Request}
use meinheld.Response.Client.{same_name}
use meinheld.Response.Body.{process_body}
use meinheld.Session.{
  World, Session, Run, done, stuck, no_fuel, and_then, stored, watch, unwatch, waiting, serving,
  zero_client,
}
use meinheld.Session
use meinheld.Session.Parse.{Report, execute_parse, parser_finish}
use meinheld.Session.Serve.{answer_error}
use meinheld.Session.Close.{app_status, serve_next}

-- What `read` gives: so many bytes, the end of the stream, EAGAIN or EWOULDBLOCK, ECONNRESET, or
-- another error.
pub data Read : Type 0 where
  read_bytes : List ℕ → Read
  end_of_stream try_again reset read_failed : Read

-- What reading comes to: 1, 0 or -1.
pub data Finish : Type 0 where
  complete incomplete closed : Finish

-- `compare_key`: 0 is `true`
unfoldable pub compare_key : Environ → List ℕ → List ℕ → Bool
compare_key env key compare = equal (get_item key env)
  where
    equal : Option Value → Bool
    equal (some (text val)) = same_name val compare
    equal v = false

abbrev pub has_key : Option Value → Bool
has_key none = false
has_key (some v) = true

-- `check_websocket`: 1 is `true`
unfoldable pub check_websocket : Environ → Bool
unfolding compare_key
check_websocket env =
    has_key (get_item (codes "HTTP_SEC_WEBSOCKET_KEY") env)
    && compare_key env (codes "HTTP_SEC_WEBSOCKET_VERSION") (codes "13")

-- `parse_new_protocol`: 1 is `true`
unfoldable pub parse_new_protocol : Request → Bool
unfolding check_websocket compare_key
parse_new_protocol req =
    compare_key req.environ (codes "HTTP_UPGRADE") (codes "websocket")
    && check_websocket req.environ

module _ {P : Type 0} (w : World P) (close : Session P → Run (Session P)) where
  -- `set_bad_request_code`
  unfoldable pub set_bad_request_code : ℕ → Option ℕ → Session P → Run (Finish × Session P)
  set_bad_request_code status_code none s = stuck
  set_bad_request_code status_code (some r) s =
      done (complete, stored s r (record (s.requests r) { bad_request_code = status_code }))

  abbrev pub close_finished : Session P → Run (Finish × Session P)
  close_finished s = and_then (close s) (λ t. done (closed, t))

  -- `set_read_error`
  unfoldable pub set_read_error : ℕ → Session P → Run (Finish × Session P)
  unfolding set_bad_request_code
  set_read_error code s =
      let status_code = if code == 0 then 400 else code in
      let lost = record s { client = record s.client { keep_alive = false } } in
      let coded = record lost { client = record lost.client { status_code = status_code } } in
      if is_positive lost.request_queue.size
      then set_bad_request_code status_code lost.request_queue.tail lost
      else if lost.complete
      then close_finished lost
      else and_then (answer_error w coded) close_finished

  -- `read_timeout`
  unfoldable pub read_timeout : Session P → Run (Finish × Session P)
  unfolding set_read_error
  read_timeout s = set_read_error 408 s

  abbrev pub finished : Session P → Run (Finish × Session P)
  finished s = done ((if parser_finish w s then complete else incomplete), s)

  -- `parse_http_request` after the run of the parser over `r` bytes, of which it read `nread`. An
  -- upgrade without a request is the read of a NULL.
  unfoldable pub parsed : Option ℕ → ℕ → ℕ × Session P → Run (Finish × Session P)
  unfolding set_read_error
  parsed none r (nread, s) = if s.upgrade then stuck else set_read_error 400 s
  parsed (some q) r (nread, s) =
      let code = (s.requests q).bad_request_code in
      let refused = set_read_error code s in
      if s.upgrade
      then (if parse_new_protocol (s.requests q) then finished s else refused)
      else if not (nread == r) || ltb 0 code
      then refused
      else finished s

  module _ (http_parser_execute : P → List ℕ → List (Report P) × ℕ × P) where
    -- `parse_http_request`
    unfoldable pub parse_http_request : List ℕ → Session P → Run (Finish × Session P)
    unfolding parsed execute_parse
    parse_http_request buf s =
        let (nread, t) = execute_parse w http_parser_execute buf s in
        parsed t.current_req (length buf) (nread, t)

    -- `read_request`, by what `read` gives
    unfoldable pub read_request : Read → Session P → Run (Finish × Session P)
    unfolding parse_http_request set_read_error
    read_request (read_bytes buf) s = parse_http_request buf s
    read_request end_of_stream s = set_read_error 503 s
    read_request try_again s = done (incomplete, s)
    read_request reset s = set_read_error 500 (record s {
      client = record s.client { keep_alive = false; header_done = true; response_closed = true };
    })
    read_request read_failed s =
        set_read_error 500 (record s { client = record s.client { keep_alive = false } })

    -- The end of `read_callback`
    unfoldable pub read_finished : Finish × Session P → Run (Session P)
    read_finished (complete, s) = serve_next w close (unwatch s)
    read_finished (incomplete, s) = done s
    read_finished (closed, s) = done s

    -- `read_callback`; `none` is the event of a timeout.
    unfoldable pub read_callback : Option Read → Session P → Run (Session P)
    unfolding read_request read_timeout read_finished
    read_callback none s = and_then (read_timeout s) read_finished
    read_callback (some r) s = and_then (read_request r s) read_finished

    unfoldable pub accept_finished : Finish × Session P → Run (Session P)
    accept_finished (complete, s) = serve_next w close s
    accept_finished (incomplete, s) = done (watch s)
    accept_finished (closed, s) = done s

    -- `accept_callback` for one descriptor that `accept` gives; `s` has its socket and is not
    -- watched.
    unfoldable pub accept_client : Read → Session P → Run (Session P)
    unfolding read_request accept_finished
    accept_client r s = and_then (read_request r (Session.new_client w false s)) accept_finished

  -- `trampoline_callback` for a client, after a timeout or when its descriptor can be written: the
  -- greenlet of `app_handler` goes on, which does not ask for the exception of a timeout.
  unfoldable pub trampoline_callback : Bool → Session P → Run (Session P)
  trampoline_callback timed_out s =
      let alive = if timed_out then false else s.client.keep_alive in
      let (status, client) = process_body (record s.client { keep_alive = alive }) in
      app_status w close (status, client) (record (unwatch s) { phase = serving })
