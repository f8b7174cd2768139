-- ===== src/Session/Parse.antt =====
-- meinheld/server/http_request_parser.c: a new request's environ, and the run of the parser with its
-- callbacks on a client.
use meinheld.Base.{
  ℕ, suc, Bool, true, false, Option, none, some, List, [], ◌∷◌, if◌then◌else◌, codes,
}
use meinheld.Environ.{Environ, text, flag, object, pair_of, set_item}
use meinheld.Queue.{push_request}
use meinheld.Request.{Request, new_request, header_field_cb, header_value_cb, url_cb}
use meinheld.Request.Body.{Parsed, body_cb, headers_complete_cb}
use meinheld.Session.{World, Session, stored}

-- The keys and values of `setup_static_env`; objects of the process are numbered.
unfoldable pub static_env : List ℕ → List ℕ → Environ
static_env server_name server_port =
    (codes "wsgi.version", pair_of 1 0)
    ∷ (codes "wsgi.url_scheme", text (codes "http"))
    ∷ (codes "wsgi.errors", object 0)
    ∷ (codes "wsgi.multithread", flag false)
    ∷ (codes "wsgi.multiprocess", flag true)
    ∷ (codes "wsgi.run_once", flag false)
    ∷ (codes "SCRIPT_NAME", text [])
    ∷ (codes "SERVER_NAME", text server_name)
    ∷ (codes "SERVER_PORT", text server_port)
    ∷ (codes "wsgi.file_wrapper", object 1)
    ∷ []

-- What the parser reports, in order: the callbacks with their pieces. `url_cb` has no part in the
-- byte after the path, which `headers_complete` gives.
pub data Event : Type 0 where
  message_begin : Event
  url header_field header_value : List ℕ → Event
  headers_complete : ℕ → Parsed → Event
  body : Bool → List ℕ → Event
  message_complete : Bool → Event

-- A callback, with the bytes that are read and the parser's state if it refuses
pub record Report (P : Type 0) : Type 0 where
  pub event : Event
  pub stop_at : ℕ
  pub stopped : P

module _ {P : Type 0} (w : World P) where
  -- `new_environ`
  unfoldable pub new_environ : Environ
  unfolding static_env
  new_environ =
      set_item (codes "REMOTE_PORT") (text w.remote_port) (
        set_item (codes "REMOTE_ADDR") (text w.remote_addr)
          (static_env w.server_name w.server_port))

  -- `message_begin_cb`
  unfoldable pub message_begin_cb : Session P → Session P
  unfolding new_environ
  message_begin_cb s =
      let r = s.next_request in
      let req = record new_request { start_msec = w.current_msec; environ = new_environ } in
      record (stored s r req) {
        request_queue = push_request s.request_queue r;
        next_request = suc r;
        current_req = some r;
        complete = false;
      }

  -- `message_complete_cb`
  unfoldable pub message_complete_cb : Bool → Session P → Session P
  message_complete_cb upgrade s = record s { complete = true; upgrade = upgrade }

  -- A callback on the request that is being read
  abbrev pub on_request : (Request → Bool × Request) → Option ℕ → Session P → Bool × Session P
  on_request f none s = (false, s)
  on_request f (some r) s = let (ok, req) = f (s.requests r) in (ok, stored s r req)

  abbrev pub on_headers : ℕ → Parsed → Option ℕ → Session P → Bool × Session P
  on_headers past p none s = (false, s)
  on_headers past p (some r) s =
      let (ok, keep_alive, req) = headers_complete_cb w.limits past r p (s.requests r) in
      (ok, record (stored s r req) { client = record s.client { keep_alive = keep_alive } })

  -- The table of the callbacks; the library makes no call on a request before it has begun.
  unfoldable pub settings : Event → Session P → Bool × Session P
  unfolding message_begin_cb message_complete_cb
  settings message_begin s = (true, message_begin_cb s)
  settings (url c) s = on_request (λ req. url_cb w.has_memory req c) s.current_req s
  settings (header_field c) s = on_request (λ req. header_field_cb req c) s.current_req s
  settings (header_value c) s = on_request (λ req. header_value_cb req c) s.current_req s
  settings (headers_complete past p) s = on_headers past p s.current_req s
  settings (body chunked c) s =
      on_request (λ req. body_cb w.limits w.has_memory chunked req c) s.current_req s
  settings (message_complete upgrade) s = (true, message_complete_cb upgrade s)

  -- The run over the reports, up to the first that is refused; the end reads `n` bytes.
  unfoldable pub run_callbacks : List (Report P) → ℕ → P → Session P → ℕ × Session P
  unfolding settings
  run_callbacks [] n p s = (n, record s { parser = p })
  run_callbacks (r ∷ rs) n p s =
      let (ok, next) = settings r.event s in
      let more = run_callbacks rs n p next in
      if ok then more else (r.stop_at, record next { parser = r.stopped })

  -- `execute_parse`, with the library's `http_parser_execute`: the reports, the bytes that are read
  -- if none is refused, and the state then
  unfoldable pub execute_parse :
      (P → List ℕ → List (Report P) × ℕ × P) → List ℕ → Session P → ℕ × Session P
  unfolding run_callbacks
  execute_parse http_parser_execute buf s =
      let (reports, n, p) = http_parser_execute s.parser buf in
      let (nread, t) = run_callbacks reports n p (record s { complete = false }) in
      (nread, record t { client = record t.client { http_minor = w.http_minor t.parser } })

  -- `parser_finish`
  unfoldable pub parser_finish : Session P → Bool
  parser_finish s = s.complete
