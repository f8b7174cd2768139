-- ===== src/Session/Serve.antt =====
-- meinheld/server/server.c: what happens to one request of a client, from the queue to the access
-- log. `close` is `close_client`, which these functions call and which calls them.
use meinheld.Base.{
  ℕ, suc, ◌+◌, ◌-◌, ◌%◌, ◌^◌, Bool, true, false, Option, none, some, List, [], ◌∷◌, ◌++◌, ltb, ◌==◌,
  if◌then◌else◌, take, codes, bytes_eq,
}
use meinheld.Environ.{
  Value, text, flag, number, input_object, input_file, Environ, get_item, set_item,
}
use meinheld.Queue.{shift_request}
use meinheld.Request.{Request, RequestBody, no_body, in_memory, in_file}
use meinheld.Response.{Answer, room, again, failed}
use meinheld.Response.Client.{Client, iterable, c_str, upper}
use meinheld.Response.ErrorPage.{send_error_page}
use meinheld.Session.{World, Session, Run, done, stuck, and_then, stored}
use meinheld.Session.Parse.{new_environ}

module _ {P : Type 0} (w : World P) where
  -- `set_log_value`
  unfoldable pub set_log_value : Client → ℕ → Environ → Environ
  set_log_value client delta_msec environ = set_item (codes "LOCAL_TIME") (text w.http_log_time) (
      set_item (codes "REQUEST_TIME") (number delta_msec) (
        set_item (codes "SEND_BYTES") (number client.write_bytes)
          (set_item (codes "STATUS_CODE") (number client.status_code) environ)))

  abbrev pub delta : ℕ → ℕ
  delta start_msec =
      if ltb 0 start_msec then (w.current_msec + (2 ^ 64 - start_msec)) % 2 ^ 64 else 0

  -- The line that `clean_client` gives to the access logger, if it gives one
  unfoldable pub access_line : Option ℕ → Session P → List Environ
  unfolding set_log_value
  access_line (some r) s =
      set_log_value s.client (delta (s.requests r).start_msec) (s.requests r).environ ∷ []
  access_line none s =
      if s.client.status_code == 408 then [] else set_log_value s.client 0 (new_environ w) ∷ []

  -- `clean_client`. The request is given back, and the response's objects are released.
  unfoldable pub clean_client : Session P → Session P
  unfolding access_line
  clean_client s = record s {
    log = s.log ++ (if w.is_write_access_log then access_line s.current_req s else []);
    current_req = none;
    client = record s.client {
      http_status = none;
      headers = none;
      response_iter = none;
      response = iterable none;
      close = none;
      header_done = false;
      response_closed = false;
      chunked_response = false;
      content_length_set = false;
      content_length = 0;
      write_bytes = 0;
    };
  }

  abbrev pub is_head_of : Option ℕ → Session P → Bool
  is_head_of none s = s.client.is_head
  is_head_of (some r) s = (s.requests r).method == 2

  -- `set_current_request`
  unfoldable pub set_current_request : Session P → Session P
  set_current_request s =
      let (req, q) = shift_request s.request_queue in
      record s {
        request_queue = q;
        current_req = req;
        client = record s.client { is_head = is_head_of req s };
      }

  unfoldable pub with_client : Session P → Option Client → Run (Session P)
  with_client s none = stuck
  with_client s (some client) = done (record s { client = client })

  -- `send_error_page` on a client of the loop
  unfoldable pub answer_error : Session P → Run (Session P)
  unfolding with_client
  answer_error s = with_client s (send_error_page w.epipe s.client)

  module _ (close : Session P → Run (Session P)) where
    -- An error page and `close_client`: the result -1 and what is left
    abbrev pub refuse : Session P → Run (Bool × Session P)
    refuse s = and_then (answer_error s) (λ t. and_then (close t) (λ u. done (false, u)))

    unfoldable pub check_head : Session P → Option ℕ → Run (Bool × Session P)
    unfolding set_current_request
    check_head s none = done (true, s)
    check_head s (some r) =
        let code = (s.requests r).bad_request_code in
        let next = set_current_request s in
        let refused = refuse (record next { client = record next.client { status_code = code } }) in
        if ltb 200 code then refused else done (true, s)

    -- `check_status_code`; the flag is `false` for -1.
    unfoldable pub check_status_code : Session P → Run (Bool × Session P)
    unfolding check_head
    check_status_code s = check_head s s.request_queue.head

    abbrev pub continue_line : List ℕ
    continue_line = codes "HTTP/1.1 100 Continue" ++ (13 ∷ 10 ∷ 13 ∷ 10 ∷ [])

    -- The `write` of `check_http_expect`, which is made once
    unfoldable pub write_continue : List Answer → Session P → Run (Bool × Session P)
    write_continue (room n ∷ answers) s = done (
      true,
      record s {
        client = record s.client {
          answers = answers;
          out = s.client.out ++ take (suc n) continue_line;
        };
      },
    )
    write_continue (again ∷ answers) s = refuse (record s {
      client = record s.client { answers = answers; keep_alive = false; status_code = 500 };
    })
    write_continue (failed ∷ answers) s = refuse (record s {
      client = record s.client { answers = answers; keep_alive = false; status_code = 500 };
    })
    write_continue [] s =
        refuse (record s { client = record s.client { keep_alive = false; status_code = 500 } })

    -- `check_http_expect`, by the header's value
    unfoldable pub expected : Option Value → Session P → Run (Bool × Session P)
    unfolding write_continue
    expected (some (text val)) s =
        let continued = write_continue s.client.answers s in
        let refused =
          refuse
            (record s { client = record s.client { keep_alive = false; status_code = 417 } }) in
        if bytes_eq (upper (take 12 (c_str val))) (upper (codes "100-continue"))
        then continued
        else refused
    expected v s = done (true, s)

    -- `check_http_expect`
    unfoldable pub check_http_expect : ℕ → Session P → Run (Bool × Session P)
    unfolding expected
    check_http_expect r s =
        let checked = expected (get_item (codes "HTTP_EXPECT") (s.requests r).environ) s in
        if s.client.http_minor == 1 then checked else done (true, s)

    -- The value of `wsgi.input`: `set_input_file` and `set_input_object`
    unfoldable pub input_of : RequestBody → Value
    input_of no_body = input_object []
    input_of (in_memory b) = input_object (take b.len b.bytes)
    input_of (in_file f) = input_file f

    -- `set_input_file` and `set_input_object` with the store of `wsgi.input_terminated`
    unfoldable pub set_input : Request → Request
    unfolding input_of
    set_input req = record req {
      environ =
          set_item (codes "wsgi.input_terminated") (flag true)
            (set_item (codes "wsgi.input") (input_of req.body) req.environ);
      body = no_body;
    }

    -- The end of `prepare_call_wsgi`
    unfoldable pub prepared : ℕ → Bool × Session P → Run (Bool × Session P)
    unfolding set_input
    prepared r (false, s) = done (false, s)
    prepared r (true, s) =
        let t = stored s r (set_input (s.requests r)) in
        done (
          true,
          record t {
            client = record t.client {
              keep_alive = if w.is_keep_alive then t.client.keep_alive else false;
            };
          },
        )

    unfoldable pub prepare_current : Session P → Option ℕ → Run (Bool × Session P)
    unfolding check_http_expect prepared
    prepare_current s none = stuck
    prepare_current s (some r) = and_then (check_http_expect r s) (prepared r)

    -- `prepare_call_wsgi`
    unfoldable pub prepare_call_wsgi : Session P → Run (Bool × Session P)
    unfolding set_current_request prepare_current
    prepare_call_wsgi s =
        prepare_current (set_current_request s) (set_current_request s).current_req
