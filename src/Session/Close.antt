-- ===== src/Session/Close.antt =====
-- meinheld/server/server.c: the call of the application, and `close_client`, which goes on with the
-- next request of the queue.
use meinheld.Base.{
  ℕ, zero, suc, Bool, true, false, Option, none, some, List, [], ◌∷◌, if◌then◌else◌,
}
use meinheld.Base.Int.{is_positive}
use meinheld.Response.{Status, ok, suspend, error, endless}
use meinheld.Response.Client.{Client, Text}
use meinheld.Response.Header.{Result, returned, crashed}
use meinheld.Response.Body.{close_response, response_start}
use meinheld.Response.Start.{
  HeaderArg, ExcInfo, Started, started, start_failed, null_status, response_call,
}
use meinheld.Session.{
  World, Session, Run, done, stuck, no_fuel, and_then, stored, watch, unwatch, AppResult, Called,
  returned_none, raised, waiting, serving, gone,
}
use meinheld.Session
use meinheld.Session.Serve.{
  answer_error, check_status_code, prepare_call_wsgi, clean_client, with_client,
}

module _ {P : Type 0} (w : World P) where
  unfoldable pub call_answered : Started → Client → (Client → Option Client) → Option Client
  call_answered (started next) client go_on = go_on next
  call_answered (start_failed e) client go_on = go_on client
  call_answered null_status client go_on = none

  -- The calls of `start_response` that the application makes, with the errors that it may catch;
  -- `none` is the read of a NULL.
  unfoldable pub start_calls : List (Text × HeaderArg × ExcInfo) → Client → Option Client
  unfolding call_answered
  start_calls [] client = some client
  start_calls ((status, headers, exc_info) ∷ calls) client =
      call_answered (response_call w.strtol client status headers exc_info) client
        (start_calls calls)

  module _ (close : Session P → Run (Session P)) where
    -- The end of `app_handler` after an error
    unfoldable pub app_error : Session P → Run (Session P)
    app_error s =
        let failed = record s.client { status_code = 500 } in
        and_then (answer_error w (record s { client = (close_response failed).1 })) close

    abbrev pub bad_request : Option ℕ → Session P → Session P
    bad_request none s = s
    bad_request (some r) s = stored s r (record (s.requests r) { bad_request_code = 500 })

    -- A turn of the loop of `app_handler`: the response is finished, or failed, or the greenlet
    -- switches to the hub until the socket can be written.
    unfoldable pub app_status : Status × Client → Session P → Run (Session P)
    unfolding app_error
    app_status (ok, client) s = close (record s { client = (close_response client).1 })
    app_status (suspend, client) s =
        done (record (watch (record s { client = client })) { phase = waiting })
    app_status (endless, client) s = stuck
    app_status (error, client) s =
        app_error (bad_request s.current_req (record s { client = client }))

    unfoldable pub app_started : Result → Session P → Run (Session P)
    unfolding app_status
    app_started crashed s = stuck
    app_started (returned status client) s = app_status (status, client) s

    -- `app_handler` by the result of the application
    unfoldable pub app_result : AppResult → Session P → Run (Session P)
    unfolding app_started
    app_result returned_none s = app_error s
    app_result raised s = app_error s
    app_result (Session.returned body close_raises) s =
        let client = record s.client { response = body; close = close_raises } in
        let t = record s { client = client } in
        let closed = close t in
        let sent = app_started (response_start w.strtol w.http_time client) t in
        if client.response_closed then closed else sent

    unfoldable pub app_called : AppResult → Run (Session P) → Run (Session P)
    unfolding app_result
    app_called result s = and_then s (app_result result)

    -- `app_handler`
    unfoldable pub app_handler : Called → Session P → Run (Session P)
    unfolding start_calls app_called with_client
    app_handler called s =
        app_called called.result (with_client w s (start_calls called.calls s.client))

    unfoldable pub handle_current : Session P → Option ℕ → Run (Session P)
    unfolding app_handler
    handle_current s none = stuck
    handle_current s (some r) = app_handler (w.wsgi_app (s.requests r).environ) s

    -- `call_wsgi_handler`, on the current request
    unfoldable pub call_wsgi_handler : Session P → Run (Session P)
    unfolding handle_current
    call_wsgi_handler s = handle_current s s.current_req

    unfoldable pub call_prepared : Bool × Session P → Run (Session P)
    unfolding call_wsgi_handler
    call_prepared (false, s) = done s
    call_prepared (true, s) = call_wsgi_handler s

    unfoldable pub prepare_checked : Bool × Session P → Run (Session P)
    prepare_checked (false, s) = done s
    prepare_checked (true, s) = and_then (prepare_call_wsgi w close s) call_prepared

    -- The test, the preparation and the call that follow one another for the next request
    unfoldable pub serve_next : Session P → Run (Session P)
    unfolding call_prepared prepare_checked
    serve_next s = and_then (check_status_code w close s) prepare_checked

  -- The end of `close_client`: the descriptor is closed, or a new client takes it over and is read.
  unfoldable pub finish_client : Session P → Session P
  finish_client s =
      if s.client.keep_alive
      then record (watch (Session.new_client w true s)) { phase = serving }
      else record s { phase = gone }

  -- `close_client` up to the queue
  unfoldable pub closed_request : Session P → Session P
  closed_request s = clean_client w (
      unwatch (record s {
        client = if s.client.response_closed then s.client else (close_response s.client).1;
      }))

  -- `close_client`; a call takes fuel, and it is enough to have more than there are requests.
  unfoldable pub close_client : ℕ → Session P → Run (Session P)
  unfolding serve_next finish_client closed_request
  close_client zero s = no_fuel
  close_client (suc fuel) s =
      let t = closed_request s in
      let served = serve_next (close_client fuel) t in
      if is_positive t.request_queue.size then served else done (finish_client t)
