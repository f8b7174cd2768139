-- ===== src/Session/Runs.antt =====
-- A whole run of a connection: a request in order is answered.
use meinheld.Base.{ℕ, ◌≡◌, refl, true, false, none, some, [], ◌∷◌, ◌++◌, arith, codes, take_until}
use meinheld.Base.Int.{pos}
use meinheld.Environ.{get_item}
use meinheld.Request.{new_request}
use meinheld.Response.{
  room, ok, writev_bucket, advance, prepend, bytes_of, set_chunked_data, set2bucket, add_header,
  new_write_bucket, set_last_chunked_data, get_chunk_data, hex_digits,
}
use meinheld.Response.Client.{
  Client, latin1, iterable, bytes, add_status_line, add_all_headers, is_no_body,
}
use meinheld.Response.Header.{
  Result, returned, crashed, write_headers, write_added, add_transfer_encoding, write_length,
  set_first_body_data, header_written, has_data, write_out, connection,
}
use meinheld.Response.Body.{
  response_start, start_response_write, after_header, process_write, write_items, item_written,
  last_chunk, close_response, call_close, item_bucket,
}
use meinheld.Response.Start.{
  header_list, none_given, response_call, call_unless, parse_status, set_status, with_code, to_int,
  is_empty, create_status, chain_write, status_result,
}
use meinheld.Buffer.{int_cast, write2buf, grown_size, copy_in, py_string, new_buffer}
use meinheld.Session.Serve.{set_current_request}
use meinheld.Session.{World, Session, Called, zero_client, serving}
use meinheld.Session
use meinheld.Session.Close.{start_calls, call_answered, serve_next, close_client}
use meinheld.Session.Respond.{ready, Answered, serve_next-Answered}
use meinheld.Queue.{shift_request, shift_at}

abbrev hello : World ℕ
hello = record {
  is_keep_alive = true;
  is_write_access_log = true;
  server_name = codes "localhost";
  server_port = codes "80";
  remote_addr = codes "127.0.0.1";
  remote_port = codes "4000";
  limits = record { max_content_length = 100; client_body_buffer_size = 10 };
  current_msec = 5;
  http_time = codes "now";
  http_log_time = codes "now";
  strtol = λ s. (pos 200, true);
  wsgi_app = λ env. record {
    calls = (latin1 (codes "200 OK"), header_list [], none_given) ∷ [];
    result = Session.returned (iterable (some (bytes (codes "hello") ∷ []))) none;
  };
  new_parser = 0;
  http_minor = λ p. 1;
  epipe = false;
  has_memory = true;
}

abbrev asked : Session ℕ
asked = record {
  client = record (zero_client true false (room 600 ∷ room 600 ∷ []) []) { http_minor = 1 };
  parser = 0;
  request_queue = record { head = some 0; tail = some 0; size = pos 1; next = λ r. none };
  requests = λ r. new_request;
  next_request = 1;
  current_req = none;
  complete = true;
  upgrade = false;
  active = false;
  activecnt = pos 0;
  phase = serving;
  log = [];
}

abbrev begun : Client
begun = record (ready hello asked 0).client {
  status_code = 200;
  headers = some [];
  http_status = some (codes "HTTP/1.1 200 OK" ++ (13 ∷ 10 ∷ []));
}

abbrev client_of : Result → Client
client_of (returned status c) = c
client_of crashed = begun

abbrev sent : Client
sent = client_of (
    response_start hello.strtol hello.http_time
      (record begun { response = iterable (some (bytes (codes "hello") ∷ [])); close = none }))

started_once :
    start_calls hello
      ((latin1 (codes "200 OK"), header_list [], none_given) ∷ [])
      (ready hello asked 0).client
    ≡ some begun
unfolding start_calls call_answered response_call call_unless parse_status set_status with_code
    to_int is_empty set_current_request shift_request shift_at create_status chain_write
    status_result write2buf grown_size copy_in py_string new_buffer take_until int_cast
started_once = refl

sent_once :
    response_start hello.strtol hello.http_time
      (record begun { response = iterable (some (bytes (codes "hello") ∷ [])); close = none })
    ≡ returned ok sent
unfolding response_start start_response_write after_header write_headers add_status_line
    add_all_headers write_added add_transfer_encoding write_length set_first_body_data
    header_written write_out writev_bucket advance prepend bytes_of process_write write_items
    item_written last_chunk close_response call_close set_chunked_data set2bucket add_header
    new_write_bucket set_last_chunked_data item_bucket get_chunk_data hex_digits is_no_body
    connection set_current_request shift_request shift_at new_request has_data
sent_once = refl

serve_next-Answered_example : Answered hello sent (serve_next hello (close_client hello 1) asked)
unfolding new_request get_item set_current_request
serve_next-Answered_example =
    serve_next-Answered hello 0 asked 0 ((latin1 (codes "200 OK"), header_list [], none_given) ∷ [])
      (iterable (some (bytes (codes "hello") ∷ []))) none begun sent refl refl (omega arith) refl
      refl started_once refl sent_once

-- The response of the run, with its chunks
sent_bytes :
    sent.out
    ≡ codes "HTTP/1.1 200 OK"
      ++ (13 ∷ 10 ∷ [])
      ++ codes "Server: meinheld/1.0.2"
      ++ (13 ∷ 10 ∷ [])
      ++ codes "Date: now"
      ++ (13 ∷ 10 ∷ [])
      ++ codes "Transfer-Encoding: chunked"
      ++ (13 ∷ 10 ∷ [])
      ++ codes "Connection: Keep-Alive"
      ++ (13 ∷ 10 ∷ 13 ∷ 10 ∷ [])
      ++ codes "5"
      ++ (13 ∷ 10 ∷ [])
      ++ codes "hello"
      ++ (13 ∷ 10 ∷ [])
      ++ codes "0"
      ++ (13 ∷ 10 ∷ 13 ∷ 10 ∷ [])
unfolding response_start start_response_write after_header write_headers add_status_line
    add_all_headers write_added add_transfer_encoding write_length set_first_body_data
    header_written write_out writev_bucket advance prepend bytes_of process_write write_items
    item_written last_chunk close_response call_close set_chunked_data set2bucket add_header
    new_write_bucket set_last_chunked_data item_bucket get_chunk_data hex_digits is_no_body
    connection set_current_request shift_request shift_at new_request has_data
sent_bytes = refl
