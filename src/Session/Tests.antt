-- ===== src/Session/Tests.antt =====
-- The hypotheses of the theorems on connections hold at concrete inputs.
use meinheld.Base.{◌≡◌, refl, true, false, none, some, List, [], ◌∷◌, ◌++◌, arith, codes, length, ℕ}
use meinheld.Base.Int.{pos}
use meinheld.Queue.{RequestQueue}
use meinheld.Request.{new_request}
use meinheld.Response.{Answer, room, error}
use meinheld.Response.ErrorPage.{header_message, page, send_error_page}
use meinheld.Response.Answered.{capacity, answered, send_error_page_lem}
use meinheld.Session.{World, Session, done, zero_client, serving, gone, returned_none}
use meinheld.Session
use meinheld.Response.Client.{Text, latin1, iterable}
use meinheld.Response.Start.{HeaderArg, header_list, ExcInfo, none_given}
use meinheld.Session.Close.{close_client, serve_next, app_status}
use meinheld.Session.Counted.{Ends}
use meinheld.Session.Parse.{Report, Event, message_begin, message_complete}
use meinheld.Session.Reading.{Reading}
use meinheld.Session.Serves.{Serves}
use meinheld.Queue.{new_request_queue}
use meinheld.Request.Block.{HeaderPieces}
use meinheld.Session.Whole.{BlockRead, run_callbacks-BlockRead}
use meinheld.Session.BadRequest.{serve_next-refused, app_status-broken}

-- An application that starts a response and returns an object that is not iterable
abbrev calls : List (Text × HeaderArg × ExcInfo)
calls = (latin1 (codes "200 OK"), header_list [], none_given) ∷ []

abbrev world : World ℕ
world = record {
  is_keep_alive = true;
  is_write_access_log = true;
  server_name = codes "localhost";
  server_port = codes "80";
  remote_addr = codes "127.0.0.1";
  remote_port = codes "4000";
  limits = record { max_content_length = 100; client_body_buffer_size = 10 };
  current_msec = 5;
  http_time = codes "now";
  http_log_time = codes "now";
  strtol = λ s. (pos 200, true);
  wsgi_app = λ env. record { calls = calls; result = Session.returned (iterable none) none };
  new_parser = 0;
  http_minor = λ p. 1;
  epipe = false;
  has_memory = true;
}

abbrev queue_of_one : RequestQueue
queue_of_one = record { head = some 0; tail = some 0; size = pos 1; next = λ r. none }

abbrev session : Session ℕ
session = record {
  client = zero_client true false (room 600 ∷ []) [];
  parser = 0;
  request_queue = queue_of_one;
  requests = λ r. record new_request { bad_request_code = 400 };
  next_request = 1;
  current_req = some 0;
  complete = true;
  upgrade = false;
  active = true;
  activecnt = pos 3;
  phase = serving;
  log = [];
}

serve_next-refused_example :
    (t : Session ℕ) × (serve_next world (close_client world 1) session ≡ done t)
    × (t.phase ≡ gone)
    × (t.client.out ≡ header_message 400 ++ page 400)
unfolding new_request header_message capacity page
serve_next-refused_example =
    serve_next-refused world 0 session 0 refl refl (omega arith) refl refl (omega arith)
      (omega arith)

abbrev no_request : Session ℕ
no_request = record session { request_queue = record queue_of_one { head = none; size = pos 0 } }

app_status-broken_example :
    (t : Session ℕ) × (app_status world
        (close_client world 1)
        (error, record session.client { header_done = true; out = 1 ∷ [] })
        no_request
      ≡ done t)
    × (t.phase ≡ serving)
    × (t.client.out ≡ 1 ∷ [])
    × (t.active ≡ true)
    × (t.client.read_shut ≡ true)
app_status-broken_example =
    app_status-broken world 0 (record session.client { header_done = true; out = 1 ∷ [] })
      no_request refl refl refl

send_error_page_lem_example :
    (left : List Answer) × (send_error_page true (record session.client { status_code = 413 })
      ≡ some (answered left (record session.client { status_code = 413 })))
unfolding header_message page capacity
send_error_page_lem_example =
    send_error_page_lem true (record session.client { status_code = 413 }) refl refl (omega arith)
      (omega arith)

abbrev idle : Session ℕ
idle = record session { request_queue = new_request_queue; current_req = none }

abbrev report : Event → Report ℕ
report e = record { event = e; stop_at = 1; stopped = 1 }

-- A parser that reports the begin and the end of one request in whatever it is given
abbrev one_request : ℕ → List ℕ → List (Report ℕ) × ℕ × ℕ
one_request p buf = (report message_begin ∷ report (message_complete false) ∷ [], length buf, 2)

abbrev accepted : Session ℕ
accepted = record idle { active = false; activecnt = pos 2 }

-- A header that is cut in its name and in its value, twice
abbrev cut : HeaderPieces
cut = record {
  name = codes "X-";
  names = codes "Id" ∷ [];
  value = codes "4";
  values = codes "2" ∷ [];
}

run_callbacks-BlockRead_example :
    BlockRead world 7 9 (codes "/in" ∷ codes "dex" ∷ []) (cut ∷ cut ∷ []) [] 20 4 session
run_callbacks-BlockRead_example =
    run_callbacks-BlockRead world 7 9 (codes "/in" ∷ codes "dex" ∷ []) (cut ∷ cut ∷ []) [] 20 4
      session refl (omega arith) (omega arith)
      ((omega arith, omega arith), ((omega arith, omega arith), tt))
