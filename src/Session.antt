-- ===== src/Session.antt =====
-- meinheld/server/server.c and client.h: a connection from the bytes that are read to the response,
-- in the build with greenlets. The queue's requests are numbers with a store.
pub mod Parse
pub mod Serve
pub mod Close
pub mod Events
pub mod Serves
pub mod Counted
pub mod Served
pub mod Ends
pub mod Reading
pub mod Readable
pub mod Loop
pub mod Plain
pub mod Whole
pub mod Kept
pub mod BadRequest
pub mod Respond
mod Runs
mod Tests
use meinheld.Base.{
  ℕ, zero, suc, ◌+◌, ◌-◌, ◌*◌, ◌/◌, ◌%◌, ◌^◌, ◌≤◌, ◌<◌, min, max, ◌≡◌, refl, sym, ap, ◌∙◌, ◌≢◌, ◌↔◌,
  ◌⊎◌, inl, inr, Bool, true, false, not, ◌&&◌, ◌||◌, Option, none, some, List, [], ◌∷◌, ◌++◌,
  append-nil, append_assoc, arith, ltb, leb, ◌==◌, if◌then◌else◌, ==_iff, Bool-cases, Option-cases,
  length, get_elem?, get_or, set, take, drop, replicate, All, length-append, length-set,
  length-take, length-drop, take_all, drop_all, take-append, take-append-drop, take-take, drop-drop,
  get_or-set, set-perm, move-perm, set-get_or, set-set, All-append, All-by_index, All-perm,
  length-perm, get_or-append, get_or-take, concat-perm, take-append-last, codes, bytes_eq,
  bytes_eq_iff, take_until, to_upper, drop-append-long, drop-append-short,
}
use meinheld.Base.Int.{ℤ, pos, inc, dec}
use meinheld.Environ.{Environ}
use meinheld.Queue.{RequestQueue, new_request_queue, shift_request}
use meinheld.Request.{Request}
use meinheld.Request.Body.{Limits}
use meinheld.Response.{Answer}
use meinheld.Response.Client.{Client, Text, Item, Body, iterable}
use meinheld.Response.Start.{HeaderArg, ExcInfo}

-- What a call of the application does: its calls of `start_response`, with their `exc_info`, and its result, with whether the `close` that it may have raises.
pub data AppResult : Type 0 where
  returned : Body → Option Bool → AppResult
  returned_none raised : AppResult

pub record Called : Type 0 where
  pub calls : List (Text × HeaderArg × ExcInfo)
  pub result : AppResult

-- What a connection depends on and does not change: settings, the clock, the application, the
-- library's functions, and whether an error of `write` is EPIPE. `Parser` is the parser's state.
pub record World (Parser : Type 0) : Type 0 where
  pub is_keep_alive : Bool
  pub is_write_access_log : Bool
  pub server_name : List ℕ
  pub server_port : List ℕ
  pub remote_addr : List ℕ
  pub remote_port : List ℕ
  pub limits : Limits
  pub current_msec : ℕ
  pub http_time : List ℕ
  pub http_log_time : List ℕ
  pub strtol : List ℕ → ℤ × Bool
  pub wsgi_app : Environ → Called
  pub new_parser : Parser
  pub http_minor : Parser → ℕ
  pub epipe : Bool
  pub has_memory : Bool

-- Whether the connection is being read or served, waits for the socket to take more of a response,
-- or is closed and given back.
pub data Phase : Type 0 where
  serving waiting gone : Phase

-- `client_t` with the loop's state for its descriptor, and the lines of the access log.
pub record Session (Parser : Type 0) : Type 0 where
  pub client : Client
  pub parser : Parser
  pub request_queue : RequestQueue
  pub requests : ℕ → Request
  pub next_request : ℕ
  pub current_req : Option ℕ
  pub complete : Bool
  pub upgrade : Bool
  pub active : Bool
  pub activecnt : ℤ
  pub phase : Phase
  pub log : List Environ

-- The fields of a response in a new `client_t`
abbrev pub zero_client : Bool → Bool → List Answer → List ℕ → Client
zero_client keep_alive read_shut answers out = record {
  keep_alive = keep_alive;
  is_head = false;
  http_minor = 0;
  status_code = 0;
  http_status = none;
  headers = none;
  header_done = false;
  response = iterable none;
  close = none;
  response_iter = none;
  chunked_response = false;
  content_length_set = false;
  content_length = 0;
  write_bytes = 0;
  bucket = none;
  response_closed = false;
  read_shut = read_shut;
  answers = answers;
  out = out;
}

-- `new_client_t` and `init_parser`, on the connection of an earlier client
unfoldable pub new_client : {P : Type 0} → World P → Bool → Session P → Session P
new_client w keep_alive s = record s {
  client = zero_client keep_alive s.client.read_shut s.client.answers s.client.out;
  parser = w.new_parser;
  request_queue = new_request_queue;
  current_req = none;
  complete = true;
  upgrade = false;
}

-- `picoev_add` and `picoev_del`, which succeed, with the count of what the loop watches
unfoldable pub watch : {P : Type 0} → Session P → Session P
watch s = if s.active then s else record s { active = true; activecnt = inc s.activecnt }

unfoldable pub unwatch : {P : Type 0} → Session P → Session P
unwatch s = if s.active then record s { active = false; activecnt = dec s.activecnt } else s

-- A store to a request
abbrev pub stored : {P : Type 0} → Session P → ℕ → Request → Session P
stored s r req = record s { requests = λ q. if q == r then req else s.requests q }

-- What a call comes to: a session, the read of a NULL or a wait without end, or no fuel.
pub data Run {ℓ} (A : Type ℓ) : Type ℓ where
  done : A → Run A
  stuck no_fuel : Run A

abbrev pub and_then {ℓ} : {A B : Type ℓ} → Run A → (A → Run B) → Run B
and_then (done a) f = f a
and_then stuck f = stuck
and_then no_fuel f = no_fuel
