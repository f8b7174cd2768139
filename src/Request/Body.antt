-- ===== src/Request/Body.antt =====
-- The body and the end of the headers: `body_cb`, `write_body` and `headers_complete_cb` of
-- meinheld/server/http_request_parser.c.
pub mod Upload
use meinheld.Base.{
  ℕ, zero, suc, ◌+◌, ◌-◌, ◌*◌, ◌/◌, ◌%◌, ◌^◌, ◌≤◌, ◌<◌, min, max, ◌≡◌, refl, sym, ap, ◌∙◌, ◌≢◌, ◌↔◌,
  ◌⊎◌, inl, inr, Bool, true, false, not, ◌&&◌, ◌||◌, Option, none, some, List, [], ◌∷◌, ◌++◌,
  append-nil, append_assoc, arith, ltb, leb, ◌==◌, if◌then◌else◌, ==_iff, Bool-cases, Option-cases,
  length, get_elem?, get_or, set, take, drop, replicate, All, length-append, length-set,
  length-take, length-drop, take_all, drop_all, take-append, take-append-drop, take-take, drop-drop,
  get_or-set, set-perm, move-perm, set-get_or, set-set, All-append, All-by_index, All-perm,
  length-perm, get_or-append, get_or-take, concat-perm, take-append-last, codes, bytes_eq,
  bytes_eq_iff, take_until, to_upper,
}
use meinheld.Buffer.{Buffer, new_buffer, write2buf}
use meinheld.Environ.{Value, text, object, Environ, set_item, replace_env_key}
use meinheld.Url.{Target, set_path}
use meinheld.Request.{
  Request, BodyType, none_type, tmpfile, buffer, RequestBody, no_body, in_memory, in_file, Ref,
  null, live, released, add_header,
}

-- `max_content_length` and `client_body_buffer_size`
pub record Limits : Type 0 where
  pub max_content_length : ℕ
  pub client_body_buffer_size : ℕ

-- `write_body2mem` ignores the result of its write, and counts all bytes.
pub write_body2mem : Bool → Buffer → List ℕ → RequestBody
write_body2mem has_memory b c = in_memory (write2buf has_memory b c).1

pub append_body : Bool → RequestBody → List ℕ → RequestBody
unfolding write_body2mem
append_body has_memory no_body c = no_body
append_body has_memory (in_memory b) c = write_body2mem has_memory b c
append_body has_memory (in_file f) c = in_file (f ++ c)

-- `write_body`, with `write_body2file` and `write_body2mem`: the body has the form that `body_type`
-- says.
pub write_body : Bool → Request → List ℕ → Request
unfolding append_body
write_body has_memory req c = record req {
  body = append_body has_memory req.body c;
  body_readed = req.body_readed + length c;
}

-- The part of `body_cb` that makes a place for the body: `false` with code 411 where there is no
-- length. `tmpfile` succeeds.
pub open_body : Limits → Bool → Request → Bool × Request
open_body limits chunked req = elim req.body_type [
  | none_type ↦
      if (req.body_length == 0) && not chunked
      then (false, record req { bad_request_code = 411 })
      else if ltb limits.client_body_buffer_size req.body_length
      then (true, record req { body = in_file []; body_type = tmpfile })
      else (
        true,
        record req { body = in_memory (new_buffer req.body_length 0); body_type = buffer },
      )
  | _ ↦ (true, req)
]

-- `body_cb`. `chunked` is the parser's flag F_CHUNKED.
pub body_cb : Limits → Bool → Bool → Request → List ℕ → Bool × Request
body_cb limits has_memory chunked req c =
    let (ok, opened) = open_body limits chunked req in
    if ltb limits.max_content_length (req.body_readed + length c)
    then (false, record req { bad_request_code = 413 })
    else if ok
    then (true, write_body has_memory opened c)
    else (false, opened)

-- What the callbacks read of the parser. `should_keep_alive` is what `http_should_keep_alive` says.
pub record Parsed : Type 0 where
  pub content_length : ℕ
  pub http_major : ℕ
  pub http_minor : ℕ
  pub method : ℕ
  pub should_keep_alive : Bool

-- The methods with a name of their own, by their numbers in `enum http_method`.
abbrev method_names : List (ℕ × List ℕ)
method_names =
    (0, codes "DELETE")
    ∷ (1, codes "GET")
    ∷ (2, codes "HEAD")
    ∷ (3, codes "POST")
    ∷ (4, codes "PUT")
    ∷ (24, codes "PATCH")
    ∷ (5, codes "CONNECT")
    ∷ (6, codes "OPTIONS")
    ∷ (7, codes "TRACE")
    ∷ (8, codes "COPY")
    ∷ (9, codes "LOCK")
    ∷ (10, codes "MKCOL")
    ∷ (11, codes "MOVE")
    ∷ (12, codes "PROPFIND")
    ∷ (13, codes "PROPPATCH")
    ∷ (15, codes "UNLOCK")
    ∷ (16, codes "REPORT")
    ∷ (17, codes "MKACTIVITY")
    ∷ (18, codes "CHECKOUT")
    ∷ (19, codes "MERGE")
    ∷ []

name_in : List (ℕ × List ℕ) → ℕ → List ℕ
name_in [] m = codes "GET"
name_in ((n, name) ∷ names) m = if n == m then name else name_in names m

-- The `switch` of `headers_complete_cb`
pub method_name : ℕ → List ℕ
unfolding name_in
method_name m = name_in method_names m

add_query : Option (List ℕ) → Environ → Environ
add_query none env = env
add_query (some q) env = set_item (codes "QUERY_STRING") (text q) env

-- `set_path` and its store; `past` is the byte after the path in its buffer.
pub add_path : ℕ → Option Buffer → Environ → Environ
unfolding add_query
add_path past none env = set_item (codes "PATH_INFO") (text []) env
add_path past (some b) env =
    let target = set_path past (take b.len b.bytes) in
    set_item (codes "PATH_INFO") (text target.path_info) (add_query target.query_string env)

-- The last header is stored if it has a name and a value.
pub last_header : Ref → Ref → Request → Request
last_header (live k) (live v) req = (add_header req).1
last_header _ _ req = req

-- `headers_complete_cb`: the result, `keep_alive` of the client, and the request. `client` stands
-- for the client object.
pub headers_complete_cb : Limits → ℕ → ℕ → Parsed → Request → Bool × Bool × Request
unfolding last_header add_path
headers_complete_cb limits past client p req =
    let sized = not (p.content_length == 2 ^ 64 - 1) in
    let content_length = if sized then p.content_length else 0 in
    let protocol =
      if (p.http_major == 1) && (p.http_minor == 1) then codes "HTTP/1.1" else codes "HTTP/1.0" in
    let started = record req {
      environ =
          add_path past req.path (set_item (codes "SERVER_PROTOCOL") (text protocol) req.environ);
      path = none;
    } in
    let headed = last_header started.field_ref started.value_ref started in
    let typed = replace_env_key (codes "HTTP_CONTENT_TYPE") (codes "CONTENT_TYPE") headed.environ in
    let sized_env = replace_env_key (codes "HTTP_CONTENT_LENGTH") (codes "CONTENT_LENGTH") typed in
    let named = set_item (codes "REQUEST_METHOD") (text (method_name p.method)) sized_env in
    let done = record headed {
      environ = set_item (codes "meinheld.client") (object client) named;
      method = p.method;
      body_length = content_length;
    } in
    if ltb limits.max_content_length content_length
    then (false, p.should_keep_alive, record req { bad_request_code = 413 })
    else (true, p.should_keep_alive, done)
