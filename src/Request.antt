-- ===== src/Request.antt =====
-- meinheld/server/request.h and the parser's callbacks in
-- meinheld/server/http_request_parser.c, on the request that is being read. A callback returns
-- `true` for 0 and `false` for -1. CPython's allocations and dictionary operations succeed.
pub mod Body
pub mod Headers
pub mod Fields
pub mod Block
mod Tests
use meinheld.Base.{
  ℕ, zero, suc, ◌+◌, ◌-◌, ◌*◌, ◌/◌, ◌%◌, ◌^◌, ◌≤◌, ◌<◌, min, max, ◌≡◌, refl, sym, ap, ◌∙◌, ◌≢◌, ◌↔◌,
  ◌⊎◌, inl, inr, Bool, true, false, not, ◌&&◌, ◌||◌, Option, none, some, List, [], ◌∷◌, ◌++◌,
  append-nil, append_assoc, arith, ltb, leb, ◌==◌, if◌then◌else◌, ==_iff, Bool-cases, Option-cases,
  length, get_elem?, get_or, set, take, drop, replicate, All, length-append, length-set,
  length-take, length-drop, take_all, drop_all, take-append, take-append-drop, take-take, drop-drop,
  get_or-set, set-perm, move-perm, set-get_or, set-set, All-append, All-by_index, All-perm,
  length-perm, get_or-append, get_or-take, concat-perm, take-append-last, codes, bytes_eq,
  bytes_eq_iff, take_until, to_upper,
}
use meinheld.Base.Int.{ℤ}
use meinheld.Buffer.{Buffer, WriteResult, write_ok, memory_error, limit_over, new_buffer, write2buf}
use meinheld.Environ.{Value, text, Environ, get_item, set_item, replace_env_key}

abbrev pub limit_path : ℕ
limit_path = 1024 * 8

abbrev pub limit_request_fields : ℕ
limit_request_fields = 128

abbrev pub limit_request_field_size : ℕ
limit_request_field_size = 1024 * 8

-- `field_type`
pub data FieldType : Type 0 where
  field value : FieldType

-- `request_body_type`
pub data BodyType : Type 0 where
  none_type tmpfile buffer : BodyType

-- What `body` points to.
pub data RequestBody : Type 0 where
  no_body : RequestBody
  in_memory : Buffer → RequestBody
  in_file : List ℕ → RequestBody

-- A reference that the request owns: NULL, an object, or one that was released and not cleared.
pub data Ref : Type 0 where
  null : Ref
  live : List ℕ → Ref
  released : Ref

-- `request`
pub record Request : Type 0 where
  pub path : Option Buffer
  pub num_headers : ℕ
  pub last_header_element : FieldType
  pub environ : Environ
  pub method : ℕ
  pub body_length : ℕ
  pub body_readed : ℕ
  pub bad_request_code : ℕ
  pub body : RequestBody
  pub body_type : BodyType
  pub field_ref : Ref
  pub value_ref : Ref
  pub start_msec : ℕ

-- `new_request`: all fields are zero.
unfoldable pub new_request : Request
new_request = record {
  path = none;
  num_headers = 0;
  last_header_element = field;
  environ = [];
  method = 0;
  body_length = 0;
  body_readed = 0;
  bad_request_code = 0;
  body = no_body;
  body_type = none_type;
  field_ref = null;
  value_ref = null;
  start_msec = 0;
}

-- What `Py_XDECREF` comes to: nothing for NULL, the release of an object, its second release, or the
-- release of a `buffer_t`, which is no object.
pub data Release : Type 0 where
  no_release object_released second_release not_an_object : Release

abbrev pub release_ref : Ref → Release
release_ref null = no_release
release_ref (live s) = object_released
release_ref released = second_release

abbrev pub release_path : Option Buffer → Release
release_path none = no_release
release_path (some path) = not_an_object

-- `free_request`: what the releases of `path`, `field` and `value` come to
pub free_request : Request → Release × Release × Release
free_request req = (release_path req.path, release_ref req.field_ref, release_ref req.value_ref)

-- `key_upper`, and the loop of `get_http_header_key`
pub key_upper : List ℕ → List ℕ
key_upper [] = []
key_upper (c ∷ key) = (if c == b'-' then b'_' else to_upper c) ∷ key_upper key

-- `get_http_header_key`
pub get_http_header_key : List ℕ → List ℕ
get_http_header_key s = codes "HTTP_" ++ key_upper s

-- `s[i] > 127` for a signed `char`
above_ascii : ℕ → Bool
above_ascii b = if ltb b 128 then ltb 127 b else false

-- `check_field_name`
pub check_field_name : List ℕ → Bool
unfolding above_ascii
check_field_name [] = true
check_field_name (c ∷ s) = if above_ascii c then false else check_field_name s

-- The value that `add_header` stores: a repeated field is joined by a comma.
pub joined : Option Value → List ℕ → Value
joined none v = text v
joined (some (text u)) v = text (u ++ codes ", " ++ v)
joined (some other) v = other

pub add_pair : Ref → Ref → Request → Bool × Request
unfolding joined
add_pair (live k) (live v) req = (
  true,
  record req {
    environ = set_item k (joined (get_item k req.environ) (take_until 0 v)) req.environ;
    num_headers = req.num_headers + 1;
    field_ref = null;
    value_ref = null;
  },
)
add_pair _ _ req = (false, req)

-- `add_header`. The value is a C string. The assertion that both references are set fails where the
-- result is `false`.
pub add_header : Request → Bool × Request
unfolding add_pair
add_header req = add_pair req.field_ref req.value_ref req

-- A piece that joins an object: the old object is released by the concatenation, and stays in its
-- place if the result is too long. No piece comes after one that was refused.
pub append_field : Ref → List ℕ → List ℕ × Ref
append_field (live k) c = (k ++ key_upper c, released)
append_field r c = (get_http_header_key c, r)

pub append_value : Ref → List ℕ → List ℕ × Ref
append_value (live v) c = (v ++ c, released)
append_value r c = (c, r)

-- The part of `header_field_cb` that comes before the name is read: a finished header is stored.
pub flush_header : Request → Bool × Request
flush_header req = elim req.last_header_element [
  | field ↦ (true, req)
  | value ↦
      if leb limit_request_fields req.num_headers
      then (false, record req { bad_request_code = 400 })
      else add_header req
]

-- The rest of `header_field_cb`.
pub take_field : Request → List ℕ → Bool × Request
unfolding append_field
take_field req c =
    let (obj, kept) = append_field req.field_ref c in
    if check_field_name c
    then (if ltb limit_request_field_size (length obj)
        then (false, record req { bad_request_code = 400; field_ref = kept })
        else (true, record req { field_ref = live obj; last_header_element = field }))
    else (false, record req { bad_request_code = 400 })

-- `header_field_cb`
pub header_field_cb : Request → List ℕ → Bool × Request
header_field_cb req c =
    let (ok, req') = flush_header req in if ok then take_field req' c else (false, req')

-- `header_value_cb`
pub header_value_cb : Request → List ℕ → Bool × Request
header_value_cb req c =
    let (obj, kept) = append_value req.value_ref c in
    if ltb limit_request_field_size (length obj)
    then (false, record req { bad_request_code = 400; value_ref = kept })
    else (true, record req { value_ref = live obj; last_header_element = value })

abbrev pub path_or : Option Buffer → Buffer → Buffer
path_or none b = b
path_or (some path) b = path

-- What `url_cb` makes of the result of its write.
url_result : Request → WriteResult × Buffer → Bool × Request
url_result req (write_ok, b) = (true, record req { path = some b })
url_result req (limit_over, b) = (false, record req { path = some b; bad_request_code = 400 })
url_result req (memory_error, b) = (false, record req { path = some b; bad_request_code = 500 })

-- `url_cb`. The first argument says whether there is memory for the buffer to grow.
pub url_cb : Bool → Request → List ℕ → Bool × Request
unfolding url_result
url_cb has_memory req c =
    url_result req (write2buf has_memory (path_or req.path (new_buffer 1024 limit_path)) c)
