-- ===== src/Response/Client.antt =====
-- meinheld/server/response.c and client.h: what a client keeps of its response, and the header.
use meinheld.Base.{
  ℕ, zero, suc, ◌+◌, ◌/◌, ◌%◌, ◌^◌, Bool, true, false, not, ◌&&◌, ◌||◌, Option, none, some, List,
  [], ◌∷◌, ◌++◌, ltb, ◌==◌, if◌then◌else◌, codes, bytes_eq, take_until, to_upper,
}
use meinheld.Base.Int.{ℤ, pos, negsuc}
use meinheld.Response.{Bucket, set2bucket, add_header, Answer}

-- A Python string: its Latin-1 bytes, or one that has none (or no string at all).
pub data Text : Type 0 where
  latin1 : List ℕ → Text
  not_latin1 : Text

-- An entry of the list of headers that the application gave
pub data Header : Type 0 where
  pair : Text → Text → Header
  not_pair : Header

-- What `PyIter_Next` gives: a byte string, another object, or an exception. The end of a list of
-- them is the end of the iteration.
pub data Item : Type 0 where
  bytes : List ℕ → Item
  not_bytes : Item
  raised : Item

-- `client->response`: a file wrapper, by the bytes of its file from the present offset and what
-- `fstat` says of its size, or another object, by its iterator if it has one.
pub data Body : Type 0 where
  file : List ℕ → Option ℕ → Body
  iterable : Option (List Item) → Body

-- `client_t`, its fields for the response, and its socket: the kernel's answers and what went out.
-- `close` is whether the response's method `close` raises, if there is one; `read_shut` is set once
-- `shutdown` has ended the socket's reading side.
pub record Client : Type 0 where
  pub keep_alive : Bool
  pub is_head : Bool
  pub http_minor : ℕ
  pub status_code : ℕ
  pub http_status : Option (List ℕ)
  pub headers : Option (List Header)
  pub header_done : Bool
  pub response : Body
  pub close : Option Bool
  pub response_iter : Option (List Item)
  pub chunked_response : Bool
  pub content_length_set : Bool
  pub content_length : ℕ
  pub write_bytes : ℕ
  pub bucket : Option Bucket
  pub response_closed : Bool
  pub read_shut : Bool
  pub answers : List Answer
  pub out : List ℕ

abbrev pub u64 : ℕ → ℕ
u64 n = n % 2 ^ 64

-- The part of a byte string that the C functions on strings see
unfoldable pub c_str : List ℕ → List ℕ
c_str s = take_until 0 s

unfoldable pub has_byte : ℕ → List ℕ → Bool
has_byte c [] = false
has_byte c (d ∷ s) = (c == d) || has_byte c s

unfoldable pub upper : List ℕ → List ℕ
upper [] = []
upper (c ∷ s) = to_upper c ∷ upper s

-- `!strcasecmp`
unfoldable pub same_name : List ℕ → List ℕ → Bool
same_name s t = bytes_eq (upper (c_str s)) (upper (c_str t))

abbrev pub server : List ℕ
server = codes "meinheld/1.0.2"

-- `add_status_line`, with the clock's `http_time`
unfoldable pub add_status_line : List ℕ → Bucket → Client → Bucket
add_status_line http_time b client = status_line client.http_status
  where
    status_line : Option (List ℕ) → Bucket
    status_line none = b
    status_line (some value) =
        add_header (add_header (set2bucket b value) (codes "Server") server) (codes "Date")
          http_time

-- The digits of a number, the first argument at most
unfoldable pub dec_digits : ℕ → ℕ → List ℕ
dec_digits zero n = []
dec_digits (suc fuel) n =
    let more = dec_digits fuel (n / 10) in
    if ltb n 10 then (n + 48) ∷ [] else more ++ (n % 10 + 48) ∷ []

-- `is_no_body`
unfoldable pub is_no_body : Client → Bool
is_no_body client =
    if client.is_head
    then true
    else ltb client.status_code 200 || (client.status_code == 204) || (client.status_code == 304)

-- What `add_all_headers` comes to: 1, -1, or the read of a NULL for a string that is not Latin-1.
pub data Added : Type 0 where
  added : Bucket → Client → Added
  refused : Bucket → Client → Added
  null_read : Added

-- `strtol` gives the number at the start of a string, and whether that is all of it and in range.
module _ (strtol : List ℕ → ℤ × Bool) where
  -- What `add_all_headers` does with a name and a value that it sends
  unfoldable pub content_length_header : Client → List ℕ → List ℕ → Option Client
  content_length_header client name value =
      if not client.content_length_set && same_name name (codes "Content-Length")
      then parsed (strtol (c_str value))
      else some client
    where
      parsed : ℤ × Bool → Option Client
      parsed (pos l, true) = some (record client { content_length_set = true; content_length = l })
      parsed (negsuc l, true) = none
      parsed (l, false) = none

  -- The test of a name and a value for the characters that a header has not
  unfoldable pub bad_header : List ℕ → List ℕ → Bool
  bad_header name value =
      has_byte 58 (c_str name) || has_byte 10 (c_str name) || has_byte 10 (c_str value)

  -- The names that the server itself sends
  unfoldable pub own_header : List ℕ → Bool
  own_header name = same_name name (codes "Server") || same_name name (codes "Date")

  unfoldable pub add_parsed : Bucket → Client → List ℕ → List ℕ → Option Client → Added → Added
  add_parsed b client name value none rest = refused b client
  add_parsed b client name value (some parsed) rest = rest

  -- `add_all_headers`
  unfoldable pub add_all_headers : Bucket → List Header → Client → Added
  unfolding bad_header own_header content_length_header
  add_all_headers b [] client = added b client
  add_all_headers b (not_pair ∷ headers) client = refused b client
  add_all_headers b (pair not_latin1 value ∷ headers) client = null_read
  add_all_headers b (pair (latin1 name) not_latin1 ∷ headers) client = null_read
  add_all_headers b (pair (latin1 name) (latin1 value) ∷ headers) client =
      let skipped = add_all_headers b headers client in
      let parsed = content_length_header client name value in
      let sent = add_all_headers (add_header b name value) headers (parsed_or client parsed) in
      if bad_header name value
      then refused b client
      else if own_header name
      then skipped
      else add_parsed b client name value parsed sent
    where
      parsed_or : Client → Option Client → Client
      parsed_or client none = client
      parsed_or client (some next) = next
