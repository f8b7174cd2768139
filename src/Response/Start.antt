-- ===== src/Response/Start.antt =====
-- meinheld/server/response.c: `start_response`, the call by which an application sets the status.
use meinheld.Base.{
  ℕ, ◌-◌, ◌^◌, Bool, true, false, ◌||◌, Option, none, some, List, [], ◌∷◌, ltb, ◌==◌, if◌then◌else◌,
  codes, take_until,
}
use meinheld.Base.Int.{ℤ, pos, negsuc, int32}
use meinheld.Buffer.{
  Buffer, WriteResult, write_ok, memory_error, limit_over, new_buffer, write2buf, py_string,
}
use meinheld.Response.{crlf}
use meinheld.Response.Client.{Client, Header, Text, latin1, not_latin1}

-- The writes of `create_status` after the first, each made only when the last was whole
unfoldable pub chain_write : List ℕ → WriteResult × Buffer → WriteResult × Buffer
chain_write c (write_ok, b) = write2buf true b c
chain_write c (memory_error, b) = (memory_error, b)
chain_write c (limit_over, b) = (limit_over, b)

unfoldable pub status_result : WriteResult × Buffer → Option (List ℕ)
status_result (write_ok, b) = some (py_string b)
status_result (memory_error, b) = none
status_result (limit_over, b) = none

-- `create_status`, with memory at hand; `none` is NULL.
unfoldable pub create_status : List ℕ → ℕ → Option (List ℕ)
unfolding chain_write status_result
create_status status http_minor =
    let version = if http_minor == 1 then codes "HTTP/1.1 " else codes "HTTP/1.0 " in
    status_result
      (chain_write crlf (chain_write status (write2buf true (new_buffer 256 0) version)))

-- What `start_response` is called with for its headers
pub data HeaderArg : Type 0 where
  header_list : List Header → HeaderArg
  not_a_list : HeaderArg

pub data StartError : Type 0 where
  original exc_info_not_a_triple headers_already_set headers_not_a_list no_status not_an_integer
        invalid_code :
      StartError

-- The `exc_info` of a call: none or `None`, a tuple of three, or anything else
pub data ExcInfo : Type 0 where
  none_given triple not_a_triple : ExcInfo

-- `None`, an error, or the read of a NULL for a status that is not Latin-1
pub data Started : Type 0 where
  started : Client → Started
  start_failed : StartError → Started
  null_status : Started

unfoldable pub is_empty : List ℕ → Bool
is_empty [] = true
is_empty (c ∷ s) = false

module _ (strtol : List ℕ → ℤ × Bool) where
  -- The conversion of a `long` to `int`
  unfoldable pub to_int : ℤ → ℤ
  to_int (pos n) = int32 n
  to_int (negsuc n) = int32 (2 ^ 64 - 1 - n)

  unfoldable pub with_code : Client → List ℕ → List Header → ℤ → Started
  unfolding create_status
  with_code client status headers (negsuc n) = start_failed invalid_code
  with_code client status headers (pos n) =
      if ltb n 100 || ltb 999 n
      then start_failed invalid_code
      else started (record client {
        status_code = n;
        headers = some headers;
        http_status = create_status status client.http_minor;
      })

  -- The last part of `ResponseObject_call`, for what `strtol` makes of the status up to its first
  -- blank; the code is an `int`.
  unfoldable pub set_status : Client → List ℕ → List Header → ℤ × Bool → Started
  unfolding with_code to_int
  set_status client status headers (code, false) = start_failed not_an_integer
  set_status client status headers (code, true) = with_code client status headers (to_int code)

  unfoldable pub parse_status : Client → Text → HeaderArg → Started
  parse_status client status not_a_list = start_failed headers_not_a_list
  parse_status client not_latin1 (header_list headers) = null_status
  parse_status client (latin1 status) (header_list headers) =
      let line = take_until 0 status in
      if is_empty line
      then start_failed no_status
      else set_status client status headers (strtol (take_until 32 line))

  -- What a call does when headers were set before. `PyArg_ParseTuple` sets its own error for an
  -- `exc_info` that is not three objects.
  unfoldable pub call_again : ExcInfo → Started
  call_again none_given = start_failed headers_already_set
  call_again triple = start_failed original
  call_again not_a_triple = start_failed exc_info_not_a_triple

  -- `ResponseObject_call` by the headers that the client has
  unfoldable pub call_unless : Option (List Header) → Client → Text → HeaderArg → ExcInfo → Started
  unfolding parse_status call_again
  call_unless none client status headers exc_info = parse_status client status headers
  call_unless (some sent) client status headers exc_info = call_again exc_info

  -- `ResponseObject_call`
  unfoldable pub response_call : Client → Text → HeaderArg → ExcInfo → Started
  unfolding call_unless
  response_call client status headers exc_info =
      call_unless client.headers client status headers exc_info
