-- ===== src/Response/Header.antt =====
-- meinheld/server/response.c: `write_headers`, the response's header with the first piece of the body.
use meinheld.Base.{
  ℕ, ◌+◌, ◌*◌, Bool, true, false, not, ◌&&◌, Option, none, some, List, ◌++◌, ◌==◌, if◌then◌else◌,
  length, codes,
}
use meinheld.Base.Int.{ℤ}
use meinheld.Response.{
  Bucket, new_write_bucket, set2bucket, crlf, set_chunked_data, add_header, get_chunk_data, Status,
  ok, suspend, error, endless, writev_bucket,
}
use meinheld.Response.Client.{
  Client, Header, Body, file, iterable, u64, add_status_line, dec_digits, is_no_body, Added, added,
  refused, null_read, add_all_headers,
}

-- A call's result and what it leaves; the process may have crashed.
pub data Result : Type 0 where
  returned : Status → Client → Result
  crashed : Result

-- `writev_bucket` on the client's socket
unfoldable pub write_out : Bucket → Client → Status × Bucket × Client
unfolding writev_bucket
write_out b client =
    let r = writev_bucket client.answers b in
    (r.status, r.bucket, record client { answers = r.answers; out = client.out ++ r.sent })

-- The `Transfer-Encoding` header of `write_headers`
unfoldable pub add_transfer_encoding : Bool → Bucket → Client → Bucket × Client
add_transfer_encoding has_data b client =
    if not (is_no_body client)
      && has_data
      && not client.content_length_set
      && (client.http_minor == 1)
    then (
      add_header b (codes "Transfer-Encoding") (codes "chunked"),
      record client { chunked_response = true },
    )
    else (b, client)

-- `set_file_content_length`; `none` when `fstat` fails.
unfoldable pub set_file_content_length : Bucket → Client → Option (Bucket × Client)
set_file_content_length b client = sized client.response
  where
    sized : Body → Option (Bucket × Client)
    sized (file rest (some size)) = some (
      add_header b (codes "Content-Length") (dec_digits 20 size),
      record client { content_length_set = true; content_length = size },
    )
    sized (file rest none) = none
    sized (iterable items) = none

-- The `Connection` header of `write_headers`
unfoldable pub connection : Client → List ℕ
connection client =
    if client.status_code == 101
    then codes "upgrade"
    else if client.keep_alive
    then codes "Keep-Alive"
    else codes "close"

-- `set_first_body_data`; `none` is a NULL `data`.
unfoldable pub set_first_body_data : Bool → Option (List ℕ) → Bucket → Bucket
set_first_body_data chunked none b = b
set_first_body_data chunked (some data_) b =
    if chunked then set_chunked_data b (get_chunk_data (length data_)) data_ else set2bucket b data_

unfoldable pub has_data : Option (List ℕ) → Bool
has_data none = false
has_data (some data_) = true

unfoldable pub data_length : Option (List ℕ) → ℕ
data_length none = 0
data_length (some data_) = length data_

-- The end of `write_headers`, after the call of `writev_bucket`
unfoldable pub header_written : Option (List ℕ) → Status × Bucket × Client → Result
header_written data_ (suspend, b, client) = returned suspend (record client { bucket = some b })
header_written data_ (error, b, client) =
    returned error (record client { header_done = true; bucket = none })
header_written data_ (endless, b, client) = returned endless client
header_written data_ (ok, b, client) = returned ok (record client {
  header_done = true;
  bucket = none;
  write_bytes =
      if has_data data_ then u64 (client.write_bytes + data_length data_) else client.write_bytes;
})

-- `write_headers` once the length is known
unfoldable pub write_length : Option (List ℕ) → Client → Option (Bucket × Client) → Result
write_length data_ before none = returned error (record before { bucket = none })
write_length data_ before (some (b, client)) =
    let b1 = add_header b (codes "Connection") (connection client) in
    let b2 = set2bucket b1 crlf in
    header_written data_ (write_out (set_first_body_data client.chunked_response data_ b2) client)

-- `write_headers` once the application's headers are added
unfoldable pub write_added : Option (List ℕ) → Bool → Added → Result
write_added data_ is_file null_read = crashed
write_added data_ is_file (refused b client) = returned error (record client { bucket = none })
write_added data_ is_file (added b client) =
    let (b1, next) = add_transfer_encoding (has_data data_) b client in
    if is_file && not next.content_length_set
    then write_length data_ next (set_file_content_length b1 next)
    else write_length data_ next (some (b1, next))

module _ (strtol : List ℕ → ℤ × Bool) (http_time : List ℕ) where
  -- `write_headers`; `none` is a NULL `data`.
  unfoldable pub write_headers : Option (List ℕ) → Bool → Client → Result
  write_headers data_ is_file client =
      if client.header_done then returned ok client else with_headers client.headers
    where
      with_headers : Option (List Header) → Result
      with_headers none = returned error client
      with_headers (some headers) =
          let b = add_status_line http_time (new_write_bucket (length headers * 4 + 42)) client in
          write_added data_ is_file (add_all_headers strtol b headers client)
