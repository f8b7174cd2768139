-- ===== src/Response/Body.antt =====
-- meinheld/server/response.c: the body of a response, from an iterator or a file.
use meinheld.Base.{
  ℕ, suc, ◌+◌, ◌%◌, ◌^◌, min, Bool, true, false, ◌&&◌, Option, none, some, List, [], ◌∷◌, ◌++◌, ltb,
  leb, ◌==◌, if◌then◌else◌, length, take, drop,
}
use meinheld.Base.Int.{ℤ}
use meinheld.Response.{
  Bucket, new_write_bucket, set2bucket, set_chunked_data, set_last_chunked_data, get_chunk_data,
  Answer, room, again, failed, Status, ok, suspend, error, endless,
}
use meinheld.Response.Client.{Client, Item, bytes, not_bytes, raised, Body, file, iterable, u64}
use meinheld.Response.Header.{Result, returned, crashed, write_out, write_headers}

-- The call of the response's `close`, where it has one
unfoldable pub call_close : Option Bool → Client → Status × Client
call_close none client = (ok, client)
call_close (some false) client = (ok, record client { response_closed = true })
call_close (some true) client = (error, record client { response_closed = true })

-- `close_response`
unfoldable pub close_response : Client → Status × Client
unfolding call_close
close_response client =
    if client.response_closed then (ok, client) else call_close client.close client

-- The bucket of an item of the body
unfoldable pub item_bucket : Bool → List ℕ → Bucket
item_bucket chunked buf =
    if chunked
    then set_chunked_data (new_write_bucket 4) (get_chunk_data (length buf)) buf
    else set2bucket (new_write_bucket 1) buf

-- The end of `process_write`. The result of `writev_bucket` on the last chunk is not read.
unfoldable pub last_chunk : Client → Status × Client
last_chunk client =
    if client.chunked_response
    then close_response (write_out (set_last_chunked_data (new_write_bucket 3)) client).2
    else close_response client

-- Whether a declared length is reached.
unfoldable pub all_done : Client → Bool
all_done client = client.content_length_set && leb client.content_length client.write_bytes

-- The loop of `process_write` once an item is written; the last argument is the rest of the loop.
unfoldable pub item_written :
    List ℕ → List Item → Status × Bucket × Client → (Client → Status × Client) → Status × Client
item_written buf rest (ok, b, client) go_on =
    let next = record client {
      write_bytes = u64 (client.write_bytes + length buf);
      response_iter = some rest;
    } in
    if all_done next then last_chunk next else go_on next
item_written buf rest (suspend, b, client) go_on =
    (suspend, record client { bucket = some b; response_iter = some rest })
item_written buf rest (error, b, client) go_on =
    (error, record client { bucket = some b; response_iter = some rest })
item_written buf rest (endless, b, client) go_on =
    (endless, record client { bucket = some b; response_iter = some rest })

-- `process_write` over the items that the iterator has left
unfoldable pub write_items : List Item → Client → Status × Client
write_items [] client = last_chunk (record client { response_iter = some [] })
write_items (raised ∷ items) client = (error, record client { response_iter = some items })
write_items (not_bytes ∷ items) client =
    (error, record client { status_code = 500; response_iter = some items })
write_items (bytes buf ∷ items) client =
    item_written buf items (write_out (item_bucket client.chunked_response buf) client)
      (write_items items)

-- `process_write`
unfoldable pub process_write : Client → Status × Client
process_write client = items_of client.response_iter
  where
    items_of : Option (List Item) → Status × Client
    items_of none = (ok, client)
    items_of (some items) = write_items items client

-- What a file's body leaves: the answers and the bytes that are still to come.
unfoldable pub left : List Answer → List ℕ → Option ℕ → Client → Client
left answers rest size client = record client { answers = answers; response = file rest size }

-- Whether `sendfile` gives 0: the file is at its end, or `(int)count` is 0.
abbrev pub gives_none : List ℕ → Client → Bool
gives_none rest client = min (client.content_length % 2 ^ 32) (length rest) == 0

-- The body of the loop of `process_sendfile` where there is something to send, by the answers of
-- `sendfile`, which takes at most `(int)count` bytes and what the file has, and EAGAIN after the last
-- answer. Once `sendfile` gives 0 with bytes left to send, the loop never ends.
unfoldable pub sending : List Answer → List ℕ → Option ℕ → Client → Status × Client
sending [] rest size client = (suspend, left [] rest size client)
sending (again ∷ answers) rest size client = (suspend, left answers rest size client)
sending (failed ∷ answers) rest size client =
    (error, record (left answers rest size client) { keep_alive = false; status_code = 500 })
sending (room n ∷ answers) rest size client =
    let ret = min (suc n) (min (client.content_length % 2 ^ 32) (length rest)) in
    let next = record client {
      write_bytes = u64 (client.write_bytes + ret);
      out = client.out ++ take ret rest;
    } in
    let more = sending answers (drop ret rest) size next in
    let spins : Status × Client = (endless, left answers (drop ret rest) size next) in
    if ltb next.write_bytes next.content_length
    then (if gives_none (drop ret rest) next then spins else more)
    else close_response (left answers (drop ret rest) size next)

-- Whether `(int)count` is negative.
abbrev pub negative_count : Client → Bool
negative_count client = leb (2 ^ 31) (client.content_length % 2 ^ 32)

-- The loop of `process_sendfile`. `sendfile` answers EINVAL to a negative count.
unfoldable pub send_loop : List Answer → List ℕ → Option ℕ → Client → Status × Client
send_loop answers rest size client =
    let refused = record (left answers rest size client) {
      keep_alive = false;
      status_code = 500;
    } in
    if ltb client.write_bytes client.content_length
    then (if negative_count client
        then (error, refused)
        else if gives_none rest client
        then (endless, left answers rest size client)
        else sending answers rest size client)
    else close_response (left answers rest size client)

-- `process_sendfile`
unfoldable pub process_sendfile : Client → Status × Client
process_sendfile client = sent client.response
  where
    sent : Body → Status × Client
    sent (file rest size) = send_loop client.answers rest size client
    sent (iterable items) = (ok, client)

-- `CheckFileWrapper` and the two ways to send a body
unfoldable pub send_body : Client → Status × Client
unfolding process_write process_sendfile
send_body client = by_response client.response
  where
    by_response : Body → Status × Client
    by_response (file rest size) = process_sendfile client
    by_response (iterable items) = process_write client

-- `process_body` once a bucket is retried
unfoldable pub retried : Status × Bucket × Client → Status × Client
unfolding send_body
retried (ok, b, client) =
    send_body
      (record client { write_bytes = u64 (client.write_bytes + b.total_size); bucket = none })
retried (suspend, b, client) = (suspend, record client { bucket = some b })
retried (error, b, client) = (error, record client { bucket = none })
retried (endless, b, client) = (endless, record client { bucket = none })

-- `process_body`
unfoldable pub process_body : Client → Status × Client
unfolding send_body
process_body client = with_bucket client.bucket
  where
    with_bucket : Option Bucket → Status × Client
    with_bucket none = send_body client
    with_bucket (some b) = retried (write_out b client)

-- What follows the header: nothing unless it was sent.
unfoldable pub after_header : Result → (Client → Status × Client) → Result
after_header crashed go_on = crashed
after_header (returned suspend client) go_on = returned suspend client
after_header (returned error client) go_on = returned error client
after_header (returned endless client) go_on = returned endless client
after_header (returned ok client) go_on = returned ((go_on client).0) ((go_on client).1)

module _ (strtol : List ℕ → ℤ × Bool) (http_time : List ℕ) where
  -- `start_response_file`. The length is set even when the header was suspended or failed.
  unfoldable pub start_response_file : List ℕ → Option ℕ → Client → Result
  start_response_file rest size client =
      sized (write_headers strtol http_time none true client) size
    where
      sized : Result → Option ℕ → Result
      sized crashed size = crashed
      sized (returned ret client) none =
          if client.content_length_set then returned ret client else returned error client
      sized (returned ret client) (some n) =
          if client.content_length_set
          then returned ret client
          else returned ret (record client { content_length_set = true; content_length = n })

  -- `start_response_write`; `none` is an object that is not iterable.
  unfoldable pub start_response_write : Option (List Item) → Client → Result
  start_response_write none client = returned error client
  start_response_write (some []) client =
      write_headers strtol http_time none false (record client { response_iter = some [] })
  start_response_write (some (bytes buf ∷ items)) client =
      write_headers strtol http_time (some buf) false (record client { response_iter = some items })
  start_response_write (some (not_bytes ∷ items)) client =
      returned error (record client { response_iter = some items })
  start_response_write (some (raised ∷ items)) client =
      returned error (record client { response_iter = some items })

  -- `response_start`
  unfoldable pub response_start : Client → Result
  unfolding process_write process_sendfile start_response_file start_response_write
  response_start client =
      if client.status_code == 304
      then write_headers strtol http_time none false client
      else by_response client.response
    where
      by_response : Body → Result
      by_response (file rest size) =
          after_header (start_response_file rest size client) process_sendfile
      by_response (iterable items) = after_header (start_response_write items client) process_write
