-- ===== src/Response/Tests.antt =====
-- Runs of the response, and its theorems at concrete clients.
use meinheld.Base.{
  ℕ, zero, suc, ◌≡◌, refl, true, false, none, some, List, [], ◌∷◌, ◌++◌, arith, replicate, All,
  codes,
}
use meinheld.Response.{Bucket, room, again, crlf, bytes_of, writev_bucket, advance, prepend}
use meinheld.Response.Writev.{Takes, SentAs, writev_bucket-Sent}
use meinheld.Response.Client.{Client, file, iterable}
use meinheld.Response.{
  set_chunked_data, set2bucket, new_write_bucket, get_chunk_data, hex_digits, suspend,
}
use meinheld.Response.Header.{write_out}
use meinheld.Response.Uncounted.{at}
use meinheld.Response.Finished.{process_body-Streamed}
use meinheld.Response.Body.{
  process_write, process_sendfile, process_body, write_items, item_bucket, item_written,
}
use meinheld.Response.Start.{create_status}
use meinheld.Response.Chunk.{decode, frames, join, decode-frames}
use meinheld.Response.Stream.{Streamed, as_items, process_write-Streamed}
use meinheld.Response.Sendfile.{Sending, process_sendfile-Sending}
use meinheld.Base.Int.{ℤ, pos}
use meinheld.Response.Start.{
  header_list, none_given, start_failed, headers_already_set, response_call, call_unless,
  parse_status, set_status, with_code, to_int, is_empty,
}
use meinheld.Base.{◌≤◌, Bool, take_until}
use meinheld.Response.Client.{latin1}
use meinheld.Response.Once.{response_call-response_call}

abbrev two_vectors : Bucket
two_vectors = record {
  iov = codes "ab" ∷ codes "cd" ∷ [];
  iov_size = 2;
  total = 4;
  total_size = 4;
  sended = false;
}

writes : (writev_bucket (room 2 ∷ room 0 ∷ []) two_vectors).sent ≡ codes "abcd"
unfolding writev_bucket advance prepend bytes_of
writes = refl

writev_bucket-Sent_example :
    SentAs
      (writev_bucket (room 2 ∷ again ∷ []) two_vectors).status
      (bytes_of two_vectors.iov)
      (writev_bucket (room 2 ∷ again ∷ []) two_vectors)
unfolding bytes_of
writev_bucket-Sent_example = writev_bucket-Sent (room 2 ∷ again ∷ []) two_vectors (omega arith)

All-room : (k n : ℕ) → All Takes (replicate n (room k))
All-room k zero = tt
All-room k (suc n) = (tt, All-room k n)

abbrev items : List (List ℕ)
items = codes "ab" ∷ codes "c" ∷ []

decode-frames_example : decode 3 (frames items) ≡ some (join items)
decode-frames_example =
    decode-frames items ((omega arith, omega arith), ((omega arith, omega arith), tt))

abbrev ready : Client
ready = record {
  keep_alive = true;
  is_head = false;
  http_minor = 1;
  status_code = 200;
  http_status = some (codes "HTTP/1.1 200 OK" ++ crlf);
  headers = some [];
  header_done = true;
  response = iterable (some []);
  close = some false;
  response_iter = none;
  chunked_response = true;
  content_length_set = false;
  content_length = 0;
  write_bytes = 0;
  bucket = none;
  response_closed = false;
  read_shut = false;
  answers = replicate 60 (room 3);
  out = [];
}

process_write-Streamed_example :
    Streamed
      ([] ++ frames items)
      (process_write (record ready { response_iter = some (as_items items) }))
process_write-Streamed_example =
    process_write-Streamed items ready (omega arith, (omega arith, tt)) refl refl refl
      (All-room 3 60) (omega arith)

abbrev serving : Client
serving = record ready { content_length_set = true; content_length = 4; chunked_response = false }

process_sendfile-Sending_example :
    Sending
      (record serving { response = file (codes "data") (some 4) })
      (codes "data")
      (some 4)
      (process_sendfile (record serving { response = file (codes "data") (some 4) }))
process_sendfile-Sending_example =
    process_sendfile-Sending serving (codes "data") (some 4) (omega arith)

abbrev fresh : Client
fresh = record ready { headers = none; http_status = none; status_code = 0 }

-- A `strtol` that reads 200 wherever it is asked.
abbrev two_hundred : List ℕ → ℤ × Bool
two_hundred s = (pos 200, true)

abbrev set_up : Client
set_up = record fresh {
  status_code = 200;
  headers = some [];
  http_status = create_status (codes "200 OK") 1;
}

response_call-response_call_example :
    (100 ≤ set_up.status_code)
    × (set_up.status_code ≤ 999)
    × (response_call two_hundred set_up (latin1 (codes "404 No")) (header_list []) none_given
        ≡ start_failed headers_already_set)
unfolding response_call call_unless parse_status set_status with_code to_int is_empty take_until
response_call-response_call_example =
    response_call-response_call two_hundred fresh (latin1 (codes "200 OK"))
      (latin1 (codes "404 No")) (header_list []) (header_list []) none_given none_given set_up refl
      refl

-- A socket that has room for the start of the first chunk
abbrev waiting : Client
waiting = record ready { response_iter = some (as_items items) }

waits : (process_write (at (room 3 ∷ []) waiting)).0 ≡ suspend
unfolding process_write write_items write_out item_bucket set_chunked_data set2bucket
    new_write_bucket get_chunk_data hex_digits writev_bucket advance prepend bytes_of item_written
waits = refl

process_body-Streamed_example :
    Streamed
      ([] ++ frames items)
      (process_body (at (replicate 60 (room 3)) (process_write (at (room 3 ∷ []) waiting)).1))
process_body-Streamed_example =
    process_body-Streamed items (room 3 ∷ []) (replicate 60 (room 3)) waiting
      (record { undeclared = refl; items = some []; iterates = refl; nothing_waits = refl }) refl
      (omega arith, (omega arith, tt)) refl refl (tt, tt) (All-room 3 60) waits (omega arith)
