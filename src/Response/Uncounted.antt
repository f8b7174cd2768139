-- ===== src/Response/Uncounted.antt =====
-- meinheld/server/response.c: without a declared length, no branch reads how much was written.
use meinheld.Base.{
  ℕ, ◌+◌, ◌%◌, ◌^◌, ◌≡◌, refl, sym, ap, ◌∙◌, Bool, true, false, Option, none, some, List, [], ◌∷◌,
  ◌++◌, if◌then◌else◌, length,
}
use meinheld.Response.{
  new_write_bucket, set_last_chunked_data, Bucket, Answer, Status, ok, suspend, error, endless,
  writev_bucket,
}
use meinheld.Response.Stream.{if_false}
use meinheld.Response.Client.{Client, Item, bytes, not_bytes, raised}
use meinheld.Response.Header.{write_out}
use meinheld.Response.Body.{
  call_close, close_response, item_bucket, last_chunk, item_written, all_done, write_items,
}

-- What a call leaves, but for the number of bytes it counted, and for the bucket that a failed call
-- keeps or drops.
abbrev pub uncounted : Status × Client → Status × Client
uncounted (ok, client) = (ok, record client { write_bytes = 0 })
uncounted (suspend, client) = (suspend, record client { write_bytes = 0 })
uncounted (endless, client) = (endless, record client { write_bytes = 0; bucket = none })
uncounted (error, client) = (error, record client { write_bytes = 0; bucket = none })

abbrev pub at : List Answer → Client → Client
at answers client = record client { answers = answers }

abbrev pub counting : ℕ → Client → Client
counting n client = record client { write_bytes = n }

-- Without a declared length, the number of bytes that are counted decides nothing.
call_close-uncounted :
    (o : Option Bool) (n : ℕ) (client : Client)
    → uncounted (call_close o (counting n client)) ≡ uncounted (call_close o client)
unfolding call_close
call_close-uncounted none n client = refl
call_close-uncounted (some false) n client = refl
call_close-uncounted (some true) n client = refl

close_response-uncounted :
    (n : ℕ) (client : Client)
    → uncounted (close_response (counting n client)) ≡ uncounted (close_response client)
unfolding close_response
close_response-uncounted n client = closed client.response_closed
  where
    closed :
        (b : Bool)
        → uncounted
            (if b then (ok, counting n client) else call_close client.close (counting n client))
          ≡ uncounted (if b then (ok, client) else call_close client.close client)
    closed true = refl
    closed false = call_close-uncounted client.close n client

last_chunk-uncounted :
    (n : ℕ) (client : Client)
    → uncounted (last_chunk (counting n client)) ≡ uncounted (last_chunk client)
unfolding last_chunk write_out
last_chunk-uncounted n client = chunked client.chunked_response
  where
    chunked :
        (b : Bool)
        → uncounted (
            if b
            then close_response
                (write_out (set_last_chunked_data (new_write_bucket 3)) (counting n client)).2
            else close_response (counting n client))
          ≡ uncounted (
              if b
              then close_response (write_out (set_last_chunked_data (new_write_bucket 3)) client).2
              else close_response client)
    chunked true =
        close_response-uncounted n (write_out (set_last_chunked_data (new_write_bucket 3)) client).2
    chunked false = close_response-uncounted n client

-- No call of `next` in the loop reads the count.
abbrev pub Uncounting : (Client → Status × Client) → Type 0
Uncounting go_on =
    (n : ℕ) (client : Client)
    → client.content_length_set ≡ false
    → uncounted (go_on (counting n client)) ≡ uncounted (go_on client)

pub goes_on_past :
    (client : Client) (rest : List Item) (n : ℕ) (go_on : Client → Status × Client)
    → client.content_length_set ≡ false
    → let next = record client { write_bytes = n; response_iter = some rest } in
      (if all_done next then last_chunk next else go_on next) ≡ go_on next
unfolding all_done
goes_on_past client rest n go_on e =
    if_false (all_done (record client { write_bytes = n; response_iter = some rest })) _ _
      (rw e refl)

item_written-uncounted :
    (buf : List ℕ) (rest : List Item) (s : Status) (b : Bucket) (go_on : Client → Status × Client)
    → Uncounting go_on
    → Uncounting (λ client. item_written buf rest (s, b, client) go_on)
unfolding item_written
item_written-uncounted buf rest ok b go_on same n client e =
    let iter = record client { response_iter = some rest } in
    let counted = λ (k : ℕ). (k + length buf) % 2 ^ 64 in
    ap uncounted (goes_on_past client rest (counted n) go_on e)
    ∙ same (counted n) iter e
    ∙ sym (same (counted client.write_bytes) iter e)
    ∙ sym (ap uncounted (goes_on_past client rest (counted client.write_bytes) go_on e))
item_written-uncounted buf rest suspend b go_on same n client e = refl
item_written-uncounted buf rest error b go_on same n client e = refl
item_written-uncounted buf rest endless b go_on same n client e = refl

pub write_items-uncounted : (items : List Item) → Uncounting (write_items items)
unfolding write_items write_out
write_items-uncounted [] n client e =
    last_chunk-uncounted n (record client { response_iter = some [] })
write_items-uncounted (raised ∷ items) n client e = refl
write_items-uncounted (not_bytes ∷ items) n client e = refl
write_items-uncounted (bytes buf ∷ items) n client e =
    let r = writev_bucket client.answers (item_bucket client.chunked_response buf) in
    item_written-uncounted buf items r.status r.bucket (write_items items)
      (write_items-uncounted items) n
      (record client { answers = r.answers; out = client.out ++ r.sent }) e
