-- ===== src/Response/Stream.antt =====
-- What `process_write` puts on the wire for a chunked response.
use meinheld.Base.{
  ℕ, suc, ◌+◌, ◌-◌, ◌%◌, ◌^◌, ◌≤◌, ◌<◌, min, ◌≡◌, refl, sym, ap, ◌∙◌, inl, inr, Bool, true, false,
  some, List, [], ◌∷◌, ◌++◌, append_assoc, arith, ltb, ◌==◌, if◌then◌else◌, Bool-cases, length, All,
  length-append, length-drop,
}
use mathlib.Core.Path.{subst}
use meinheld.Response.{
  bytes_of, Bucket, new_write_bucket, set2bucket, set_chunked_data, set_last_chunked_data, Answer,
  room, again, failed, Status, ok, suspend, error, endless, prepend, advance, writev_bucket,
  get_chunk_data, crlf,
}
use meinheld.Response.Writev.{
  Takes, SentAs, length-bytes_of-advance, writev_bucket-Sent, writev_bucket-finishes,
}
use meinheld.Response.Client.{Client, Item, bytes}
use meinheld.Response.Header.{write_out}
use meinheld.Response.Body.{
  call_close, close_response, item_bucket, last_chunk, item_written, all_done, write_items,
  process_write,
}
use meinheld.Response.Chunk.{frame, last_frame, frames, length-get_chunk_data}

-- The answers that a call leaves: at most one more than the bucket's bytes is used.
abbrev pub Left : List Answer → List ℕ → List Answer → Type 0
Left answers all left = All Takes left × (length answers ≤ length left + length all + 1)

pub writev_bucket-Left :
    (answers : List Answer) (b : Bucket)
    → All Takes answers
    → Left answers (bytes_of b.iov) (writev_bucket answers b).answers
unfolding writev_bucket prepend
writev_bucket-Left [] b hk = (tt, omega arith)
writev_bucket-Left (again ∷ answers) b hk = absurd (hk.0)
writev_bucket-Left (failed ∷ answers) b hk = absurd (hk.0)
writev_bucket-Left (room k ∷ answers) b hk =
    let w = min (suc k) (length (bytes_of b.iov)) in
    let a = length-bytes_of-advance b.iov w (omega arith) in
    elim (Bool-cases (w == 0)) [
      | inl none_left ↦ rw none_left (hk.1, omega arith)
      | inr some_left ↦ elim (Bool-cases (ltb w b.total)) [
        | inl more ↦
            let next = record b {
              iov = (advance b.iov w).0;
              total = b.total - (advance b.iov w).1;
            } in
            let n : length (bytes_of next.iov) ≡ length (bytes_of b.iov) - w =
              ap length (a.0) ∙ length-drop w (bytes_of b.iov) in
            let rest = writev_bucket-Left answers next (hk.1) in
            rw (some_left, more) (rest.0, ground (arith, n, rest.1))
        | inr all ↦ rw (some_left, all) (hk.1, omega arith)
      ]
    ]

-- A bucket went out whole.
record Whole (all : List ℕ) (client : Client) (r : Status × Bucket × Client) : Type 0 where
  status : r.0 ≡ ok
  left : List Answer
  left-Left : Left client.answers all left
  sent : r.2 ≡ record client { answers = left; out = client.out ++ all }

write_out-Whole :
    (b : Bucket) (client : Client)
    → length (bytes_of b.iov) ≤ b.total
    → All Takes client.answers
    → length (bytes_of b.iov) < length client.answers
    → Whole (bytes_of b.iov) client (write_out b client)
unfolding write_out
write_out-Whole b client ht hk hl =
    let r = writev_bucket client.answers b in
    let done = writev_bucket-finishes client.answers b ht hk hl in
    let s : SentAs ok (bytes_of b.iov) r =
      subst (λ s. SentAs s (bytes_of b.iov) r) done (writev_bucket-Sent client.answers b ht) in
    record {
      status = done;
      left = r.answers;
      left-Left = writev_bucket-Left client.answers b hk;
      sent = ap (λ t. record client { answers = r.answers; out = client.out ++ t }) (s.0);
    }

-- Items whose chunks fit the 32 bits of `total`.
abbrev pub Small : List ℕ → Type 0
Small buf = length buf < 2 ^ 32 - 20

chunk_bucket :
    (buf : List ℕ)
    → Small buf
    → (bytes_of (item_bucket true buf).iov ≡ frame buf)
      × (length (frame buf) ≤ (item_bucket true buf).total)
      × (length (frame buf) ≤ length buf + 20)
unfolding item_bucket set_chunked_data set2bucket new_write_bucket bytes_of frame
chunk_bucket buf h =
    let digits = length-get_chunk_data (length buf) in
    let n = length-append (get_chunk_data (length buf)) (crlf ++ (buf ++ crlf)) in
    let m = length-append buf crlf in
    (refl, omega (arith, digits, n, m), omega (arith, digits, n, m))

item_written-ok :
    (buf : List ℕ) (rest : List Item) (r : Status × Bucket × Client)
    (go_on : Client → Status × Client)
    → r.0 ≡ ok
    → (r.2).content_length_set ≡ false
    → item_written buf rest r go_on
      ≡ go_on (record r.2 {
        write_bytes = ((r.2).write_bytes + length buf) % 2 ^ 64;
        response_iter = some rest;
      })
unfolding item_written all_done
item_written-ok buf rest (ok, b, client) go_on e h = rw h refl
item_written-ok buf rest (suspend, b, client) go_on e h = absurd (cc e)
item_written-ok buf rest (error, b, client) go_on e h = absurd (cc e)
item_written-ok buf rest (endless, b, client) go_on e h = absurd (cc e)

-- The response is closed after these bytes.
pub record Streamed (out : List ℕ) (r : Status × Client) : Type 0 where
  pub status : r.0 ≡ ok
  pub written : (r.1).out ≡ out
  pub closed : (r.1).response_closed ≡ true

pub if_true {ℓ} : {A : Type ℓ} → (b : Bool) (x y : A) → b ≡ true → (if b then x else y) ≡ x
if_true true x y e = refl
if_true false x y e = absurd (cc e)

pub if_false {ℓ} : {A : Type ℓ} → (b : Bool) (x y : A) → b ≡ false → (if b then x else y) ≡ y
if_false true x y e = absurd (cc e)
if_false false x y e = refl

close_response-Streamed :
    (client : Client) → client.close ≡ some false → Streamed client.out (close_response client)
unfolding close_response call_close
close_response-Streamed client h = elim (Bool-cases client.response_closed) [
  | inl e ↦
      subst (Streamed client.out) (sym (if_true client.response_closed (ok, client) _ e))
        (record { status = refl; written = refl; closed = e })
  | inr e ↦
      subst (Streamed client.out) (sym (if_false client.response_closed (ok, client) _ e))
        (rw h (record { status = refl; written = refl; closed = refl }))
]

last_bucket_bytes :
    (bytes_of (set_last_chunked_data (new_write_bucket 3)).iov ≡ last_frame)
    × ((set_last_chunked_data (new_write_bucket 3)).total ≡ 5)
unfolding set_last_chunked_data set2bucket new_write_bucket bytes_of
last_bucket_bytes = (refl, refl)

last_chunk-Streamed :
    (client : Client)
    → client.chunked_response ≡ true
    → client.close ≡ some false
    → All Takes client.answers
    → 5 < length client.answers
    → Streamed (client.out ++ last_frame) (last_chunk client)
unfolding last_chunk
last_chunk-Streamed client hc hk ha hl =
    let b = set_last_chunked_data (new_write_bucket 3) in
    let n : length (bytes_of b.iov) ≡ 5 = ap length (last_bucket_bytes.0) in
    let w =
      write_out-Whole b client (omega (arith, n, last_bucket_bytes.1)) ha (omega (arith, n)) in
    let next = record client { answers = w.left; out = client.out ++ bytes_of b.iov } in
    let closes : Streamed (client.out ++ last_frame) (close_response next) =
      subst (λ t. Streamed (client.out ++ t) (close_response next)) (last_bucket_bytes.0)
        (close_response-Streamed next hk) in
    let path : last_chunk client ≡ close_response next =
      if_true client.chunked_response (close_response (write_out b client).2)
        (close_response client) hc
      ∙ ap close_response w.sent in
    subst (Streamed (client.out ++ last_frame)) (sym path) closes

-- The answers that suffice for the items and the last chunk
abbrev pub calls : List (List ℕ) → ℕ
calls [] = 6
calls (buf ∷ items) = length buf + 21 + calls items

abbrev pub as_items : List (List ℕ) → List Item
as_items [] = []
as_items (buf ∷ items) = bytes buf ∷ as_items items

write_items-Streamed :
    (items : List (List ℕ)) (client : Client)
    → All Small items
    → client.chunked_response ≡ true
    → client.content_length_set ≡ false
    → client.close ≡ some false
    → All Takes client.answers
    → calls items ≤ length client.answers
    → Streamed (client.out ++ frames items) (write_items (as_items items) client)
unfolding write_items frames
write_items-Streamed [] client hs hc hn hk ha hl =
    last_chunk-Streamed (record client { response_iter = some [] }) hc hk ha (omega arith)
write_items-Streamed (buf ∷ items) client hs hc hn hk ha hl =
    let b = item_bucket true buf in
    let c = chunk_bucket buf (hs.0) in
    let n : length (bytes_of b.iov) ≡ length (frame buf) = ap length (c.0) in
    let w = write_out-Whole b client (omega (arith, n, c.1)) ha (omega (arith, n, c.2)) in
    let sent = record client { answers = w.left; out = client.out ++ bytes_of b.iov } in
    let next = record sent {
      write_bytes = (client.write_bytes + length buf) % 2 ^ 64;
      response_iter = some (as_items items);
    } in
    let rest =
      write_items-Streamed items next (hs.1) hc hn hk (w.left-Left.0)
        (omega (arith, n, c.2, w.left-Left.1)) in
    let go_on = write_items (as_items items) in
    let chunked : write_items (bytes buf ∷ as_items items) client
        ≡ item_written buf (as_items items) (write_out b client) go_on =
      ap (λ c. item_written buf (as_items items) (write_out (item_bucket c buf) client) go_on) hc in
    let step =
      item_written-ok buf (as_items items) (write_out b client) go_on w.status
        (ap (λ c. c.content_length_set) w.sent ∙ hn) in
    let moved =
      ap
        (λ c. go_on (record c {
          write_bytes = (c.write_bytes + length buf) % 2 ^ 64;
          response_iter = some (as_items items);
        }))
        w.sent in
    let out : sent.out ++ frames items ≡ client.out ++ (frame buf ++ frames items) =
      append_assoc client.out (bytes_of b.iov) (frames items)
      ∙ ap (λ t. client.out ++ (t ++ frames items)) (c.0) in
    subst (λ o. Streamed o (write_items (bytes buf ∷ as_items items) client)) out
      (subst (Streamed (sent.out ++ frames items)) (sym (chunked ∙ step ∙ moved)) rest)

-- An iterator of byte strings, each below 2^32 - 20 bytes, on a chunked response with no declared
-- length whose `close` method does not raise, is sent as its chunks followed by the last chunk, after
-- what was sent before, and `process_write` returns STATUS_OK with the response closed, if the
-- kernel takes a byte at least in each of `calls items` calls of `writev`.
pub process_write-Streamed :
    (items : List (List ℕ)) (client : Client)
    → All Small items
    → client.chunked_response ≡ true
    → client.content_length_set ≡ false
    → client.close ≡ some false
    → All Takes client.answers
    → calls items ≤ length client.answers
    → Streamed
        (client.out ++ frames items)
        (process_write (record client { response_iter = some (as_items items) }))
unfolding process_write
process_write-Streamed items client hs hc hn hk ha hl =
    write_items-Streamed items (record client { response_iter = some (as_items items) }) hs hc hn hk
      ha hl
