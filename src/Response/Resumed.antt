-- ===== src/Response/Resumed.antt =====
-- meinheld/server/response.c: a response that waits for its socket and goes on.
use meinheld.Base.{
  ℕ, ◌+◌, ◌%◌, ◌^◌, ◌≡◌, refl, sym, ap, ◌∙◌, ◌≢◌, Bool, true, false, Option, none, some, List, [],
  ◌∷◌, ◌++◌, append_assoc, if-Q, length, All,
}
use meinheld.Response.{
  Bucket, Answer, Status, ok, suspend, error, endless, Written, prepend, writev_bucket,
}
use meinheld.Response.Writev.{Takes}
use meinheld.Response.Stream.{writev_bucket-Left}
use meinheld.Response.Client.{Client, Item, bytes, not_bytes, raised, iterable}
use meinheld.Response.Header.{write_out}
use meinheld.Response.Body.{
  call_close, close_response, item_bucket, last_chunk, item_written, write_items, process_write,
  send_body, retried, process_body,
}
use meinheld.Response.Suspended.{goes_on, with_more, writev_bucket-suspended, writev_bucket-ok}
use meinheld.Response.Uncounted.{uncounted, at, counting, goes_on_past, write_items-uncounted}

-- An iterator's response without a declared length, no part of which is waiting.
pub record Unbounded (client : Client) : Type 0 where
  pub undeclared : client.content_length_set ≡ false
  pub items : Option (List Item)
  pub iterates : client.response ≡ iterable items
  pub nothing_waits : client.bucket ≡ none

-- The result of a call of the loop on what `writev_bucket` left
abbrev written_with : List ℕ → List Item → Written → Client → Status × Client
unfolding item_written write_items
written_with buf rest r client =
    item_written buf rest
      (r.status, r.bucket, record client { answers = r.answers; out = client.out ++ r.sent })
      (write_items rest)

send_body-iterable :
    (client : Client) (rest : List Item) (o : Option (List Item))
    → client.response ≡ iterable o
    → client.response_iter ≡ some rest
    → send_body client ≡ write_items rest client
unfolding send_body process_write
send_body-iterable client rest o e f = rw (e, f) refl

resumed_item :
    (buf : List ℕ) (rest : List Item) (sent sent' : List ℕ) (w : Option Bucket) (s : Status)
    (b' : Bucket) (answers : List Answer) (client : Client)
    → Unbounded client
    → uncounted (
        retried (
          s,
          b',
          record client {
            bucket = w;
            response_iter = some rest;
            answers = answers;
            out = (client.out ++ sent) ++ sent';
          },
        ))
      ≡ uncounted (
          item_written buf rest
            (s, b', record client { answers = answers; out = client.out ++ (sent ++ sent') })
            (write_items rest))
unfolding retried item_written
resumed_item buf rest sent sent' w ok b' answers client u =
    let at_out : Option Bucket → List ℕ → Client =
      λ v o. record client { answers = answers; out = o; response_iter = some rest; bucket = v } in
    let before = (client.out ++ sent) ++ sent' in
    let after = client.out ++ (sent ++ sent') in
    let retry = (client.write_bytes + b'.total_size) % 2 ^ 64 in
    let direct = (client.write_bytes + length buf) % 2 ^ 64 in
    ap uncounted
      (send_body-iterable (counting retry (at_out none before)) rest u.items u.iterates refl)
    ∙ write_items-uncounted rest retry (at_out none before) u.undeclared
    ∙ ap (λ o. uncounted (write_items rest (at_out none o))) (append_assoc client.out sent sent')
    ∙ ap (λ v. uncounted (write_items rest (at_out v after))) (sym u.nothing_waits)
    ∙ sym (write_items-uncounted rest direct (at_out client.bucket after) u.undeclared)
    ∙ sym (
        ap uncounted (
          goes_on_past (record client { answers = answers; out = after }) rest direct
            (write_items rest) u.undeclared))
resumed_item buf rest sent sent' w suspend b' answers client u =
    ap
      (λ o. (
        suspend,
        record client {
          bucket = some b';
          response_iter = some rest;
          answers = answers;
          out = o;
          write_bytes = 0;
        },
      ))
      (append_assoc client.out sent sent')
resumed_item buf rest sent sent' w error b' answers client u =
    ap
      (λ o. (
        error,
        record client {
          bucket = none;
          response_iter = some rest;
          answers = answers;
          out = o;
          write_bytes = 0;
        },
      ))
      (append_assoc client.out sent sent')
resumed_item buf rest sent sent' w endless b' answers client u =
    ap
      (λ o. (
        endless,
        record client {
          bucket = none;
          response_iter = some rest;
          answers = answers;
          out = o;
          write_bytes = 0;
        },
      ))
      (append_assoc client.out sent sent')

-- What a call that was suspended gives when it is resumed with the answers to come
abbrev Resumes : List Answer → Status × Client → Status × Client → Type 0
Resumes ys r whole = r.0 ≡ suspend → uncounted (process_body (at ys r.1)) ≡ uncounted whole

call_close_ends : (o : Option Bool) (client : Client) → (call_close o client).0 ≢ suspend
unfolding call_close
call_close_ends none client e = absurd (cc e)
call_close_ends (some false) client e = absurd (cc e)
call_close_ends (some true) client e = absurd (cc e)

close_response_ends : (client : Client) → (close_response client).0 ≢ suspend
unfolding close_response
close_response_ends client =
    if-Q (λ (x : Status × Client). x.0 ≢ suspend) client.response_closed _ _ (λ e f. cc f)
      (λ e. call_close_ends client.close client)

last_chunk_ends : (client : Client) → (last_chunk client).0 ≢ suspend
unfolding last_chunk
last_chunk_ends client =
    if-Q (λ (x : Status × Client). x.0 ≢ suspend) client.chunked_response _ _
      (λ e. close_response_ends _) (λ e. close_response_ends client)

item_written-Resumes :
    (buf : List ℕ) (rest : List Item) (ys : List Answer) (r r' : Written) (client : Client)
    → Unbounded client
    → (r.status ≡ suspend → r' ≡ goes_on ys r)
    → (r.status ≡ ok → r' ≡ with_more ys r)
    → ((n : ℕ) (out : List ℕ)
        → let next = record client { out = out; response_iter = some rest; write_bytes = n } in
          Resumes ys
            (write_items rest (at r.answers next))
            (write_items rest (at (r.answers ++ ys) next)))
    → Resumes ys (written_with buf rest r client) (written_with buf rest r' client)
unfolding item_written process_body write_out prepend written_with
item_written-Resumes buf rest ys r r' client u suspended fine next = by_status r.status refl
  where
    by_status :
        (s : Status)
        → r.status ≡ s
        → Resumes ys
            (item_written buf rest
              (s, r.bucket, record client { answers = r.answers; out = client.out ++ r.sent })
              (write_items rest))
            (written_with buf rest r' client)
    by_status error e f = absurd (cc f)
    by_status endless e f = absurd (cc f)
    by_status suspend e f =
        let r2 = writev_bucket ys r.bucket in
        resumed_item buf rest r.sent r2.sent (some r.bucket) r2.status r2.bucket r2.answers client u
        ∙ ap (λ t. uncounted (written_with buf rest t client)) (sym (suspended e))
    by_status ok e f =
        let direct = (client.write_bytes + length buf) % 2 ^ 64 in
        let out = client.out ++ r.sent in
        let past : (answers : List Answer)
            → item_written buf rest (ok, r.bucket, record client { answers = answers; out = out })
                (write_items rest)
              ≡ write_items rest (record client {
                answers = answers;
                out = out;
                response_iter = some rest;
                write_bytes = direct;
              }) =
          λ answers.
            goes_on_past (record client { answers = answers; out = out }) rest direct
              (write_items rest) u.undeclared in
        ap (λ (x : Status × Client). uncounted (process_body (at ys x.1))) (past r.answers)
        ∙ next direct out (ap (λ (x : Status × Client). x.0) (sym (past r.answers)) ∙ f)
        ∙ ap uncounted (sym (past (r.answers ++ ys)))
        ∙ ap
            (λ s. uncounted (
              item_written buf rest
                (s, r.bucket, record client { answers = r.answers ++ ys; out = out })
                (write_items rest)))
            (sym e)
        ∙ ap (λ t. uncounted (written_with buf rest t client)) (sym (fine e))

write_items-Resumes :
    (items : List Item) (xs ys : List Answer) (client : Client)
    → Unbounded client
    → All Takes xs
    → Resumes ys (write_items items (at xs client)) (write_items items (at (xs ++ ys) client))
unfolding write_items write_out written_with
write_items-Resumes [] xs ys client u hk e = absurd (last_chunk_ends _ e)
write_items-Resumes (raised ∷ rest) xs ys client u hk e = absurd (cc e)
write_items-Resumes (not_bytes ∷ rest) xs ys client u hk e = absurd (cc e)
write_items-Resumes (bytes buf ∷ rest) xs ys client u hk e =
    let b = item_bucket client.chunked_response buf in
    let r = writev_bucket xs b in
    item_written-Resumes buf rest ys r (writev_bucket (xs ++ ys) b) client u
      (writev_bucket-suspended xs ys b hk) (writev_bucket-ok xs ys b hk)
      (λ n out.
        write_items-Resumes rest r.answers ys
          (record client { out = out; response_iter = some rest; write_bytes = n })
          (record {
            undeclared = u.undeclared;
            items = u.items;
            iterates = u.iterates;
            nothing_waits = u.nothing_waits;
          })
          (writev_bucket-Left xs b hk).0)
      e

pub process_body-process_write :
    (items : List Item) (xs ys : List Answer) (client : Client)
    → Unbounded client
    → client.response_iter ≡ some items
    → All Takes xs
    → (process_write (at xs client)).0 ≡ suspend
    → uncounted (process_body (at ys (process_write (at xs client)).1))
      ≡ uncounted (process_write (at (xs ++ ys) client))
unfolding process_write
process_body-process_write items xs ys client u e hk f =
    let whole : (zs : List Answer)
        → process_write (at zs client) ≡ write_items items (at zs client) =
      λ zs. rw e refl in
    ap (λ (x : Status × Client). uncounted (process_body (at ys x.1))) (whole xs)
    ∙ write_items-Resumes items xs ys client u hk
        (ap (λ (x : Status × Client). x.0) (sym (whole xs)) ∙ f)
    ∙ ap uncounted (sym (whole (xs ++ ys)))
