-- ===== src/Response/Answered.antt =====
-- What goes out when meinheld answers for the application: `blocking_write` and `send_error_page` of
-- meinheld/server/response.c.
use meinheld.Base.{
  ℕ, suc, ◌+◌, ◌-◌, ◌^◌, ◌≤◌, ◌<◌, min, ◌≡◌, ap, ◌∙◌, Bool, true, false, ◌||◌, Option, some, List,
  [], ◌∷◌, ◌++◌, append-nil, append_assoc, arith, if◌then◌else◌, length, take, drop, length-append,
  length-drop, take-append-drop,
}
use meinheld.Response.{Answer, room, again, failed}
use meinheld.Response.Client.{Client, u64}
use meinheld.Response.Start.{is_empty}
use meinheld.Response.ErrorPage.{header_message, page, blocking_write, page_sent, send_error_page}

-- The bytes that the kernel takes before it fails
unfoldable pub capacity : List Answer → ℕ
capacity [] = 0
capacity (again ∷ answers) = capacity answers
capacity (failed ∷ answers) = 0
capacity (room n ∷ answers) = suc n + capacity answers

-- A client after some more bytes went out
abbrev pub wrote : List Answer → List ℕ → Client → Client
wrote answers buf client = record client {
  answers = answers;
  write_bytes = u64 (client.write_bytes + length buf);
  out = client.out ++ buf;
}

wrote-none :
    (answers : List Answer) (client : Client)
    → client.write_bytes < 2 ^ 64
    → record client { answers = answers } ≡ wrote answers [] client
wrote-none answers client small = rw (append-nil client.out, counted)
  where
    counted : u64 (client.write_bytes + 0) ≡ client.write_bytes
    counted = omega (arith, small)

wrote-wrote :
    (left : List Answer) (r : ℕ) (buf : List ℕ) (client : Client)
    → r ≤ length buf
    → wrote left (drop r buf) (record client {
      write_bytes = u64 (client.write_bytes + r);
      out = client.out ++ take r buf;
    })
      ≡ wrote left buf client
wrote-wrote left r buf client fits =
    rw (append_assoc client.out (take r buf) (drop r buf), take-append-drop r buf, counted)
  where
    counted :
        u64 (u64 (client.write_bytes + r) + length (drop r buf))
        ≡ u64 (client.write_bytes + length buf)
    counted = omega (arith, length-drop r buf, fits)

-- The whole of `buf` goes out if the kernel takes as many bytes before it fails.
pub blocking_write_lem :
    (epipe : Bool) (answers : List Answer) (buf : List ℕ) (client : Client)
    → length buf ≤ capacity answers
    → client.write_bytes < 2 ^ 64
    → (left : List Answer) × (blocking_write epipe answers buf client
        ≡ some (wrote left buf client))
unfolding blocking_write capacity is_empty
blocking_write_lem epipe [] [] client enough small = ([], ap some (wrote-none [] client small))
blocking_write_lem epipe [] (c ∷ buf) client enough small = elim (no_room enough) [ ]
  where
    no_room : length (c ∷ buf) ≤ 0 → ⊥
    no_room e = omega (arith, e)
blocking_write_lem epipe (again ∷ answers) [] client enough small =
    (again ∷ answers, ap some (wrote-none (again ∷ answers) client small))
blocking_write_lem epipe (again ∷ answers) (c ∷ buf) client enough small =
    blocking_write_lem epipe answers (c ∷ buf) client enough small
blocking_write_lem epipe (failed ∷ answers) [] client enough small =
    (failed ∷ answers, ap some (wrote-none (failed ∷ answers) client small))
blocking_write_lem epipe (failed ∷ answers) (c ∷ buf) client enough small =
    elim (no_room enough) [ ]
  where
    no_room : length (c ∷ buf) ≤ 0 → ⊥
    no_room e = omega (arith, e)
blocking_write_lem epipe (room n ∷ answers) [] client enough small =
    (room n ∷ answers, ap some (wrote-none (room n ∷ answers) client small))
blocking_write_lem epipe (room n ∷ answers) (c ∷ buf) client enough small =
    let all = c ∷ buf in
    let r = min (suc n) (length all) in
    let next = record client {
      write_bytes = u64 (client.write_bytes + r);
      out = client.out ++ take r all;
    } in
    let (left, e) =
      blocking_write_lem epipe answers (drop r all) next (omega (arith, enough, length-drop r all))
        (omega arith) in
    (left, e ∙ ap some (wrote-wrote left r all client (omega arith)))

-- The client that has had its page
abbrev pub answered : List Answer → Client → Client
answered left client = record client {
  answers = left;
  write_bytes = u64 (client.write_bytes + length (page client.status_code));
  out = client.out ++ (header_message client.status_code ++ page client.status_code);
  keep_alive = false;
  header_done = true;
  response_closed = true;
  read_shut = true;
}

header_short : (code : ℕ) → length (header_message code) ≤ 2 ^ 64
unfolding header_message
header_short code = ground arith

-- A response of which nothing was sent is answered by the whole page for its status code, of which
-- only the body is counted, and the connection is not kept, if the kernel takes as many bytes as the
-- page has before it fails.
pub send_error_page_lem :
    (epipe : Bool) (client : Client)
    → client.header_done ≡ false
    → client.response_closed ≡ false
    → length (header_message client.status_code ++ page client.status_code)
      ≤ capacity client.answers
    → client.write_bytes < 2 ^ 64
    → (left : List Answer) × (send_error_page epipe client ≡ some (answered left client))
unfolding send_error_page page_sent
send_error_page_lem epipe client unsent opened enough small =
    let code = client.status_code in
    let (left, e) =
      blocking_write_lem epipe client.answers (header_message code ++ page code)
        (record client { read_shut = true }) enough small in
    (
      left,
      not_done client.header_done client.response_closed _ _ unsent opened
          ∙ ap (page_sent code) e
          ∙ ap (λ n. some (record (answered left client) { write_bytes = n })) (counted code),
    )
  where
    counted :
        (code : ℕ)
        → u64 (
            u64 (client.write_bytes + length (header_message code ++ page code))
            + (2 ^ 64 - length (header_message code)))
          ≡ u64 (client.write_bytes + length (page code))
    counted code = omega (arith, length-append (header_message code) (page code), header_short code)

    not_done :
        (a b : Bool) (x y : Option Client) → a ≡ false → b ≡ false → (if a || b then x else y) ≡ y
    not_done a b x y e f = ground arith
