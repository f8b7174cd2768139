-- ===== src/Session/Readable.antt =====
-- What `read_request` of meinheld/server/server.c leaves of a connection.
use meinheld.Base.{
  ◌≡◌, ◌≢◌, ◌∷◌, [], ap, sym, ◌∙◌, inl, inr, refl, ℕ, ◌+◌, ◌<◌, true, false, not, ◌||◌, Option,
  none, some, List, arith, ltb, ◌==◌, if◌then◌else◌, if-Q, length,
}
use meinheld.Base.Int.{ℤ, is_positive}
use meinheld.Response.Client.{Client}
use meinheld.Session.{World, Session, and_then}
use meinheld.Session.Parse.{Report, execute_parse, parser_finish}
use meinheld.Session.Serve.{answer_error, with_client}
use meinheld.Session.Close.{close_client}
use meinheld.Session.Events.{
  Read, read_bytes, end_of_stream, try_again, reset, read_failed, Finish, complete, incomplete,
  closed, parse_new_protocol, set_bad_request_code, close_finished, set_read_error, finished,
  parsed, parse_http_request, read_request,
}
use meinheld.Session.Counted.{Ends, and_then-Ends, Live, Closed}
use meinheld.Session.Ends.{close_client-Closed}
use meinheld.Session.Serves.{Serves, IsSome, send_error_page-IsSome}
use meinheld.Queue.{RequestQueue}
use meinheld.Queue.Order.{Holds, last}
use meinheld.Session.Reading.{Reading, Reading-Live, Reading-weaken, execute_parse-Reading}

-- What a read leaves: with 1 and 0 a connection that is read, with 1 one in which a request waits, with
-- -1 what `close_client` left.
abbrev pub Readable : {P : Type 0} → ℤ → ℕ → Finish × Session P → Type 0
Readable k n (complete, s) = Reading k n s × (is_positive s.request_queue.size ≡ true)
Readable k n (incomplete, s) = Reading k n s
Readable k n (closed, s) = Closed k n s

-- How often the parser calls back for what is read
abbrev pub reports : {P : Type 0} → (P → List ℕ → List (Report P) × ℕ × P) → Read → Session P → ℕ
reports http_parser_execute (read_bytes buf) s = length (http_parser_execute s.parser buf).0
reports http_parser_execute r s = 0

last_some : (r : ℕ) (rs : List ℕ) → last (r ∷ rs) ≢ none
last_some r [] z = absurd (cc z)
last_some r (t ∷ rs) z = last_some t rs z

module _ {P : Type 0} (w : World P) (k : ℤ) (serves : Serves w) (fuel n : ℕ)
    (enough : n < fuel) where
  abbrev coded : Session P → ℕ → Session P
  coded s code = record s { client = record s.client { keep_alive = false; status_code = code } }

  pub close-Closed : (s : Session P) → Live k n s → Ends (Closed k n) (close_client w fuel s)
  close-Closed s v = close_client-Closed w k serves fuel n s enough v

  close_finished-Readable :
      (s : Session P) → Live k n s → Ends (Readable k n) (close_finished w (close_client w fuel) s)
  unfolding Ends
  close_finished-Readable s v =
      and_then-Ends (Closed k n) (Readable k n) (close_client w fuel s) _ (close-Closed s v)
        (λ t c. c)

  -- A queue that is not empty has a last request.
  tail_some :
      (q : RequestQueue) (rs : List ℕ) → Holds q rs → is_positive q.size ≡ true → q.tail ≢ none
  tail_some q [] h e z = absurd (cc (sym (ap is_positive h.counted) ∙ e))
  tail_some q (r ∷ rs) h e z = last_some r rs (sym h.ends ∙ z)

  set_bad_request_code-Readable :
      (code : ℕ) (r : Option ℕ) (s : Session P)
      → r ≢ none
      → is_positive s.request_queue.size ≡ true
      → Reading k n s
      → Ends (Readable k n) (set_bad_request_code w (close_client w fuel) code r s)
  unfolding set_bad_request_code Ends
  set_bad_request_code-Readable code none s given e v = absurd (given refl)
  set_bad_request_code-Readable code (some r) s given e v = (
    record {
      counted = v.counted;
      phase = v.phase;
      bare = v.bare;
      current = v.current;
      queue = v.queue;
    },
    e,
  )

  page_finished-Readable :
      (s : Session P) (c : Option Client)
      → IsSome c
      → Live k n s
      → Ends (Readable k n) (and_then (with_client w s c) (close_finished w (close_client w fuel)))
  unfolding with_client Ends
  page_finished-Readable s none (c, e) v = absurd (cc e)
  page_finished-Readable s (some c) e v =
      close_finished-Readable _ (record { counted = v.counted; queue = v.queue })

  pub set_read_error-Readable :
      (code : ℕ) (s : Session P)
      → Reading k n s
      → Ends (Readable k n) (set_read_error w (close_client w fuel) code s)
  unfolding set_read_error answer_error
  set_read_error-Readable code s v =
      let u = Reading-Live k n s v in
      if-Q (Ends (Readable k n)) (is_positive s.request_queue.size) _ _
        (λ e.
          set_bad_request_code-Readable _ _ _
            (tail_some s.request_queue v.queue.queued v.queue.holds e) e
            (record {
              counted = v.counted;
              phase = v.phase;
              bare = v.bare;
              current = v.current;
              queue = v.queue;
            }))
        (λ e.
          if-Q (Ends (Readable k n)) s.complete _ _
            (λ f. close_finished-Readable _ (record { counted = u.counted; queue = u.queue }))
            (λ f.
              page_finished-Readable (coded s (if code == 0 then 400 else code)) _
                (send_error_page-IsSome w.epipe _)
                (record { counted = u.counted; queue = u.queue })))

  finished-Readable :
      (s : Session P)
      → Reading k n s
      → is_positive s.request_queue.size ≡ true
      → Ends (Readable k n) (finished w (close_client w fuel) s)
  unfolding Ends
  finished-Readable s v e =
      if-Q (λ f. Readable k n (f, s)) (parser_finish w s) complete incomplete (λ f. (v, e)) (λ f. v)

  parsed-Readable :
      (c : Option ℕ) (r m : ℕ) (s : Session P)
      → s.current_req ≡ c
      → (s.upgrade ≡ true → c ≢ none)
      → Reading k n s
      → Ends (Readable k n) (parsed w (close_client w fuel) c r (m, s))
  unfolding parsed Ends
  parsed-Readable none r m s same known v =
      if-Q (Ends (Readable k n)) s.upgrade _ _ (λ e. absurd (known e refl))
        (λ e. set_read_error-Readable 400 s v)
  parsed-Readable (some q) r m s same known v =
      let refused = set_read_error-Readable (s.requests q).bad_request_code s v in
      let waits : is_positive s.request_queue.size ≡ true = elim v.current [
        | inl z ↦ absurd (cc (sym same ∙ z))
        | inr e ↦ e
      ] in
      let went = finished-Readable s v waits in
      if-Q (Ends (Readable k n)) s.upgrade _ _
        (λ e.
          if-Q (Ends (Readable k n)) (parse_new_protocol (s.requests q)) _ _ (λ f. went)
            (λ f. refused))
        (λ e.
          if-Q (Ends (Readable k n)) (not (m == r) || ltb 0 (s.requests q).bad_request_code) _ _
            (λ f. refused) (λ f. went))

module _ {P : Type 0} (w : World P)
    (http_parser_execute : P → List ℕ → List (Report P) × ℕ × P) where
  -- An upgrade is reported only of a request that has begun.
  abbrev pub Begun : Read → Session P → Type 0
  Begun (read_bytes buf) s =
      (execute_parse w http_parser_execute buf s).1.upgrade ≡ true
      → (execute_parse w http_parser_execute buf s).1.current_req ≢ none
  Begun r s = Unit

module _ {P : Type 0} (w : World P) (k : ℤ) (serves : Serves w)
    (http_parser_execute : P → List ℕ → List (Report P) × ℕ × P) where
  pub read_request-Readable :
      (r : Read) (fuel n : ℕ) (s : Session P)
      → Begun w http_parser_execute r s
      → n + reports http_parser_execute r s < fuel
      → Reading k n s
      → Ends
          (Readable k (n + reports http_parser_execute r s))
          (read_request w (close_client w fuel) http_parser_execute r s)
  unfolding read_request parse_http_request Ends
  read_request-Readable (read_bytes buf) fuel n s begun e v =
      let out = execute_parse w http_parser_execute buf s in
      parsed-Readable w k serves fuel (n + length (http_parser_execute s.parser buf).0) e
        out.1.current_req (length buf) out.0 out.1 refl begun
        (execute_parse-Reading w k http_parser_execute n buf s v)
  read_request-Readable end_of_stream fuel n s begun e v =
      let u = Reading-weaken w k n (n + 0) s (omega arith) v in
      set_read_error-Readable w k serves fuel (n + 0) e 503 s (record {
        counted = u.counted;
        phase = u.phase;
        bare = u.bare;
        current = u.current;
        queue = u.queue;
      })
  read_request-Readable try_again fuel n s begun e v =
      Reading-weaken w k n (n + 0) s (omega arith) v
  read_request-Readable reset fuel n s begun e v =
      let u = Reading-weaken w k n (n + 0) s (omega arith) v in
      set_read_error-Readable w k serves fuel (n + 0) e 500
        (record s {
          client = record s.client {
            keep_alive = false;
            header_done = true;
            response_closed = true;
          };
        })
        (record {
          counted = u.counted;
          phase = u.phase;
          bare = u.bare;
          current = u.current;
          queue = u.queue;
        })
  read_request-Readable read_failed fuel n s begun e v =
      let u = Reading-weaken w k n (n + 0) s (omega arith) v in
      set_read_error-Readable w k serves fuel (n + 0) e 500
        (record s { client = record s.client { keep_alive = false } })
        (record {
          counted = u.counted;
          phase = u.phase;
          bare = u.bare;
          current = u.current;
          queue = u.queue;
        })
