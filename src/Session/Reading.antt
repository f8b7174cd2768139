-- ===== src/Session/Reading.antt =====
-- What the parser's callbacks of meinheld/server/http_request_parser.c keep of a connection that is
-- being read.
use meinheld.Base.{
  ◌⊎◌, inr, true, ap, if-Q, ℕ, suc, ◌+◌, ◌≤◌, ◌<◌, ◌≡◌, refl, sym, ◌∙◌, ◌≢◌, Bool, false, Option,
  none, some, List, [], ◌∷◌, ◌++◌, arith, if◌then◌else◌, length, All, length-append, All-append,
}
use meinheld.Base.Int.{ℤ, pos, inc, is_positive}
use meinheld.Queue.{RequestQueue, push_request, push_at}
use meinheld.Queue.Order.{Holds, last, push_request-Holds}
use meinheld.Request.{Request, url_cb, header_field_cb, header_value_cb}
use meinheld.Request.Body.{Parsed, body_cb}
use meinheld.Session.{World, Session, serving}
use meinheld.Session.Parse.{
  Report, Event, message_begin, url, header_field, header_value, headers_complete, body,
  message_complete, message_begin_cb, message_complete_cb, on_request, on_headers, settings,
  run_callbacks, execute_parse,
}
use meinheld.Session.Counted.{Live}

-- A queue with the requests of which numbers below `fresh` are taken
pub record Fresh (fresh : ℕ) (n : ℕ) (q : RequestQueue) : Type 0 where
  pub queued : List ℕ
  pub holds : Holds q queued
  pub known : All (λ r. r < fresh) queued
  pub unlinked : (r : ℕ) → fresh ≤ r → q.next r ≡ none
  pub few : length queued ≤ n

-- A connection that is read: the loop counts `k` other descriptors, the queue is well formed with at
-- most `n` requests, nothing of a response is set, and a request that is read is in the queue.
pub record Reading {P : Type 0} (k : ℤ) (n : ℕ) (s : Session P) : Type 0 where
  pub counted : s.activecnt ≡ (if s.active then inc k else k)
  pub phase : s.phase ≡ serving
  pub bare : s.client.headers ≡ none
  pub current : (s.current_req ≡ none) ⊎ (is_positive s.request_queue.size ≡ true)
  pub queue : Fresh s.next_request n s.request_queue

pub Reading-Live : {P : Type 0} (k : ℤ) (n : ℕ) (s : Session P) → Reading k n s → Live k n s
Reading-Live k n s v = record {
  counted = v.counted;
  queue = record {
    queued = v.queue.queued;
    linked = v.queue.holds.linked;
    sized = v.queue.holds.counted;
    few = v.queue.few;
  };
}

known_less : (fresh : ℕ) (rs : List ℕ) → All (λ r. r < fresh) rs → All (λ r. r < suc fresh) rs
known_less fresh [] a = tt
known_less fresh (r ∷ rs) a = (omega (arith, a.0), known_less fresh rs a.1)

known_other : (fresh : ℕ) (rs : List ℕ) → All (λ r. r < fresh) rs → All (λ s. s ≢ fresh) rs
known_other fresh [] a = tt
known_other fresh (r ∷ rs) a = ((λ e. omega (arith, a.0, e)), known_other fresh rs a.1)

last_known : (fresh t : ℕ) (rs : List ℕ) → last rs ≡ some t → All (λ r. r < fresh) rs → t < fresh
last_known fresh t [] e a = absurd (cc e)
last_known fresh t (r ∷ []) e a = let same : r ≡ t = cc e in omega (arith, a.0, same)
last_known fresh t (r ∷ s ∷ rs) e a = last_known fresh t (s ∷ rs) e a.1

push_unlinked :
    (q : RequestQueue) (tail : Option ℕ) (req r : ℕ)
    → ((t : ℕ) → tail ≡ some t → t ≢ r)
    → q.next r ≡ none
    → (push_at tail q req).next r ≡ none
unfolding push_at
push_unlinked q none req r other e = e
push_unlinked q (some t) req r other e = ground (arith, e, other t refl)

push_request-queued :
    (fresh n : ℕ) (q : RequestQueue) (v : Fresh fresh n q)
    → Holds (push_request q fresh) (v.queued ++ fresh ∷ [])
push_request-queued fresh n q v =
    push_request-Holds q v.queued fresh v.holds (v.unlinked fresh (omega arith))
      (known_other fresh v.queued v.known)

push_request-Fresh :
    (fresh n : ℕ) (q : RequestQueue)
    → Fresh fresh n q
    → Fresh (suc fresh) (suc n) (push_request q fresh)
unfolding push_request
push_request-Fresh fresh n q v = record {
  queued = v.queued ++ fresh ∷ [];
  holds = push_request-queued fresh n q v;
  known =
      All-append (λ r. r < suc fresh) v.queued (fresh ∷ []) (known_less fresh v.queued v.known)
        (omega arith, tt);
  unlinked = λ r le.
      push_unlinked q q.tail fresh r
        (λ t e same.
          let less = last_known fresh t v.queued (sym v.holds.ends ∙ e) v.known in
          omega (arith, less, same, le))
        (v.unlinked r (omega (arith, le)));
  few = omega (arith, length-append v.queued (fresh ∷ []), v.few);
}

positive-append : (rs : List ℕ) (r : ℕ) → is_positive (pos (length (rs ++ r ∷ []))) ≡ true
positive-append rs r = ground (arith, length-append rs (r ∷ []))

module _ {P : Type 0} (w : World P) (k : ℤ) where
  on_request-Reading :
      (n : ℕ) (f : Request → Bool × Request) (c : Option ℕ) (s : Session P)
      → Reading k n s
      → Reading k n (on_request w f c s).1
  on_request-Reading n f none s v = v
  on_request-Reading n f (some r) s v = record {
    counted = v.counted;
    phase = v.phase;
    bare = v.bare;
    current = v.current;
    queue = v.queue;
  }

  on_headers-Reading :
      (n past : ℕ) (p : Parsed) (c : Option ℕ) (s : Session P)
      → Reading k n s
      → Reading k n (on_headers w past p c s).1
  on_headers-Reading n past p none s v = v
  on_headers-Reading n past p (some r) s v = record {
    counted = v.counted;
    phase = v.phase;
    bare = v.bare;
    current = v.current;
    queue = v.queue;
  }

  pub Reading-weaken : (n m : ℕ) (s : Session P) → n ≤ m → Reading k n s → Reading k m s
  Reading-weaken n m s le v = record {
    counted = v.counted;
    phase = v.phase;
    bare = v.bare;
    current = v.current;
    queue = record {
      queued = v.queue.queued;
      holds = v.queue.holds;
      known = v.queue.known;
      unlinked = v.queue.unlinked;
      few = omega (arith, le, v.queue.few);
    };
  }

  more : (n : ℕ) (s : Session P) → Reading k n s → Reading k (suc n) s
  more n s v = Reading-weaken n (suc n) s (omega arith) v

  settings-Reading :
      (n : ℕ) (e : Event) (s : Session P) → Reading k n s → Reading k (suc n) (settings w e s).1
  unfolding settings message_begin_cb message_complete_cb
  settings-Reading n message_begin s v =
      let holds = push_request-queued s.next_request n s.request_queue v.queue in
      record {
        counted = v.counted;
        phase = v.phase;
        bare = v.bare;
        current =
            inr (ap is_positive holds.counted ∙ positive-append v.queue.queued s.next_request);
        queue = push_request-Fresh s.next_request n s.request_queue v.queue;
      }
  settings-Reading n (url c) s v =
      on_request-Reading (suc n) (λ req. url_cb w.has_memory req c) s.current_req s (more n s v)
  settings-Reading n (header_field c) s v =
      on_request-Reading (suc n) (λ req. header_field_cb req c) s.current_req s (more n s v)
  settings-Reading n (header_value c) s v =
      on_request-Reading (suc n) (λ req. header_value_cb req c) s.current_req s (more n s v)
  settings-Reading n (headers_complete past p) s v =
      on_headers-Reading (suc n) past p s.current_req s (more n s v)
  settings-Reading n (body chunked c) s v =
      on_request-Reading (suc n) (λ req. body_cb w.limits w.has_memory chunked req c) s.current_req
        s (more n s v)
  settings-Reading n (message_complete upgrade) s v =
      let u = more n s v in
      record {
        counted = u.counted;
        phase = u.phase;
        bare = u.bare;
        current = u.current;
        queue = u.queue;
      }

  run_callbacks-Reading :
      (rs : List (Report P)) (n m : ℕ) (p : P) (s : Session P)
      → Reading k n s
      → Reading k (n + length rs) (run_callbacks w rs m p s).1
  unfolding run_callbacks
  run_callbacks-Reading [] n m p s v =
      let u = Reading-weaken n (n + 0) s (omega arith) v in
      record {
        counted = u.counted;
        phase = u.phase;
        bare = u.bare;
        current = u.current;
        queue = u.queue;
      }
  run_callbacks-Reading (r ∷ rs) n m p s v =
      let next = (settings w r.event s).1 in
      let u = settings-Reading n r.event s v in
      let stopped = Reading-weaken (suc n) (n + length (r ∷ rs)) next (omega arith) u in
      if-Q (λ (x : ℕ × Session P). Reading k (n + length (r ∷ rs)) x.1) (settings w r.event s).0 _ _
        (λ e.
          Reading-weaken (suc n + length rs) (n + length (r ∷ rs)) _ (omega arith)
            (run_callbacks-Reading rs (suc n) m p next u))
        (λ e. record {
          counted = stopped.counted;
          phase = stopped.phase;
          bare = stopped.bare;
          current = stopped.current;
          queue = stopped.queue;
        })

  -- The parser's callbacks add at most as many requests as it makes reports.
  pub execute_parse-Reading :
      (http_parser_execute : P → List ℕ → List (Report P) × ℕ × P) (n : ℕ) (buf : List ℕ)
      (s : Session P)
      → Reading k n s
      → Reading k
          (n + length (http_parser_execute s.parser buf).0)
          (execute_parse w http_parser_execute buf s).1
  unfolding execute_parse
  execute_parse-Reading http_parser_execute n buf s v =
      let out = http_parser_execute s.parser buf in
      let u =
        run_callbacks-Reading out.0 n out.1 out.2 (record s { complete = false })
          (record {
            counted = v.counted;
            phase = v.phase;
            bare = v.bare;
            current = v.current;
            queue = v.queue;
          }) in
      record {
        counted = u.counted;
        phase = u.phase;
        bare = u.bare;
        current = u.current;
        queue = u.queue;
      }
