-- ===== src/Session/Whole.antt =====
-- meinheld/server/http_request_parser.c: the callbacks of a request from its beginning to the last of
-- its headers, in however many pieces the library reports them.
use meinheld.Base.{
  ℕ, ◌≤◌, ◌≡◌, refl, sym, ap, ◌∙◌, inl, inr, Bool, true, false, Option, some, List, [], ◌∷◌, arith,
  ◌==◌, if◌then◌else◌, Bool-cases, length, All,
}
use mathlib.Core.Path.{subst}
use meinheld.Buffer.{Buffer}
use meinheld.Request.{
  Request, new_request, header_field_cb, header_value_cb, url_cb, flush_header, limit_path,
  limit_request_fields,
}
use meinheld.Request.Headers.{
  for_pieces, total, joined_pieces, UrlRead, HoldsUrl, url_pieces, url_pieces-Kept,
}
use meinheld.Request.Block.{
  HeaderPieces, wholes, Fits, for_headers, read_pieces, store_all, read_block-store_all,
}
use meinheld.Response.Stream.{if_true}
use meinheld.Session.{World, Session, stored}
use meinheld.Session.Parse.{
  Event, message_begin, url, header_field, header_value, Report, message_begin_cb, new_environ,
  settings, run_callbacks, on_request,
}

module _ {P : Type 0} (w : World P) (stop_at : ℕ) (stopped : P) where
  -- Reports, with what the library would say of a refusal
  abbrev pub reported : Event → Report P
  reported e = record { event = e; stop_at = stop_at; stopped = stopped }

  -- The reports of pieces
  abbrev pub reports_of : (List ℕ → Event) → List (List ℕ) → List (Report P) → List (Report P)
  reports_of event [] rest = rest
  reports_of event (c ∷ cs) rest = reported (event c) ∷ reports_of event cs rest

  -- The reports of headers
  abbrev pub header_reports : List HeaderPieces → List (Report P) → List (Report P)
  header_reports [] rest = rest
  header_reports (h ∷ hs) rest =
      reports_of header_field (h.name ∷ h.names)
        (reports_of header_value (h.value ∷ h.values) (header_reports hs rest))

  stored-stored : (s : Session P) (r : ℕ) (a b : Request) → stored (stored s r a) r b ≡ stored s r b
  stored-stored s r a b = λ i. record s { requests = λ q. same q i }
    where
      same :
          (q : ℕ)
          → (if q == r then b else if q == r then a else s.requests q)
            ≡ (if q == r then b else s.requests q)
      same q = elim (Bool-cases (q == r)) [ inl e ↦ rw e refl | inr e ↦ rw e refl ]

  stored-same : (s : Session P) (r : ℕ) → stored s r (s.requests r) ≡ s
  stored-same s r = λ i. record s { requests = λ q. same q i }
    where
      same : (q : ℕ) → (if q == r then s.requests r else s.requests q) ≡ s.requests q
      same q = elim (Bool-cases (q == r)) [
        | inl e ↦ rw e (ap s.requests (ground (arith, e)))
        | inr e ↦ rw e refl
      ]

  requests-stored : (s : Session P) (r : ℕ) (a : Request) → (stored s r a).requests r ≡ a
  requests-stored s r a = if_true (r == r) a (s.requests r) (ground arith)

  -- The rest of the run after a callback
  abbrev go_on : List (Report P) → ℕ → P → Bool × Session P → ℕ × Session P
  unfolding run_callbacks
  go_on rest n p next =
      if next.0
      then run_callbacks w rest n p next.1
      else (stop_at, record next.1 { parser = stopped })

  -- What a test of the first callback gives when the whole is taken
  branch_taken :
      (b : Bool) (x y : Bool × Request)
      → y.0 ≡ false
      → (if b then x else y).0 ≡ true
      → (b ≡ true) × ((if b then x else y) ≡ x)
  branch_taken true x y fails ok = (refl, refl)
  branch_taken false x y fails ok = absurd (cc (sym ok ∙ fails))

  first_taken :
      (f : Request → List ℕ → Bool × Request) (req : Request) (c : List ℕ) (cs : List (List ℕ))
      → (for_pieces f req (c ∷ cs)).0 ≡ true
      → ((f req c).0 ≡ true) × (for_pieces f req (c ∷ cs) ≡ for_pieces f (f req c).1 cs)
  unfolding for_pieces
  first_taken f req c cs ok = branch_taken (f req c).0 _ (false, (f req c).1) refl ok

  -- The run of the reports of pieces is the run of their callback on the request.
  pieces_run :
      (event : List ℕ → Event) (f : Request → List ℕ → Bool × Request)
      → ((c : List ℕ) (s : Session P)
          → settings w (event c) s ≡ on_request w (λ req. f req c) s.current_req s)
      → (cs : List (List ℕ)) (rest : List (Report P)) (n : ℕ) (p : P) (r : ℕ) (s : Session P)
        (req : Request)
      → s.current_req ≡ some r
      → s.requests r ≡ req
      → (for_pieces f req cs).0 ≡ true
      → run_callbacks w (reports_of event cs rest) n p s
        ≡ run_callbacks w rest n p (stored s r (for_pieces f req cs).1)
  unfolding run_callbacks for_pieces
  pieces_run event f does [] rest n p r s req cur at ok =
      ap (run_callbacks w rest n p) (sym (stored-same s r) ∙ ap (stored s r) at)
  pieces_run event f does (c ∷ cs) rest n p r s req cur at ok =
      let next = stored s r (f req c).1 in
      let taken = first_taken f req c cs ok in
      let step : settings w (event c) s ≡ ((f req c).0, next) =
        does c s
        ∙ ap (λ o. on_request w (λ req. f req c) o s) cur
        ∙ ap (λ (x : Bool × Request). (x.0, stored s r x.1)) (ap (λ a. f a c) at) in
      ap (go_on (reports_of event cs rest) n p) step
      ∙ if_true (f req c).0 _ _ taken.0
      ∙ pieces_run event f does cs rest n p r next (f req c).1 cur (requests-stored s r (f req c).1)
          (ap (λ (x : Bool × Request). x.0) (sym taken.1) ∙ ok)
      ∙ ap (run_callbacks w rest n p)
          (stored-stored s r (f req c).1 (for_pieces f (f req c).1 cs).1)
      ∙ ap (λ (x : Bool × Request). run_callbacks w rest n p (stored s r x.1)) (sym taken.1)

  headers_run :
      (hs : List HeaderPieces) (rest : List (Report P)) (n : ℕ) (p : P) (r : ℕ) (s : Session P)
      (req : Request)
      → s.current_req ≡ some r
      → s.requests r ≡ req
      → (for_headers req hs).0 ≡ true
      → run_callbacks w (header_reports hs rest) n p s
        ≡ run_callbacks w rest n p (stored s r (for_headers req hs).1)
  unfolding for_headers settings
  headers_run [] rest n p r s req cur at ok =
      ap (run_callbacks w rest n p) (sym (stored-same s r) ∙ ap (stored s r) at)
  headers_run (h ∷ hs) rest n p r s req cur at ok =
      let read =
        branch_taken (read_pieces req h).0 (for_headers (read_pieces req h).1 hs)
          (false, (read_pieces req h).1) refl ok in
      let names = for_pieces header_field_cb req (h.name ∷ h.names) in
      let named =
        branch_taken names.0 (for_pieces header_value_cb names.1 (h.value ∷ h.values))
          (false, names.1) refl read.0 in
      let values = for_pieces header_value_cb names.1 (h.value ∷ h.values) in
      let last = header_reports hs rest in
      let s1 = stored s r names.1 in
      let s2 = stored s r (read_pieces req h).1 in
      pieces_run header_field header_field_cb (λ c t. refl) (h.name ∷ h.names)
        (reports_of header_value (h.value ∷ h.values) last) n p r s req cur at named.0
      ∙ pieces_run header_value header_value_cb (λ c t. refl) (h.value ∷ h.values) last n p r s1
          names.1 cur (requests-stored s r names.1)
          (ap (λ (x : Bool × Request). x.0) (sym named.1) ∙ read.0)
      ∙ ap (run_callbacks w last n p) (
          stored-stored s r names.1 values.1
          ∙ ap (λ (x : Bool × Request). stored s r x.1) (sym named.1))
      ∙ headers_run hs rest n p r s2 (read_pieces req h).1 cur
          (requests-stored s r (read_pieces req h).1)
          (ap (λ (x : Bool × Request). x.0) (sym read.1) ∙ ok)
      ∙ ap (run_callbacks w rest n p) (
          stored-stored s r (read_pieces req h).1 (for_headers (read_pieces req h).1 hs).1
          ∙ ap (λ (x : Bool × Request). stored s r x.1) (sym read.1))

  -- The request as `message_begin_cb` makes it
  abbrev pub begun_request : Request
  begun_request = record new_request { start_msec = w.current_msec; environ = new_environ w }

  -- What the callbacks leave of a URL and of headers, in the request that they are about
  pub record BlockRead (cs : List (List ℕ)) (hs : List HeaderPieces) (rest : List (Report P))
      (n : ℕ) (p : P) (s : Session P) : Type 0 where
    pub req : Request
    pub path : Option Buffer
    pub ran :
        run_callbacks w (reported message_begin ∷ reports_of url cs (header_reports hs rest)) n p s
        ≡ run_callbacks w rest n p (stored (message_begin_cb w s) s.next_request req)
    pub url_held : HoldsUrl path (joined_pieces cs)
    pub flushed :
        flush_header req ≡ (true, store_all (record begun_request { path = path }) (wholes hs))

  -- However the library cuts them, the reports of a new request, of a URL of at most 8192 bytes and of
  -- at most 128 headers that fit are run to their end: the request at the end of the queue has the
  -- whole URL in its path buffer, and the flush with which the headers end leaves the environ that
  -- the headers as wholes give. There is memory for the path.
  pub run_callbacks-BlockRead :
      (cs : List (List ℕ)) (hs : List HeaderPieces) (rest : List (Report P)) (n : ℕ) (p : P)
      (s : Session P)
      → w.has_memory ≡ true
      → total cs ≤ limit_path
      → length hs ≤ limit_request_fields
      → All Fits hs
      → BlockRead cs hs rest n p s
  unfolding run_callbacks settings new_request message_begin_cb for_headers
  run_callbacks-BlockRead cs hs rest n p s memory short few fits =
      let f = url_cb w.has_memory in
      let u = for_pieces f begun_request cs in
      let held : UrlRead [] cs u =
        subst (λ m. UrlRead [] cs (for_pieces (url_cb m) begun_request cs)) (sym memory)
          (url_pieces cs begun_request refl (omega arith)) in
      let taken : u.0 ≡ true = ground (arith, held.0) in
      let with_path = record begun_request { path = u.1.path } in
      let kept : u.1 ≡ with_path = url_pieces-Kept w.has_memory cs begun_request taken in
      let block = read_block-store_all hs with_path refl refl refl (omega (arith, few)) fits in
      let headers = for_headers with_path hs in
      let headed =
        branch_taken headers.0 (flush_header headers.1) (false, headers.1) refl
          (ap (λ (x : Bool × Request). x.0) block) in
      let r = s.next_request in
      let begun = message_begin_cb w s in
      let at_url = stored begun r u.1 in
      record {
        req = headers.1;
        path = u.1.path;
        ran =
            pieces_run url f (λ c t. refl) cs (header_reports hs rest) n p r begun begun_request
              refl (if_true (r == r) begun_request (s.requests r) (ground arith)) taken
            ∙ headers_run hs rest n p r at_url with_path refl (requests-stored begun r u.1 ∙ kept)
                headed.0
            ∙ ap (run_callbacks w rest n p) (stored-stored begun r u.1 headers.1);
        url_held = held.1 taken;
        flushed = sym headed.1 ∙ block;
      }
