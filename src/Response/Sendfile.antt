-- ===== src/Response/Sendfile.antt =====
-- What `process_sendfile` sends of a file.
use meinheld.Base.{
  ℕ, zero, suc, ◌+◌, ◌%◌, ◌^◌, ◌≤◌, ◌<◌, min, ◌≡◌, ◌≢◌, refl, sym, ap, ◌∙◌, inl, inr, ==_iff, if-Q,
  Bool, true, false, Option, none, some, List, [], ◌∷◌, ◌++◌, append-nil, append_assoc, arith, ltb,
  Bool-cases, length, take, drop, drop-drop,
}
use mathlib.Core.Path.{subst}
use meinheld.Response.Stream.{if_true, if_false}
use meinheld.Response.{Answer, room, again, failed, Status, ok, suspend, endless}
use meinheld.Response.Client.{Client, file}
use meinheld.Response.Body.{
  call_close, close_response, left, sending, send_loop, process_sendfile, gives_none,
  negative_count,
}

-- The loop has sent this many bytes of the file, in order; success means that the declared length was
-- reached, and a loop that never ends, that it was not and that `sendfile` gives 0 for ever: nothing
-- is left of the file, or the declared length is 0 as an `int`.
pub record Sending (client : Client) (rest : List ℕ) (size : Option ℕ) (r : Status × Client)
    : Type 0 where
  pub taken : ℕ
  pub out : (r.1).out ≡ client.out ++ take taken rest
  pub response : (r.1).response ≡ file (drop taken rest) size
  pub counted : (r.1).write_bytes ≡ (client.write_bytes + taken) % 2 ^ 64
  pub reached : r.0 ≡ ok → client.content_length ≤ (r.1).write_bytes
  pub spins :
      r.0 ≡ endless
      → ((r.1).write_bytes < client.content_length)
        × (min (client.content_length % 2 ^ 32) (length (drop taken rest)) ≡ 0)

-- Closing a response changes only its flag, and returns.
record Closes (client : Client) (r : Status × Client) : Type 0 where
  flag : Bool
  same : r.1 ≡ record client { response_closed = flag }
  ends : r.0 ≢ endless

call_close-Closes :
    (close : Option Bool) (client : Client) → Closes client (call_close close client)
unfolding call_close
call_close-Closes none client = record {
  flag = client.response_closed;
  same = refl;
  ends = λ e. absurd (cc e);
}
call_close-Closes (some false) client = record {
  flag = true;
  same = refl;
  ends = λ e. absurd (cc e);
}
call_close-Closes (some true) client = record {
  flag = true;
  same = refl;
  ends = λ e. absurd (cc e);
}

close_response-Closes : (client : Client) → Closes client (close_response client)
unfolding close_response
close_response-Closes client = elim (Bool-cases client.response_closed) [
  | inl e ↦
      subst (Closes client) (sym (if_true client.response_closed (ok, client) _ e))
        (record { flag = client.response_closed; same = refl; ends = λ e. absurd (cc e) })
  | inr e ↦
      subst (Closes client) (sym (if_false client.response_closed (ok, client) _ e))
        (call_close-Closes client.close client)
]

take-take-drop : (n m : ℕ) (xs : List ℕ) → take n xs ++ take m (drop n xs) ≡ take (n + m) xs
take-take-drop zero m xs = ap (λ k. take k xs) (omega arith)
take-take-drop (suc n) zero [] = let e : suc n + 0 ≡ suc n = omega arith in rw e refl
take-take-drop (suc n) (suc m) [] =
    let e : suc n + suc m ≡ suc (n + suc m) = omega arith in rw e refl
take-take-drop (suc n) m (x ∷ xs) =
    let e : suc n + m ≡ suc (n + m) = omega arith in rw e (ap (◌∷◌ x) (take-take-drop n m xs))

-- One more piece of the file.
Sending-step :
    (client : Client) (n written : ℕ) (rest : List ℕ) (size : Option ℕ) (r : Status × Client)
    → written ≡ (client.write_bytes + n) % 2 ^ 64
    → Sending
        (record client { write_bytes = written; out = client.out ++ take n rest })
        (drop n rest)
        size
        r
    → Sending client rest size r
Sending-step client n written rest size r hw s = record {
  taken = n + s.taken;
  out =
      s.out
      ∙ append_assoc client.out (take n rest) (take s.taken (drop n rest))
      ∙ ap (λ t. client.out ++ t) (take-take-drop n s.taken rest);
  response = s.response ∙ ap (λ t. file t size) (drop-drop s.taken n rest);
  counted = omega (arith, s.counted, hw);
  reached = s.reached;
  spins = λ e. (
    (s.spins e).0,
    ap (λ t. min (client.content_length % 2 ^ 32) (length t)) (sym (drop-drop s.taken n rest))
        ∙ (s.spins e).1,
  );
}

closed-Sending :
    (client : Client) (answers : List Answer) (rest : List ℕ) (size : Option ℕ)
    → client.write_bytes < 2 ^ 64
    → client.content_length ≤ client.write_bytes
    → Sending client rest size (close_response (left answers rest size client))
unfolding left
closed-Sending client answers rest size hw hc =
    let c = close_response-Closes (left answers rest size client) in
    record {
      taken = 0;
      out = ap (λ d. d.out) c.same ∙ sym (append-nil client.out);
      response = ap (λ d. d.response) c.same;
      counted = ap (λ d. d.write_bytes) c.same ∙ omega arith;
      reached =
          λ e. subst (λ n. client.content_length ≤ n) (sym (ap (λ d. d.write_bytes) c.same)) hc;
      spins = λ e. absurd (c.ends e);
    }

-- A loop that stops, or never ends, before it sends more
stopped-Sending :
    (client : Client) (status : Status) (answers : List Answer) (rest : List ℕ) (size : Option ℕ)
    → client.write_bytes < 2 ^ 64
    → status ≢ ok
    → (status ≡ endless
        → (client.write_bytes < client.content_length)
          × (min (client.content_length % 2 ^ 32) (length rest) ≡ 0))
    → Sending client rest size (status, left answers rest size client)
unfolding left
stopped-Sending client status answers rest size hw fails e = record {
  taken = 0;
  out = sym (append-nil client.out);
  response = refl;
  counted = omega arith;
  reached = λ o. absurd (fails o);
  spins = e;
}

spun-Sending :
    (client : Client) (answers : List Answer) (rest : List ℕ) (size : Option ℕ)
    → client.write_bytes < 2 ^ 64
    → client.write_bytes < client.content_length
    → gives_none rest client ≡ true
    → Sending client rest size (endless, left answers rest size client)
spun-Sending client answers rest size hw more e =
    stopped-Sending client endless answers rest size hw (λ o. absurd (cc o))
      (λ o. (more, (==_iff _ 0).0 e))

sending-Sending :
    (answers : List Answer) (client : Client) (rest : List ℕ) (size : Option ℕ)
    → client.write_bytes < 2 ^ 64
    → Sending client rest size (sending answers rest size client)
unfolding sending left
sending-Sending [] client rest size hw =
    stopped-Sending client suspend [] rest size hw (λ o. absurd (cc o)) (λ o. absurd (cc o))
sending-Sending (again ∷ answers) client rest size hw =
    stopped-Sending client suspend answers rest size hw (λ o. absurd (cc o)) (λ o. absurd (cc o))
sending-Sending (failed ∷ answers) client rest size hw = record {
  taken = 0;
  out = sym (append-nil client.out);
  response = refl;
  counted = omega arith;
  reached = λ e. absurd (cc e);
  spins = λ e. absurd (cc e);
}
sending-Sending (room n ∷ answers) client rest size hw =
    let ret = min (suc n) (min (client.content_length % 2 ^ 32) (length rest)) in
    let written = (client.write_bytes + ret) % 2 ^ 64 in
    let next = record client { write_bytes = written; out = client.out ++ take ret rest } in
    let more = Sending next (drop ret rest) size in
    Sending-step client ret written rest size _ refl (
      if-Q more (ltb written client.content_length) _ _
        (λ e.
          if-Q more (gives_none (drop ret rest) next) _ _
            (λ f. spun-Sending next answers (drop ret rest) size (omega arith) (ground arith) f)
            (λ f. sending-Sending answers next (drop ret rest) size (omega arith)))
        (λ e. closed-Sending next answers (drop ret rest) size (omega arith) (ground arith)))

-- However `sendfile` cuts the file, `process_sendfile`, with `write_bytes` below 2^64, has sent some
-- number of its bytes, in order and after what was sent before, counts them in `write_bytes` and keeps
-- the rest of the file for the next call. It returns STATUS_OK only when `write_bytes` has reached the
-- declared length, and fails to return only when it has not and `sendfile` gives 0 for ever: the file
-- is at its end, or the declared length is 0 as an `int`.
pub process_sendfile-Sending :
    (client : Client) (rest : List ℕ) (size : Option ℕ)
    → client.write_bytes < 2 ^ 64
    → Sending
        (record client { response = file rest size })
        rest
        size
        (process_sendfile (record client { response = file rest size }))
unfolding process_sendfile send_loop left
process_sendfile-Sending client rest size hw =
    let c = record client { response = file rest size } in
    let Q = Sending c rest size in
    if-Q Q (ltb client.write_bytes client.content_length) _ _
      (λ e.
        if-Q Q (negative_count c) _ _
          (λ f. record {
            taken = 0;
            out = sym (append-nil client.out);
            response = refl;
            counted = omega arith;
            reached = λ e. absurd (cc e);
            spins = λ e. absurd (cc e);
          })
          (λ f.
            if-Q Q (gives_none rest c) _ _
              (λ g. spun-Sending c client.answers rest size hw (ground arith) g)
              (λ g. sending-Sending client.answers c rest size hw)))
      (λ e. closed-Sending c client.answers rest size hw (ground arith))
