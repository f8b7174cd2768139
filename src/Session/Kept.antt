-- ===== src/Session/Kept.antt =====
-- What `close_client` of meinheld/server/server.c leaves when no request waits.
use meinheld.Base.{
  if-Q, ℕ, suc, ◌≡◌, refl, ap, ◌∙◌, Bool, true, false, Option, none, some, if◌then◌else◌,
}
use meinheld.Base.Int.{pos, is_positive}
use meinheld.Queue.{RequestQueue}
use meinheld.Response.{Status}
use meinheld.Response.Client.{Client}
use meinheld.Session.{World, Session, done, watch, unwatch, serving, new_client, gone}
use meinheld.Session.Serve.{clean_client}
use meinheld.Response.Stream.{if_true, if_false}
use meinheld.Response.Body.{call_close, close_response}
use meinheld.Session.Close.{finish_client, closed_request, close_client}

-- What the closing of a response leaves of a client.
pub record Kept (c d : Client) : Type 0 where
  pub alive : d.keep_alive ≡ c.keep_alive
  pub headed : d.header_done ≡ c.header_done
  pub sent : d.out ≡ c.out
  pub shut : d.read_shut ≡ c.read_shut

call_close-Kept : (close : Option Bool) (c : Client) → Kept c (call_close close c).1
unfolding call_close
call_close-Kept none c = record { alive = refl; headed = refl; sent = refl; shut = refl }
call_close-Kept (some false) c = record { alive = refl; headed = refl; sent = refl; shut = refl }
call_close-Kept (some true) c = record { alive = refl; headed = refl; sent = refl; shut = refl }

pub close_response-Kept : (c : Client) → Kept c (close_response c).1
unfolding close_response
close_response-Kept c =
    if-Q (λ (x : Status × Client). Kept c x.1) c.response_closed _ _
      (λ e. record { alive = refl; headed = refl; sent = refl; shut = refl })
      (λ e. call_close-Kept c.close c)

module _ {P : Type 0} (w : World P) where
  unwatch_same :
      (s : Session P)
      → ((unwatch s).client ≡ s.client) × ((unwatch s).request_queue ≡ s.request_queue)
  unfolding unwatch
  unwatch_same s = (
    if-Q (λ (t : Session P). t.client ≡ s.client) s.active _ s (λ e. refl) (λ e. refl),
    if-Q (λ (t : Session P). t.request_queue ≡ s.request_queue) s.active _ s (λ e. refl)
        (λ e. refl),
  )

  closed_request_same :
      (s : Session P)
      → ((closed_request w s).request_queue ≡ s.request_queue)
        × ((closed_request w s).client.keep_alive ≡ s.client.keep_alive)
        × ((closed_request w s).client.out ≡ s.client.out)
        × ((closed_request w s).client.read_shut ≡ s.client.read_shut)
  unfolding closed_request clean_client
  closed_request_same s =
      let c = if s.client.response_closed then s.client else (close_response s.client).1 in
      let same : Kept s.client c =
        if-Q (Kept s.client) s.client.response_closed _ _
          (λ e. record { alive = refl; headed = refl; sent = refl; shut = refl })
          (λ e. close_response-Kept s.client) in
      let (client, queue) = unwatch_same (record s { client = c }) in
      (
        queue,
        ap (λ (d : Client). d.keep_alive) client ∙ same.alive,
        ap (λ (d : Client). d.out) client ∙ same.sent,
        ap (λ (d : Client). d.read_shut) client ∙ same.shut,
      )

  -- A client that keeps no connection and has no request left is given back.
  pub close_client-gone :
      (fuel : ℕ) (s : Session P)
      → s.client.keep_alive ≡ false
      → s.request_queue.size ≡ pos 0
      → (t : Session P) × (close_client w (suc fuel) s ≡ done t)
        × (t.phase ≡ gone)
        × (t.client.out ≡ s.client.out)
  unfolding close_client finish_client
  close_client-gone fuel s dead empty =
      let c = closed_request w s in
      let (queue, alive, out, _) = closed_request_same s in
      let none_left : is_positive c.request_queue.size ≡ false =
        ap (λ (q : RequestQueue). is_positive q.size) queue ∙ ap is_positive empty in
      (
        record c { phase = gone },
        if_false (is_positive c.request_queue.size) _ _ none_left
            ∙ ap done (if_false c.client.keep_alive _ _ (alive ∙ dead)),
        refl,
        out,
      )

  -- A client that keeps its connection and has no request left is read again.
  pub close_client-serving :
      (fuel : ℕ) (s : Session P)
      → s.client.keep_alive ≡ true
      → s.request_queue.size ≡ pos 0
      → (t : Session P) × (close_client w (suc fuel) s ≡ done t)
        × (t.phase ≡ serving)
        × (t.client.out ≡ s.client.out)
        × (t.active ≡ true)
        × (t.client.read_shut ≡ s.client.read_shut)
  unfolding close_client finish_client watch new_client
  close_client-serving fuel s alive empty =
      let c = closed_request w s in
      let (queue, kept, out, shut) = closed_request_same s in
      let none_left : is_positive c.request_queue.size ≡ false =
        ap (λ (q : RequestQueue). is_positive q.size) queue ∙ ap is_positive empty in
      let n = new_client w true c in
      (
        record (watch n) { phase = serving },
        if_false (is_positive c.request_queue.size) _ _ none_left
            ∙ ap done (if_true c.client.keep_alive _ _ (kept ∙ alive)),
        refl,
        if-Q (λ (t : Session P). t.client.out ≡ s.client.out) c.active n _ (λ e. out) (λ e. out),
        if-Q (λ (t : Session P). t.active ≡ true) c.active n _ (λ e. e) (λ e. refl),
        if-Q (λ (t : Session P). t.client.read_shut ≡ s.client.read_shut) c.active n _ (λ e. shut)
            (λ e. shut),
      )
