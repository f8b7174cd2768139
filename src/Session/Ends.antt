-- ===== src/Session/Ends.antt =====
-- `close_client` of meinheld/server/server.c ends, keeps the count of the loop, and leaves no request
-- behind.
use meinheld.Base.{
  none, inl, ap, if-Q, ℕ, zero, suc, ◌<◌, ◌≡◌, refl, inr, Bool, true, false, [], arith,
}
use meinheld.Base.Int.{ℤ, is_positive}
use meinheld.Queue.{RequestQueue, new_request_queue}
use meinheld.Session.{World, Session, watch, new_client}
use meinheld.Session.Serve.{clean_client}
use meinheld.Session.Close.{serve_next, finish_client, closed_request, close_client}
use meinheld.Session.Counted.{
  Ends, Ends-weaken, Live, Closed, positive-Queued, empty-Queued, Closed-weaken, watch-Live,
  unwatch-Live,
}
use meinheld.Session.Serves.{Serves}
use meinheld.Session.Served.{serve_next-Closed}

module _ {P : Type 0} (w : World P) (k : ℤ) (serves : Serves w) where
  closed_request-Live : (n : ℕ) (s : Session P) → Live k n s → Live k n (closed_request w s)
  unfolding closed_request clean_client
  closed_request-Live n s v =
      let v' = unwatch-Live k n _ (record { counted = v.counted; queue = v.queue }) in
      record { counted = v'.counted; queue = v'.queue }

  closed_request-bare : (s : Session P) → (closed_request w s).client.headers ≡ none
  unfolding closed_request clean_client
  closed_request-bare s = refl

  new_client-Live :
      (n : ℕ) (keep_alive : Bool) (s : Session P)
      → Live k n s
      → Live k n (new_client w keep_alive s)
  unfolding new_client new_request_queue
  new_client-Live n keep_alive s v = record {
    counted = v.counted;
    queue = record { queued = []; linked = refl; sized = refl; few = omega arith };
  }

  finish_client-Closed :
      (n : ℕ) (s : Session P)
      → is_positive s.request_queue.size ≡ false
      → Live k n s
      → Closed k n (finish_client w s)
  unfolding finish_client watch new_client new_request_queue
  finish_client-Closed n s e v =
      if-Q (Closed k n) s.client.keep_alive _ _
        (λ alive.
          let u = watch-Live k n (new_client w true s) (new_client-Live n true s v) in
          record {
            live = record { counted = u.counted; queue = u.queue };
            over =
                let same : (watch (new_client w true s)).request_queue ≡ new_request_queue =
                  if-Q (λ (t : Session P). t.request_queue ≡ new_request_queue) s.active
                    (new_client w true s) _ (λ e. refl) (λ e. refl) in
                let bare : (watch (new_client w true s)).client.headers ≡ none =
                  if-Q (λ (t : Session P). t.client.headers ≡ none) s.active (new_client w true s) _
                    (λ e. refl) (λ e. refl) in
                let idle : (watch (new_client w true s)).current_req ≡ none =
                  if-Q (λ (t : Session P). t.current_req ≡ none) s.active (new_client w true s) _
                    (λ e. refl) (λ e. refl) in
                inr (ap (λ (q : RequestQueue). q.size) same, inr (refl, same, bare, idle));
          })
        (λ dead. record {
          live = record { counted = v.counted; queue = v.queue };
          over = inr (empty-Queued n s.request_queue e v.queue, inl refl);
        })

  more-Closed :
      (fuel n : ℕ) (t : Session P)
      → ((m : ℕ) (s : Session P)
          → m < fuel
          → Live k m s
          → Ends (Closed k m) (close_client w fuel s))
      → n < suc fuel
      → 0 < n
      → t.client.headers ≡ none
      → is_positive t.request_queue.size ≡ true
      → Live k n t
      → Ends (Closed k n) (serve_next w (close_client w fuel) t)
  more-Closed fuel zero t rest less some_left bare more u = absurd (omega (arith, some_left))
  more-Closed fuel (suc m) t rest less some_left bare more u =
      Ends-weaken (Closed k m) (Closed k (suc m)) _
        (λ s c. Closed-weaken k m (suc m) s (omega arith) c)
        (serve_next-Closed w k serves (close_client w fuel) m
          (λ s v. rest m s (omega (arith, less)) v) t
          (record { live = u; bare = bare; some_left = more }))

  pub close_client-Closed :
      (fuel n : ℕ) (s : Session P)
      → n < fuel
      → Live k n s
      → Ends (Closed k n) (close_client w fuel s)
  unfolding close_client Ends
  close_client-Closed zero n s less v = absurd (omega (arith, less))
  close_client-Closed (suc fuel) n s less v =
      let t = closed_request w s in
      let u = closed_request-Live n s v in
      if-Q (Ends (Closed k n)) (is_positive t.request_queue.size) _ _
        (λ more.
          more-Closed fuel n t (close_client-Closed fuel) less
            (positive-Queued n t.request_queue more u.queue) (closed_request-bare s) more u)
        (λ last. finish_client-Closed n t last u)
