-- ===== src/Session/Counted.antt =====
-- What the functions of meinheld/server/server.c keep of a connection: the count of the watched
-- descriptors, and the queue of its requests.
use meinheld.Base.{
  if-Q, ℕ, zero, suc, ◌+◌, ◌≤◌, ◌<◌, ◌≡◌, refl, sym, ap, ◌∙◌, ◌≢◌, ◌⊎◌, inl, inr, true, false, none,
  some, List, [], ◌∷◌, arith, if◌then◌else◌, Option-cases, length,
}
use meinheld.Base.Int.{ℤ, pos, negsuc, inc, dec, is_positive}
use meinheld.Queue.{RequestQueue, new_request_queue, shift_at, shift_request}
use meinheld.Queue.Order.{Linked}
use meinheld.Session.{
  World, Session, Run, done, stuck, no_fuel, and_then, watch, unwatch, waiting, serving, gone,
}
use meinheld.Session.Serve.{set_current_request}

-- A run ends in a session, not stuck, and what it leaves has a property.
unfoldable pub Ends {ℓ} : {A : Type ℓ} → (A → Type 0) → Run A → Type 0
Ends Q (done a) = Q a
Ends Q stuck = ⊥
Ends Q no_fuel = ⊥

pub and_then-Ends {ℓ} :
    {A B : Type ℓ} (R : A → Type 0) (Q : B → Type 0) (r : Run A) (f : A → Run B)
    → Ends R r
    → ((a : A) → R a → Ends Q (f a))
    → Ends Q (and_then r f)
unfolding Ends
and_then-Ends R Q (done a) f e k = k a e
and_then-Ends R Q stuck f e k = e
and_then-Ends R Q no_fuel f e k = e

pub Ends-weaken {ℓ} :
    {A : Type ℓ} (R Q : A → Type 0) (r : Run A) → ((a : A) → R a → Q a) → Ends R r → Ends Q r
unfolding Ends
Ends-weaken R Q (done a) f e = f a e
Ends-weaken R Q stuck f e = e
Ends-weaken R Q no_fuel f e = e

-- At most `n` requests wait in a queue.
pub record Queued (n : ℕ) (q : RequestQueue) : Type 0 where
  pub queued : List ℕ
  pub linked : Linked q.next q.head queued
  pub sized : q.size ≡ pos (length queued)
  pub few : length queued ≤ n

-- The loop counts `k` other descriptors, and at most `n` requests wait.
pub record Live {P : Type 0} (k : ℤ) (n : ℕ) (s : Session P) : Type 0 where
  pub counted : s.activecnt ≡ (if s.active then inc k else k)
  pub queue : Queued n s.request_queue

-- A connection whose request can be served: nothing of a response is set, and a request waits
pub record Ready {P : Type 0} (k : ℤ) (n : ℕ) (s : Session P) : Type 0 where
  pub live : Live k n s
  pub bare : s.client.headers ≡ none
  pub some_left : is_positive s.request_queue.size ≡ true

-- A client that was given back, or a new one that was put in its place on the same connection
abbrev pub Finished : {P : Type 0} → Session P → Type 0
Finished s =
    (s.request_queue.size ≡ pos 0)
    × ((s.phase ≡ gone)
        ⊎ ((s.phase ≡ serving)
            × (s.request_queue ≡ new_request_queue)
            × (s.client.headers ≡ none)
            × (s.current_req ≡ none)))

-- A connection that waits for its socket, or has no request left.
pub record Closed {P : Type 0} (k : ℤ) (n : ℕ) (s : Session P) : Type 0 where
  pub live : Live k n s
  pub over : (s.phase ≡ waiting) ⊎ Finished s

suc_add : (n : ℕ) → n + 1 ≡ suc n
suc_add n = omega arith

pub dec-inc : (k : ℤ) → dec (inc k) ≡ k
dec-inc (pos n) = ap (λ m. dec (pos m)) (suc_add n)
dec-inc (negsuc zero) = refl
dec-inc (negsuc (suc n)) = ap negsuc (suc_add n)

Queued-weaken : (n m : ℕ) (q : RequestQueue) → n ≤ m → Queued n q → Queued m q
Queued-weaken n m q le v = record {
  queued = v.queued;
  linked = v.linked;
  sized = v.sized;
  few = omega (arith, le, v.few);
}

shift_request-Queued :
    (n : ℕ) (q : RequestQueue) (r : ℕ)
    → q.head ≡ some r
    → Queued (suc n) q
    → Queued n (shift_request q).1
unfolding shift_request shift_at
shift_request-Queued n q r e v = by_queue v.queued v.linked v.sized v.few
  where
    by_queue :
        (rs : List ℕ)
        → Linked q.next q.head rs
        → q.size ≡ pos (length rs)
        → length rs ≤ suc n
        → Queued n (shift_at q.head q).1
    by_queue [] l z f = absurd (cc (e, l))
    by_queue (t ∷ rs) l z f =
        rw l.0 (record { queued = rs; linked = l.1; sized = ap dec z; few = omega (arith, f) })

-- A queue that is not empty has a request to spare.
pub positive-Queued : (n : ℕ) (q : RequestQueue) → is_positive q.size ≡ true → Queued n q → 0 < n
positive-Queued n q e v = positive v.queued v.sized v.few
  where
    positive : (rs : List ℕ) → q.size ≡ pos (length rs) → length rs ≤ n → 0 < n
    positive [] z f = absurd (cc (sym (ap is_positive z) ∙ e))
    positive (r ∷ rs) z f = omega (arith, f)

pub empty-Queued :
    (n : ℕ) (q : RequestQueue) → is_positive q.size ≡ false → Queued n q → q.size ≡ pos 0
empty-Queued n q e v = empty v.queued v.sized
  where
    empty : (rs : List ℕ) → q.size ≡ pos (length rs) → q.size ≡ pos 0
    empty [] z = z
    empty (r ∷ rs) z =
        let never : is_positive (pos (length (r ∷ rs))) ≡ false = sym (ap is_positive z) ∙ e in
        ground (arith, never)

head_some : (n : ℕ) (q : RequestQueue) → is_positive q.size ≡ true → Queued n q → q.head ≢ none
head_some n q e v z = by_queue v.queued v.linked v.sized
  where
    by_queue : (rs : List ℕ) → Linked q.next q.head rs → q.size ≡ pos (length rs) → ⊥
    by_queue [] l s = absurd (cc (sym (ap is_positive s) ∙ e))
    by_queue (r ∷ rs) l s = absurd (cc (sym z ∙ l.0))

module _ {P : Type 0} (k : ℤ) where
  pub Closed-weaken : (n m : ℕ) (s : Session P) → n ≤ m → Closed k n s → Closed k m s
  Closed-weaken n m s le c = record {
    live = record { counted = c.live.counted; queue = Queued-weaken n m _ le c.live.queue };
    over = c.over;
  }

  pub watch-Live : (n : ℕ) (s : Session P) → Live k n s → Live k n (watch s)
  unfolding watch
  watch-Live n s v =
      if-Q (Live k n) s.active s _ (λ on. v)
        (λ off. record {
          counted = ap inc (v.counted ∙ ap (λ b. if b then inc k else k) off);
          queue = v.queue;
        })

  pub unwatch-Live : (n : ℕ) (s : Session P) → Live k n s → Live k n (unwatch s)
  unfolding unwatch
  unwatch-Live n s v =
      if-Q (Live k n) s.active _ s
        (λ on. record {
          counted = ap dec (v.counted ∙ ap (λ b. if b then inc k else k) on) ∙ dec-inc k;
          queue = v.queue;
        })
        (λ off. v)

  -- A request that is taken from the queue leaves one less.
  pub set_current_request-Live :
      (w : World P) (n : ℕ) (s : Session P) (r : ℕ)
      → s.request_queue.head ≡ some r
      → Live k (suc n) s
      → Live k n (set_current_request w s)
  unfolding set_current_request
  set_current_request-Live w n s r e v = record {
    counted = v.counted;
    queue = shift_request-Queued n s.request_queue r e v.queue;
  }

  -- The request that is taken from a queue that is not empty is the current one.
  pub current_req-Live :
      (w : World P) (n : ℕ) (s : Session P)
      → Ready k (suc n) s
      → Live k n (set_current_request w s) × ((set_current_request w s).current_req ≢ none)
  unfolding set_current_request shift_request shift_at
  current_req-Live w n s v = elim (Option-cases s.request_queue.head) [
    | inl e ↦ absurd (head_some (suc n) s.request_queue v.some_left v.live.queue e)
    | inr (r, e) ↦ (
      set_current_request-Live w n s r e v.live,
      λ z. absurd (cc (sym (ap (λ h. (shift_at h s.request_queue).0) e) ∙ z)),
    )
  ]
