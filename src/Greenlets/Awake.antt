-- ===== src/Greenlets/Awake.antt =====
-- A client that is suspended has an event that will wake it.
use meinheld.Base.{
  ℕ, ◌≡◌, refl, sym, ap, ◌∙◌, ◌≢◌, ◌⊎◌, inl, inr, Bool, true, false, none, some, List, arith, ltb,
  ◌==◌, ==_iff, if-Q, Bool-cases,
}
use mathlib.Core.Path.{subst}
use meinheld.FreeList.{put}
use meinheld.FreeList.Pools.{ClientObject}
use meinheld.Response.Stream.{if_true, if_false}
use meinheld.Greenlets.{
  Watch, Loop, Outcome, suspend_watch, released, Callback, trampoline_client, trampoline_greenlet,
  timeout_error, timeout_call, find, place, remove, add_watch, del_watch, suspend, resume,
  resume_wsgi_handler, wake_with_error, fire, on_timeout,
}
use meinheld.Greenlets.Watches.{
  find-place, find-remove, Counted, add_watch-Counted, del_watch-Counted,
}

-- The descriptor of a client object
abbrev pub fd : Loop → ℕ → ℕ
fd l o = l.fd_of (l.objects o).client

abbrev pub Wakes : ℕ → Callback → Type 0
Wakes o c = (c ≡ timeout_error o) ⊎ (c ≡ timeout_call o)

-- The descriptor of a suspended client is watched, with a callback that resumes it.
abbrev pub Waker : List (ℕ × Watch) → ℕ → ℕ → Type 0
Waker ws g o = (w : Watch) × (find g ws ≡ some w) × Wakes o w.callback

pub record Awake (l : Loop) : Type 0 where
  pub counted : Counted l
  pub wakes : (o : ℕ) → (l.objects o).suspended ≡ true → Waker l.watched (fd l o) o

Wakes-same : (o p : ℕ) (c : Callback) → Wakes o c → Wakes p c → o ≡ p
Wakes-same o p c (inl e) (inl f) = cc (e, f)
Wakes-same o p c (inl e) (inr f) = absurd (cc (e, f))
Wakes-same o p c (inr e) (inl f) = absurd (cc (e, f))
Wakes-same o p c (inr e) (inr f) = cc (e, f)

-- Two wakers at one descriptor are for one client.
Waker-same : (ws : List (ℕ × Watch)) (g h o p : ℕ) → g ≡ h → Waker ws g o → Waker ws h p → o ≡ p
Waker-same ws g h o p same (v, e, a) (w, f, b) =
    let both : v ≡ w = cc (e, f, same) in
    Wakes-same o p w.callback (subst (λ (x : Watch). Wakes o x.callback) both a) b

place-Waker :
    (ws : List (ℕ × Watch)) (g h o : ℕ) (w : Watch)
    → h ≢ g
    → Waker ws g o
    → Waker (place h w ws) g o
place-Waker ws g h o w other (v, e, a) =
    (v, find-place h g w ws ∙ if_false (h == g) _ _ (ground (arith, other)) ∙ e, a)

place_own-Waker :
    (ws : List (ℕ × Watch)) (g o : ℕ) (w : Watch) → Wakes o w.callback → Waker (place g w ws) g o
place_own-Waker ws g o w a = (w, find-place g g w ws ∙ if_true (g == g) _ _ (ground arith), a)

remove-Waker : (ws : List (ℕ × Watch)) (g h o : ℕ) → h ≢ g → Waker ws g o → Waker (remove h ws) g o
remove-Waker ws g h o other (v, e, a) = (v, find-remove h g ws other ∙ e, a)

-- A store to an object that keeps its client
put-wakes :
    (l : Loop) (ws : List (ℕ × Watch)) (o : ℕ) (x : ClientObject)
    → x.client ≡ (l.objects o).client
    → (x.suspended ≡ true → Waker ws (fd l o) o)
    → ((p : ℕ) → p ≢ o → (l.objects p).suspended ≡ true → Waker ws (fd l p) p)
    → (p : ℕ) → (put l.objects o x p).suspended ≡ true
    → Waker ws (l.fd_of (put l.objects o x p).client) p
put-wakes l ws o x client own others p s = elim (Bool-cases (p == o)) [
  | inl e ↦
      let same : p ≡ o = (==_iff p o).0 e in
      let at : put l.objects o x p ≡ x = if_true (p == o) _ _ e in
      let s' : x.suspended ≡ true = sym (ap (λ (y : ClientObject). y.suspended) at) ∙ s in
      subst (λ (y : ClientObject). Waker ws (l.fd_of y.client) p) (sym at)
        (subst (λ c. Waker ws (l.fd_of c) p) (sym client)
          (subst (λ q. Waker ws (fd l o) q) (sym same) (own s')))
  | inr e ↦
      let at : put l.objects o x p ≡ l.objects p = if_false (p == o) _ _ e in
      let s' : (l.objects p).suspended ≡ true =
        sym (ap (λ (y : ClientObject). y.suspended) at) ∙ s in
      subst (λ (y : ClientObject). Waker ws (l.fd_of y.client) p) (sym at)
        (others p (λ f. absurd (cc (e, (==_iff p o).1 f))) s')
]

resume_wsgi_handler-Awake :
    (o : ℕ) (error : Bool) (l : Loop) → Awake l → Awake (resume_wsgi_handler o error l)
unfolding resume_wsgi_handler
resume_wsgi_handler-Awake o error l a = record {
  counted = a.counted;
  wakes =
      put-wakes l l.watched o (record (l.objects o) { args = none; kwargs = none }) refl (a.wakes o)
        (λ p n s. a.wakes p s);
}

-- What may be done at a descriptor: no suspended client waits there.
abbrev pub Free : Loop → ℕ → Type 0
Free l g = (p : ℕ) → (l.objects p).suspended ≡ true → g ≢ fd l p

pub add_watch-Awake : (g : ℕ) (w : Watch) (l : Loop) → Free l g → Awake l → Awake (add_watch g w l)
unfolding add_watch
add_watch-Awake g w l free a = record {
  counted = add_watch-Counted g w l a.counted;
  wakes = λ p s. place-Waker l.watched (fd l p) g p w (free p s) (a.wakes p s);
}

pub del_watch-Awake : (g : ℕ) (l : Loop) → Free l g → Awake l → Awake (del_watch g l)
unfolding del_watch
del_watch-Awake g l free a = record {
  counted = del_watch-Counted g l a.counted;
  wakes = λ p s. remove-Waker l.watched (fd l p) g p (free p s) (a.wakes p s);
}

pub suspend-Awake :
    (o timeout : ℕ) (l : Loop) → Free l (fd l o) → Awake l → Awake (suspend o timeout l).1
unfolding suspend add_watch
suspend-Awake o timeout l free a =
    if-Q (λ (x : Outcome × Loop). Awake x.1) (l.objects o).suspended _ _ (λ e. a)
      (λ e. record {
        counted = add_watch-Counted (fd l o) _ l a.counted;
        wakes =
            put-wakes l _ o (record (l.objects o) { suspended = true }) refl
              (λ s. place_own-Waker l.watched (fd l o) o (suspend_watch o timeout) (
                if-Q (Wakes o) (ltb 0 timeout) (timeout_error o) (timeout_call o) (λ b. inl refl)
                  (λ b. inr refl)))
              (λ p n s. place-Waker l.watched (fd l p) (fd l o) p _ (free p s) (a.wakes p s));
      })

pub resume-Awake : (o args kwargs : ℕ) (l : Loop) → Awake l → Awake (resume o args kwargs l).1
unfolding resume add_watch
resume-Awake o args kwargs l a =
    if-Q (λ (x : Outcome × Loop). Awake x.1) (l.objects o).suspended _ _
      (λ e. record {
        counted = add_watch-Counted (fd l o) _ l a.counted;
        wakes =
            put-wakes l _ o _ refl (λ s. absurd (cc s))
              (λ p n s.
                place-Waker l.watched (fd l p) (fd l o) p _
                  (λ same. n (
                    sym (
                      Waker-same l.watched (fd l o) (fd l p) o p same (a.wakes o e) (a.wakes p s))))
                  (a.wakes p s));
      })
      (λ e. a)

-- A callback at a descriptor that wakes one client at most
other_free :
    (g o : ℕ) (l : Loop) (w : Watch)
    → find g l.watched ≡ some w
    → Wakes o w.callback
    → Awake l
    → (p : ℕ) → p ≢ o
    → (l.objects p).suspended ≡ true
    → g ≢ fd l p
other_free g o l w e c a p n s same =
    n (sym (Waker-same l.watched g (fd l p) o p same (w, e, c) (a.wakes p s)))

wake_with_error-Awake :
    (g o : ℕ) (l : Loop) (w : Watch)
    → find g l.watched ≡ some w
    → Wakes o w.callback
    → Awake l
    → Awake (wake_with_error g o l)
unfolding wake_with_error del_watch
wake_with_error-Awake g o l w e c a =
    resume_wsgi_handler-Awake o true (released o (del_watch g l)) (record {
      counted = del_watch-Counted g l a.counted;
      wakes =
          put-wakes l _ o (record (l.objects o) { suspended = false }) refl (λ s. absurd (cc s))
            (λ p n s.
              remove-Waker l.watched (fd l p) g p (other_free g o l w e c a p n s) (a.wakes p s));
    })

-- A callback that wakes no client stands where no suspended client waits.
idle-Free :
    (g : ℕ) (l : Loop) (w : Watch)
    → find g l.watched ≡ some w
    → ((p : ℕ) → ¬ Wakes p w.callback)
    → Awake l
    → Free l g
idle-Free g l w e never a p s same =
    let (v, f, c) = a.wakes p s in
    let both : v ≡ w = cc (e, f, same) in never p (subst (λ (x : Watch). Wakes p x.callback) both c)

never_client : (o p : ℕ) (c : Callback) → c ≡ trampoline_client o → ¬ Wakes p c
never_client o p c e (inl f) = absurd (cc (e, f))
never_client o p c e (inr f) = absurd (cc (e, f))

never_greenlet : (h p : ℕ) (c : Callback) → c ≡ trampoline_greenlet h → ¬ Wakes p c
never_greenlet h p c e (inl f) = absurd (cc (e, f))
never_greenlet h p c e (inr f) = absurd (cc (e, f))

abbrev again_watch : ℕ → Watch
again_watch o = record { events = on_timeout; timeout = 30; callback = timeout_call o }

abbrev again : ℕ → ℕ → Loop → Loop
again g o l = add_watch g (again_watch o) l

-- The event of a client that waits without a limit is set again.
again-Awake :
    (g o : ℕ) (l : Loop) (w : Watch)
    → find g l.watched ≡ some w
    → Wakes o w.callback
    → Awake l
    → Awake (again g o l)
unfolding add_watch
again-Awake g o l w e c a = record {
  counted = add_watch-Counted g _ l a.counted;
  wakes = λ p s. elim (Bool-cases (g == fd l p)) [
    | inl here ↦
        let same : g ≡ fd l p = (==_iff g (fd l p)).0 here in
        let one : o ≡ p = Waker-same l.watched g (fd l p) o p same (w, e, c) (a.wakes p s) in
        subst (λ h. Waker (place h (again_watch o) l.watched) (fd l p) p) (sym same)
          (place_own-Waker l.watched (fd l p) p (again_watch o) (inr (ap timeout_call one)))
    | inr other ↦
        place-Waker l.watched (fd l p) g p _
          (λ same. absurd (cc (other, (==_iff g (fd l p)).1 same))) (a.wakes p s)
  ];
}

pub fire-Awake :
    (g : ℕ) (timed_out alive : Bool) (l : Loop) (w : Watch) (c : Callback)
    → find g l.watched ≡ some w
    → w.callback ≡ c
    → Awake l
    → Awake (fire g timed_out alive c l)
unfolding fire add_watch
fire-Awake g timed_out alive l w (trampoline_client o) e c a =
    resume_wsgi_handler-Awake o timed_out (del_watch g l)
      (del_watch-Awake g l (idle-Free g l w e (λ p. never_client o p w.callback c) a) a)
fire-Awake g timed_out alive l w (trampoline_greenlet h) e c a =
    let b = del_watch-Awake g l (idle-Free g l w e (λ p. never_greenlet h p w.callback c) a) a in
    record { counted = b.counted; wakes = b.wakes }
fire-Awake g timed_out alive l w (timeout_error o) e c a =
    if-Q Awake timed_out _ _ (λ t. wake_with_error-Awake g o l w e (inl c) a) (λ t. a)
fire-Awake g timed_out alive l w (timeout_call o) e c a =
    let b = again-Awake g o l w e (inr c) a in
    if-Q Awake timed_out _ _
      (λ t.
        if-Q Awake alive _ _ (λ u. b)
          (λ u.
            wake_with_error-Awake g o (again g o l) (again_watch o)
              (find-place g g (again_watch o) l.watched ∙ if_true (g == g) _ _ (ground arith))
              (inr refl) b))
      (λ t. a)
