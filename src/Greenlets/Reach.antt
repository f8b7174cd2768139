-- ===== src/Greenlets/Reach.antt =====
-- Whatever a program does with its greenlets, a client that it has suspended can be woken.
use meinheld.Base.{ℕ, ◌≡◌, refl, sym, Bool, true, false, Option, none, some, []}
use mathlib.Core.Path.{subst}
use meinheld.Base.Int.{ℤ, pos, negsuc}
use meinheld.FreeList.Pools.{ClientObject}
use meinheld.Greenlets.{
  Watch, Loop, Object, client_object, other_object, Outcome, Events, Callback, find, suspend_client,
  resume_client, cancel_wait, trampoline, trampoline_at, trampoline_events, fire, if_greenlet,
  suspend, resume,
}
use meinheld.Greenlets.Watches.{Counted}
use meinheld.Greenlets.Awake.{
  Awake, Free, Waker, fd, suspend-Awake, resume-Awake, add_watch-Awake, del_watch-Awake, fire-Awake,
}

-- No suspended client waits at the descriptor of an argument.
abbrev pub FreeOf : Object → Loop → Type 0
FreeOf (client_object o) l = Free l (fd l o)
FreeOf other_object l = Unit

abbrev pub FreeAt : ℤ → Loop → Type 0
FreeAt (pos g) l = Free l g
FreeAt (negsuc n) l = Unit

-- What a program may do, and the loop's calls for the descriptors that it watches. A descriptor at
-- which a suspended client waits is not used for another wait, and not cancelled.
pub data Step (l : Loop) (m : Loop) : Type 0 where
  suspends :
      (temp : Object) (timeout : ℤ)
      → FreeOf temp l
      → m ≡ (suspend_client temp timeout l).1
      → Step l m
  resumes : (temp : Object) (args kwargs : ℕ) → m ≡ (resume_client temp args kwargs l).1 → Step l m
  cancels : (g : ℤ) → FreeAt g l → m ≡ (cancel_wait g l).1 → Step l m
  waits :
      (g timeout : ℤ) (read write : Bool) (callback : Callback)
      → FreeAt g l
      → m ≡ (trampoline g read write timeout callback l).1
      → Step l m
  fires :
      (g : ℕ) (timed_out alive : Bool) (w : Watch)
      → find g l.watched ≡ some w
      → m ≡ fire g timed_out alive w.callback l
      → Step l m

pub data Reach (l : Loop) : Loop → Type 0 where
  here : Reach l l
  next : {m n : Loop} → Reach l m → Step m n → Reach l n

if_greenlet-Awake :
    (g : Option ℕ) (l : Loop) (r : Outcome × Loop)
    → Awake l
    → Awake r.1
    → Awake (if_greenlet g l r).1
if_greenlet-Awake none l r a b = a
if_greenlet-Awake (some g) l r a b = b

suspend_client-Awake :
    (temp : Object) (timeout : ℤ) (l : Loop)
    → FreeOf temp l
    → Awake l
    → Awake (suspend_client temp timeout l).1
unfolding suspend_client
suspend_client-Awake temp (negsuc n) l free a = a
suspend_client-Awake other_object (pos timeout) l free a = a
suspend_client-Awake (client_object o) (pos timeout) l free a =
    if_greenlet-Awake (l.objects o).greenlet l (suspend o timeout l) a
      (suspend-Awake o timeout l free a)

resume_client-Awake :
    (temp : Object) (args kwargs : ℕ) (l : Loop)
    → Awake l
    → Awake (resume_client temp args kwargs l).1
unfolding resume_client
resume_client-Awake other_object args kwargs l a = a
resume_client-Awake (client_object o) args kwargs l a =
    if_greenlet-Awake (l.objects o).greenlet l (resume o args kwargs l) a
      (resume-Awake o args kwargs l a)

cancel_wait-Awake : (g : ℤ) (l : Loop) → FreeAt g l → Awake l → Awake (cancel_wait g l).1
unfolding cancel_wait
cancel_wait-Awake (negsuc n) l free a = a
cancel_wait-Awake (pos g) l free a = del_watch-Awake g l free a

trampoline_at-Awake :
    (g timeout : ℕ) (callback : Callback) (events : Option Events) (l : Loop)
    → Free l g
    → Awake l
    → Awake (trampoline_at g timeout callback events l).1
unfolding trampoline_at
trampoline_at-Awake g timeout callback none l free a = a
trampoline_at-Awake g timeout callback (some events) l free a =
    add_watch-Awake g (record { events = events; timeout = timeout; callback = callback }) l free a

trampoline-Awake :
    (g timeout : ℤ) (read write : Bool) (callback : Callback) (l : Loop)
    → FreeAt g l
    → Awake l
    → Awake (trampoline g read write timeout callback l).1
unfolding trampoline
trampoline-Awake (negsuc n) timeout read write callback l free a = a
trampoline-Awake (pos g) (negsuc n) read write callback l free a = a
trampoline-Awake (pos g) (pos timeout) read write callback l free a =
    trampoline_at-Awake g timeout callback (trampoline_events read write timeout) l free a

Step-Awake : {l m : Loop} → Step l m → Awake l → Awake m
Step-Awake (suspends temp timeout free e) a =
    subst Awake (sym e) (suspend_client-Awake temp timeout _ free a)
Step-Awake (resumes temp args kwargs e) a =
    subst Awake (sym e) (resume_client-Awake temp args kwargs _ a)
Step-Awake (cancels g free e) a = subst Awake (sym e) (cancel_wait-Awake g _ free a)
Step-Awake (waits g timeout read write callback free e) a =
    subst Awake (sym e) (trampoline-Awake g timeout read write callback _ free a)
Step-Awake (fires g timed_out alive w f e) a =
    subst Awake (sym e) (fire-Awake g timed_out alive _ w w.callback f refl a)

Reach-Awake : {l m : Loop} → Reach l m → Awake l → Awake m
Reach-Awake here a = a
Reach-Awake (next r s) a = Step-Awake s (Reach-Awake r a)

-- A loop before anything waits
abbrev pub start : (ℕ → ClientObject) → (ℕ → ℕ) → Loop
start objects fd_of = record {
  watched = [];
  activecnt = pos 0;
  objects = objects;
  fd_of = fd_of;
  resumed = [];
}

-- Whatever greenlets have been suspended, resumed, made to wait or woken since nothing waited, every
-- client that is still suspended has its descriptor watched with a callback that resumes it, and the
-- loop's count is the number of the watched descriptors. Descriptors at which suspended clients wait
-- must not be used for other waits, nor cancelled, and no client is suspended at first.
pub Reach-awake :
    (objects : ℕ → ClientObject) (fd_of : ℕ → ℕ) (l : Loop)
    → ((o : ℕ) → (objects o).suspended ≡ false)
    → Reach (start objects fd_of) l
    → Counted l × ((o : ℕ) → (l.objects o).suspended ≡ true → Waker l.watched (fd l o) o)
Reach-awake objects fd_of l none_suspended r =
    let a =
      Reach-Awake r (record { counted = refl; wakes = λ o s. absurd (cc (s, none_suspended o)) }) in
    (a.counted, a.wakes)
