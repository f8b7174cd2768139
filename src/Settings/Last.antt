-- ===== src/Settings/Last.antt =====
-- A setting is the last value that was accepted for it.
use meinheld.Base.{
  ℕ, zero, suc, ◌≡◌, refl, ap, ◌∙◌, Bool, true, false, List, [], ◌∷◌, if◌then◌else◌,
}
use meinheld.Base.Int.{ℤ, pos, negsuc}
use meinheld.Settings.{
  Settings, Call, call_keepalive, call_backlog, call_max_fd, call_max_content_length,
  call_body_buffer_size, call, call_all, set_keepalive, positive, set_positive, set_backlog,
  set_picoev_max_fd, set_max_content_length, set_client_body_buffer_size, get_keepalive,
  get_backlog, get_picoev_max_fd, get_max_content_length, get_client_body_buffer_size,
}

-- The settings by name
pub data Name : Type 0 where
  keepalive backlog max_fd max_content_length body_buffer_size : Name

abbrev pub get : Name → Settings → ℕ
get keepalive g = get_keepalive g
get backlog g = get_backlog g
get max_fd g = get_picoev_max_fd g
get max_content_length g = get_max_content_length g
get body_buffer_size g = get_client_body_buffer_size g

-- What a call sets, and to what, if the value is in range: 0 is in that of keepalive alone.
abbrev pub sets : Call → Name × ℤ
sets (call_keepalive v) = (keepalive, v)
sets (call_backlog v) = (backlog, v)
sets (call_max_fd v) = (max_fd, v)
sets (call_max_content_length v) = (max_content_length, v)
sets (call_body_buffer_size v) = (body_buffer_size, v)

abbrev pub same : Name → Name → Bool
same keepalive keepalive = true
same backlog backlog = true
same max_fd max_fd = true
same max_content_length max_content_length = true
same body_buffer_size body_buffer_size = true
same _ _ = false

abbrev pub accept : Name → ℕ → ℤ → ℕ
accept keepalive old (pos n) = n
accept _ old (pos (suc n)) = suc n
accept _ old _ = old

abbrev pub last_accepted : Name → List Call → ℕ → ℕ
last_accepted x [] old = old
last_accepted x (c ∷ calls) old =
    last_accepted x calls (if same (sets c).0 x then accept x old (sets c).1 else old)

-- A store that is made or not does not touch another setting.
other_kept :
    (f : Settings → ℕ) (store : ℕ → Settings) (g : Settings) (v : ℤ)
    → ((n : ℕ) → f (store n) ≡ f g)
    → f (set_positive store g (positive v)).1 ≡ f g
unfolding set_positive positive
other_kept f store g (negsuc n) e = refl
other_kept f store g (pos zero) e = refl
other_kept f store g (pos (suc n)) e = e (suc n)

kept_keepalive :
    (f : Settings → ℕ) (g : Settings) (v : ℤ)
    → ((n m : ℕ) → f (record g { is_keep_alive = n; keep_alive_timeout = m }) ≡ f g)
    → f (set_keepalive v g).1 ≡ f g
unfolding set_keepalive
kept_keepalive f g (negsuc n) e = refl
kept_keepalive f g (pos n) e = e n _

own_set :
    (f : Settings → ℕ) (store : ℕ → Settings) (g : Settings) (v : ℤ)
    → ((n : ℕ) → f (store n) ≡ n)
    → f (set_positive store g (positive v)).1 ≡ accept backlog (f g) v
unfolding set_positive positive
own_set f store g (negsuc n) e = refl
own_set f store g (pos zero) e = refl
own_set f store g (pos (suc n)) e = e (suc n)

get-call :
    (x : Name) (c : Call) (g : Settings)
    → get x (call c g).1 ≡ (if same (sets c).0 x then accept x (get x g) (sets c).1 else get x g)
unfolding call set_keepalive set_backlog set_picoev_max_fd set_max_content_length
    set_client_body_buffer_size
get-call keepalive (call_keepalive (pos n)) g = refl
get-call keepalive (call_keepalive (negsuc n)) g = refl
get-call keepalive (call_backlog v) g = other_kept (get keepalive) _ g v (λ n. refl)
get-call keepalive (call_max_fd v) g = other_kept (get keepalive) _ g v (λ n. refl)
get-call keepalive (call_max_content_length v) g = other_kept (get keepalive) _ g v (λ n. refl)
get-call keepalive (call_body_buffer_size v) g = other_kept (get keepalive) _ g v (λ n. refl)
get-call backlog (call_keepalive v) g = kept_keepalive (get backlog) g v (λ n m. refl)
get-call backlog (call_backlog v) g = own_set (get backlog) _ g v (λ n. refl)
get-call backlog (call_max_fd v) g = other_kept (get backlog) _ g v (λ n. refl)
get-call backlog (call_max_content_length v) g = other_kept (get backlog) _ g v (λ n. refl)
get-call backlog (call_body_buffer_size v) g = other_kept (get backlog) _ g v (λ n. refl)
get-call max_fd (call_keepalive v) g = kept_keepalive (get max_fd) g v (λ n m. refl)
get-call max_fd (call_backlog v) g = other_kept (get max_fd) _ g v (λ n. refl)
get-call max_fd (call_max_fd v) g = own_set (get max_fd) _ g v (λ n. refl)
get-call max_fd (call_max_content_length v) g = other_kept (get max_fd) _ g v (λ n. refl)
get-call max_fd (call_body_buffer_size v) g = other_kept (get max_fd) _ g v (λ n. refl)
get-call max_content_length (call_keepalive v) g =
    kept_keepalive (get max_content_length) g v (λ n m. refl)
get-call max_content_length (call_backlog v) g =
    other_kept (get max_content_length) _ g v (λ n. refl)
get-call max_content_length (call_max_fd v) g =
    other_kept (get max_content_length) _ g v (λ n. refl)
get-call max_content_length (call_max_content_length v) g =
    own_set (get max_content_length) _ g v (λ n. refl)
get-call max_content_length (call_body_buffer_size v) g =
    other_kept (get max_content_length) _ g v (λ n. refl)
get-call body_buffer_size (call_keepalive v) g =
    kept_keepalive (get body_buffer_size) g v (λ n m. refl)
get-call body_buffer_size (call_backlog v) g = other_kept (get body_buffer_size) _ g v (λ n. refl)
get-call body_buffer_size (call_max_fd v) g = other_kept (get body_buffer_size) _ g v (λ n. refl)
get-call body_buffer_size (call_max_content_length v) g =
    other_kept (get body_buffer_size) _ g v (λ n. refl)
get-call body_buffer_size (call_body_buffer_size v) g =
    own_set (get body_buffer_size) _ g v (λ n. refl)

-- After any calls, a setting is the last value that was in its range among those it was called with:
-- above 0, or from 0 on for keepalive. Before that it is as at first.
pub get-call_all :
    (x : Name) (calls : List Call) (g : Settings)
    → get x (call_all calls g) ≡ last_accepted x calls (get x g)
unfolding call_all
get-call_all x [] g = refl
get-call_all x (c ∷ calls) g =
    get-call_all x calls (call c g).1 ∙ ap (last_accepted x calls) (get-call x c g)
