-- ===== src/Settings.antt =====
-- meinheld/server/server.c: the settings of the server and the functions of the module that set and
-- get them. An argument is a C `int`.
pub mod Last
use meinheld.Base.{
  ℕ, zero, suc, ◌+◌, ◌-◌, ◌*◌, ◌/◌, ◌%◌, ◌^◌, ◌≤◌, ◌<◌, min, max, ◌≡◌, refl, sym, ap, ◌∙◌, ◌≢◌, ◌↔◌,
  ◌⊎◌, inl, inr, Bool, true, false, not, ◌&&◌, ◌||◌, Option, none, some, List, [], ◌∷◌, ◌++◌,
  append-nil, append_assoc, arith, ltb, leb, ◌==◌, if◌then◌else◌, ==_iff, Bool-cases, Option-cases,
  length, get_elem?, get_or, set, take, drop, replicate, All, length-append, length-set,
  length-take, length-drop, take_all, drop_all, take-append, take-append-drop, take-take, drop-drop,
  get_or-set, set-perm, move-perm, set-get_or, set-set, All-append, All-by_index, All-perm,
  length-perm, get_or-append, get_or-take, concat-perm, take-append-last, codes, bytes_eq,
  bytes_eq_iff, take_until, to_upper, drop-append-long, drop-append-short,
}
use meinheld.Base.Int.{ℤ, pos, negsuc}

-- The globals, with what they are at first in `defaults`
pub record Settings : Type 0 where
  pub is_keep_alive : ℕ
  pub keep_alive_timeout : ℕ
  pub max_content_length : ℕ
  pub client_body_buffer_size : ℕ
  pub backlog : ℕ
  pub max_fd : ℕ

unfoldable pub defaults : Settings
defaults = record {
  is_keep_alive = 0;
  keep_alive_timeout = 5;
  max_content_length = 1024 * 1024 * 16;
  client_body_buffer_size = 1024 * 500;
  backlog = 1024 * 4;
  max_fd = 1024 * 4;
}

-- `None`, or the ValueError of a value out of range
pub data SetResult : Type 0 where
  accepted out_of_range : SetResult

-- `meinheld_set_keepalive`
unfoldable pub set_keepalive : ℤ → Settings → SetResult × Settings
set_keepalive (negsuc n) g = (out_of_range, g)
set_keepalive (pos on) g =
    (accepted, record g { is_keep_alive = on; keep_alive_timeout = if on == 0 then 2 else on })

-- `meinheld_get_keepalive`
abbrev pub get_keepalive : Settings → ℕ
get_keepalive g = g.is_keep_alive

-- The values above 0
unfoldable pub positive : ℤ → Option ℕ
positive (negsuc n) = none
positive (pos zero) = none
positive (pos (suc n)) = some (suc n)

-- A store that is made if the value is in range
unfoldable pub set_positive : (ℕ → Settings) → Settings → Option ℕ → SetResult × Settings
set_positive store g none = (out_of_range, g)
set_positive store g (some n) = (accepted, store n)

-- `meinheld_set_backlog`
unfoldable pub set_backlog : ℤ → Settings → SetResult × Settings
unfolding positive set_positive
set_backlog temp g = set_positive (λ n. record g { backlog = n }) g (positive temp)

-- `meinheld_get_backlog`
abbrev pub get_backlog : Settings → ℕ
get_backlog g = g.backlog

-- `meinheld_set_picoev_max_fd`
unfoldable pub set_picoev_max_fd : ℤ → Settings → SetResult × Settings
unfolding positive set_positive
set_picoev_max_fd temp g = set_positive (λ n. record g { max_fd = n }) g (positive temp)

-- `meinheld_get_picoev_max_fd`
abbrev pub get_picoev_max_fd : Settings → ℕ
get_picoev_max_fd g = g.max_fd

-- `meinheld_set_max_content_length`
unfoldable pub set_max_content_length : ℤ → Settings → SetResult × Settings
unfolding positive set_positive
set_max_content_length temp g =
    set_positive (λ n. record g { max_content_length = n }) g (positive temp)

-- `meinheld_get_max_content_length`; no value above an `int` can be set.
abbrev pub get_max_content_length : Settings → ℕ
get_max_content_length g = g.max_content_length

-- `meinheld_set_client_body_buffer_size`
unfoldable pub set_client_body_buffer_size : ℤ → Settings → SetResult × Settings
unfolding positive set_positive
set_client_body_buffer_size temp g =
    set_positive (λ n. record g { client_body_buffer_size = n }) g (positive temp)

-- `meinheld_get_client_body_buffer_size`
abbrev pub get_client_body_buffer_size : Settings → ℕ
get_client_body_buffer_size g = g.client_body_buffer_size

-- A call of one of the functions that set
pub data Call : Type 0 where
  call_keepalive call_backlog call_max_fd call_max_content_length call_body_buffer_size : ℤ → Call

-- The entries of the module's table that set
unfoldable pub call : Call → Settings → SetResult × Settings
unfolding set_keepalive set_backlog set_picoev_max_fd set_max_content_length
    set_client_body_buffer_size
call (call_keepalive v) g = set_keepalive v g
call (call_backlog v) g = set_backlog v g
call (call_max_fd v) g = set_picoev_max_fd v g
call (call_max_content_length v) g = set_max_content_length v g
call (call_body_buffer_size v) g = set_client_body_buffer_size v g

-- The calls of a program, in order; a ValueError is caught.
unfoldable pub call_all : List Call → Settings → Settings
unfolding call
call_all [] g = g
call_all (c ∷ calls) g = call_all calls (call c g).1
