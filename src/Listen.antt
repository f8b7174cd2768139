-- ===== src/Listen.antt =====
-- meinheld/server/server.c: the listening sockets, and how the server stops.
pub mod Ends
pub mod Owned
pub mod Released
pub mod Run
pub mod Sockets
pub mod Stop
mod Tests
use meinheld.Base.{
  ℕ, zero, suc, ◌+◌, ◌-◌, ◌*◌, ◌/◌, ◌%◌, ◌^◌, ◌≤◌, ◌<◌, min, max, ◌≡◌, refl, sym, ap, ◌∙◌, ◌≢◌, ◌↔◌,
  ◌⊎◌, inl, inr, Bool, true, false, not, ◌&&◌, ◌||◌, Option, none, some, List, [], ◌∷◌, ◌++◌,
  append-nil, append_assoc, arith, ltb, leb, ◌==◌, if◌then◌else◌, ==_iff, if-Q, Bool-cases,
  Option-cases, length, get_elem?, get_or, set, take, drop, replicate, All, length-append,
  length-set, length-take, length-drop, take_all, drop_all, take-append, take-append-drop,
  take-take, drop-drop, get_or-set, set-perm, move-perm, set-get_or, set-set, All-append,
  All-by_index, All-perm, length-perm, get_or-append, get_or-take, concat-perm, take-append-last,
  codes, bytes_eq, bytes_eq_iff, take_until, to_upper, drop-append-long, drop-append-short,
}
use meinheld.Base.Int.{ℤ, pos, negsuc, inc, dec}

-- An object in the list of sockets, and the argument of `set_listen_socket`
pub data Sock : Type 0 where
  fileno : ℕ → Sock
  not_int : Sock

pub data SockArg : Type 0 where
  one_fd : ℕ → SockArg
  sock_list : List Sock → SockArg
  neither : SockArg

-- The globals, with the timer that ends the loop, by its descriptor and its seconds, and whether
-- Python's error indicator is set
pub record Server : Type 0 where
  pub listen_socks : Option (List Sock)
  pub has_loop : Bool
  pub activecnt : ℤ
  pub kill_timer : Option (ℕ × ℕ)
  pub loop_done : Bool
  pub error_set : Bool

pub data SetResult : Type 0 where
  was_set already_set must_be_list_or_int : SetResult

unfoldable pub set_unless : Option (List Sock) → SockArg → Server → SetResult × Server
set_unless (some socks) temp s = (already_set, s)
set_unless none (one_fd fd) s = (was_set, record s { listen_socks = some (fileno fd ∷ []) })
set_unless none (sock_list socks) s = (was_set, record s { listen_socks = some socks })
set_unless none neither s = (must_be_list_or_int, s)

-- `set_listen_socket`
unfoldable pub set_listen_socket : SockArg → Server → SetResult × Server
unfolding set_unless
set_listen_socket temp s = set_unless s.listen_socks temp s

-- The loop of `kill_server`; the flag is `set_callback`. `picoev_del` and `picoev_add` succeed, and
-- the timer is not counted.
unfoldable pub kill_loop : ℤ → Bool → List Sock → Server → Server
kill_loop timeout set_callback [] s = s
kill_loop timeout set_callback (not_int ∷ socks) s = kill_loop timeout set_callback socks s
kill_loop timeout true (fileno fd ∷ socks) s =
    kill_loop timeout true socks (record s { activecnt = dec s.activecnt })
kill_loop timeout false (fileno fd ∷ socks) s =
    kill_loop timeout true socks
      (record s { activecnt = dec s.activecnt; kill_timer = some (fd, seconds timeout) })
  where
    seconds : ℤ → ℕ
    seconds (negsuc n) = 1
    seconds (pos n) = if n == 0 then 1 else n

unfoldable pub kill_listed : ℤ → Option (List Sock) → Server → Server
unfolding kill_loop
kill_listed timeout none s = s
kill_listed timeout (some socks) s = kill_loop timeout false socks s

-- `kill_server` after `PyObject_GetIter`: an error that is set, also one from before, is logged, which
-- clears it, and nothing else is done. `PyObject_GetIter` sets one where there is no list.
unfoldable pub kill_unless : Bool → ℤ → Server → Server
unfolding kill_listed
kill_unless true timeout s = record s { error_set = false }
kill_unless false timeout s = kill_listed timeout s.listen_socks s

-- `kill_server`, which is `meinheld_stop` with its argument
unfoldable pub kill_server : ℤ → Server → Server
unfolding kill_unless
kill_server timeout s = if s.has_loop then kill_unless s.error_set timeout s else s

-- `kill_callback`
unfoldable pub kill_callback : Bool → Server → Server
kill_callback timed_out s = record s {
  kill_timer = none;
  loop_done = if timed_out then false else s.loop_done;
}
