-- ===== src/Listen/Stop.antt =====
-- What stopping the server does to its count.
use meinheld.Base.{ℕ, zero, suc, ◌≡◌, refl, ap, ◌∙◌, Bool, true, false, some, List, [], ◌∷◌}
use meinheld.Base.Int.{ℤ, dec}
use meinheld.Response.Stream.{if_true}
use meinheld.Listen.{
  Sock, fileno, not_int, Server, kill_loop, kill_listed, kill_unless, kill_server,
}

-- The number of sockets in a list
abbrev pub filenos : List Sock → ℕ
filenos [] = 0
filenos (fileno fd ∷ socks) = suc (filenos socks)
filenos (not_int ∷ socks) = filenos socks

abbrev pub less : ℕ → ℤ → ℤ
less zero n = n
less (suc k) n = less k (dec n)

pub kill_loop-less :
    (timeout : ℤ) (set_callback : Bool) (socks : List Sock) (s : Server)
    → (kill_loop timeout set_callback socks s).activecnt ≡ less (filenos socks) s.activecnt
unfolding kill_loop
kill_loop-less timeout set_callback [] s = refl
kill_loop-less timeout set_callback (not_int ∷ socks) s =
    kill_loop-less timeout set_callback socks s
kill_loop-less timeout true (fileno fd ∷ socks) s = kill_loop-less timeout true socks _
kill_loop-less timeout false (fileno fd ∷ socks) s = kill_loop-less timeout true socks _

-- Where no error is set, each call of `kill_server` takes the number of the listening sockets off the count, so a second
-- call takes it off again, for sockets that are not counted any more.
pub kill_server-less :
    (timeout : ℤ) (socks : List Sock) (s : Server)
    → s.has_loop ≡ true
    → s.error_set ≡ false
    → s.listen_socks ≡ some socks
    → (kill_server timeout s).activecnt ≡ less (filenos socks) s.activecnt
unfolding kill_server kill_unless kill_listed
kill_server-less timeout socks s has calm e =
    ap (λ (t : Server). t.activecnt) (if_true s.has_loop _ _ has)
    ∙ ap (λ b. (kill_unless b timeout s).activecnt) calm
    ∙ ap (λ o. (kill_listed timeout o s).activecnt) e
    ∙ kill_loop-less timeout false socks s
