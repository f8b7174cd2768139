-- ===== src/Listen/Owned.antt =====
-- Who owns the sockets that `listen` opens.
use meinheld.Base.{
  ℕ, ◌+◌, ◌≡◌, refl, ap, ◌∙◌, ◌⊎◌, inl, inr, Bool, ◌&&◌, Option, none, some, List, [], ◌∷◌, arith,
  leb, if-Q, length,
}
use meinheld.Base.Int.{pos, negsuc}
use meinheld.Listen.{
  Sock, fileno, SockArg, set_listen_socket, set_unless, one_fd, sock_list, neither,
}
use meinheld.Listen.Sockets.{
  ListenError, io_error, path_too_long, already_listening, not_a_list_or_int, not_tuple_or_string,
  bad_arguments, Process, Address, Lookup, minus_one, other_error, found, Kernel, Listened,
  listening, failed, undefined, open_sock, close_sock, without, Bound, bound, unbound, bind_opened,
  bind_first, finish_inet, inet_listen, looked_up, check_unix_sockpath, unix_bound,
  unix_socket_made, unix_listen, AddressArg, no_address, inet_address, bad_tuple, unix_address,
  other_object, port, listen_given, listen_unset, meinheld_listen,
}

-- When the code reads what was not set: `getaddrinfo` fails with another error than -1, or `listen` is
-- called without arguments.
abbrev pub Unset : Kernel → AddressArg → Option SockArg → Type 0
Unset k o sock_fd =
    ((n : ℕ) × (k.getaddrinfo n ≡ other_error)) ⊎ ((o ≡ no_address) × (sock_fd ≡ none))

-- The sockets of the argument
abbrev pub given_socks : SockArg → List Sock
given_socks (one_fd fd) = fileno fd ∷ []
given_socks (sock_list socks) = socks
given_socks neither = []

-- How a call may leave the globals: one that fails leaves no socket open and sets none, one that
-- succeeds has set the one socket it opened, or just the sockets it was given and opened none. What
-- reads something that was not set is neither.
pub data Owned (unset : Type 0) (given : Option SockArg) (p : Process)
    : Listened × Process → Type 0 where
  none_made :
      {q : Process} (e : ListenError)
      → q.opened ≡ p.opened
      → q.server.listen_socks ≡ p.server.listen_socks
      → Owned unset given p (failed e, q)
  not_set : {q : Process} → unset → Owned unset given p (undefined, q)
  one_made :
      {q : Process} (fd : ℕ)
      → q.opened ≡ fd ∷ p.opened
      → q.server.listen_socks ≡ some (fileno fd ∷ [])
      → Owned unset given p (listening, q)
  were_given :
      {q : Process} (a : SockArg)
      → given ≡ some a
      → q.opened ≡ p.opened
      → q.server.listen_socks ≡ some (given_socks a)
      → Owned unset given p (listening, q)

close_sock-open_sock :
    (fd : ℕ) (p : Process) → (close_sock (pos fd) (open_sock fd p)).opened ≡ p.opened
unfolding close_sock open_sock
close_sock-open_sock fd p = ground arith

data BoundOwned (p : Process) : Bound × Process → Type 0 where
  one_bound :
      {q : Process} (fd : ℕ)
      → q.opened ≡ fd ∷ p.opened
      → q.server ≡ p.server
      → BoundOwned p (bound fd, q)
  none_bound :
      {e : ListenError} {q : Process}
      → q.opened ≡ p.opened
      → q.server ≡ p.server
      → BoundOwned p (unbound e, q)

bind_opened-BoundOwned :
    (a : Address) (fd : ℕ) (p : Process) → BoundOwned p (bind_opened a fd (open_sock fd p))
unfolding bind_opened open_sock close_sock
bind_opened-BoundOwned a fd p =
    if-Q (BoundOwned p) (a.reuse && a.bind) _ _ (λ e. one_bound fd refl refl)
      (λ e. none_bound (close_sock-open_sock fd p) refl)

bind_step-BoundOwned :
    (a : Address) (o : Option ℕ) (p : Process) (next : Bound × Process)
    → BoundOwned p next
    → BoundOwned p (elim o [ none ↦ next | some fd ↦ bind_opened a fd (open_sock fd p) ])
bind_step-BoundOwned a none p next n = n
bind_step-BoundOwned a (some fd) p next n = bind_opened-BoundOwned a fd p

bind_rest-BoundOwned :
    (rest : List Address) (p : Process) → BoundOwned p (bind_first (negsuc 0) rest p)
unfolding bind_first close_sock
bind_rest-BoundOwned [] p = none_bound refl refl
bind_rest-BoundOwned (a ∷ rest) p =
    bind_step-BoundOwned a a.socket p _ (bind_rest-BoundOwned rest p)

-- `servinfo` has an address at least, so that 0 is not closed.
bind_first-BoundOwned :
    (a : Address) (rest : List Address) (p : Process)
    → BoundOwned p (bind_first (pos 0) (a ∷ rest) p)
unfolding bind_first
bind_first-BoundOwned a rest p = bind_step-BoundOwned a a.socket p _ (bind_rest-BoundOwned rest p)

-- A change of the other globals before the call does not count.
Owned-before :
    {unset : Type 0} {given : Option SockArg} (p q : Process) (x : Listened × Process)
    → q.opened ≡ p.opened
    → q.server.listen_socks ≡ p.server.listen_socks
    → Owned unset given q x
    → Owned unset given p x
Owned-before p q x o s (none_made e opened socks) = none_made e (opened ∙ o) (socks ∙ s)
Owned-before p q x o s (not_set u) = not_set u
Owned-before p q x o s (one_made fd opened socks) = one_made fd (opened ∙ ap (λ l. fd ∷ l) o) socks
Owned-before p q x o s (were_given a is opened listed) = were_given a is (opened ∙ o) listed

finish_inet-Owned :
    {unset : Type 0} {given : Option SockArg} (listens : Bool) (p : Process) (b : Bound × Process)
    → BoundOwned p b
    → Owned unset given p (finish_inet listens b)
unfolding finish_inet close_sock open_sock
finish_inet-Owned listens p b (one_bound {q} fd opened server) =
    if-Q (Owned _ _ p) listens _ _ (λ e. one_made fd opened refl)
      (λ e.
        none_made io_error (ap (without fd) opened ∙ close_sock-open_sock fd p)
          (ap (λ s. s.listen_socks) server))
finish_inet-Owned listens p b (none_bound {e} opened server) =
    none_made e opened (ap (λ s. s.listen_socks) server)

looked_up-Owned :
    {unset : Type 0} {given : Option SockArg} (listens : Bool) (l : Lookup) (p : Process)
    → (l ≡ other_error → unset)
    → Owned unset given p (looked_up listens l p)
unfolding looked_up
looked_up-Owned listens minus_one p u = none_made io_error refl refl
looked_up-Owned listens other_error p u = not_set (u refl)
looked_up-Owned listens (found a rest) p u =
    Owned-before p (record p { addrinfos = p.addrinfos + 1 }) _ refl refl
      (finish_inet-Owned listens _ _ (bind_first-BoundOwned a rest _))

unix_bound-Owned :
    {unset : Type 0} {given : Option SockArg} (k : Kernel) (path : List ℕ) (fd : ℕ) (p : Process)
    → Owned unset given p (unix_bound k path fd (open_sock fd p))
unfolding unix_bound open_sock close_sock
unix_bound-Owned k path fd p =
    let closed = close_sock-open_sock fd p in
    if-Q (Owned _ _ p) k.unix_socket.reuse _ _
      (λ e.
        if-Q (Owned _ _ p) k.unix_socket.bind _ _
          (λ e.
            if-Q (Owned _ _ p) k.listen _ _ (λ e. one_made fd refl refl)
              (λ e. none_made io_error closed refl))
          (λ e. none_made io_error closed refl))
      (λ e. none_made io_error closed refl)

made-Owned :
    {unset : Type 0} {given : Option SockArg} (k : Kernel) (path : List ℕ) (o : Option ℕ)
    (p : Process)
    → Owned unset given p
        (elim o [ none ↦ (failed io_error, p) | some fd ↦ unix_bound k path fd (open_sock fd p) ])
made-Owned k path none p = none_made io_error refl refl
made-Owned k path (some fd) p = unix_bound-Owned k path fd p

unix_listen-Owned :
    {unset : Type 0} {given : Option SockArg} (k : Kernel) (path : List ℕ) (p : Process)
    → Owned unset given p (unix_listen k path p)
unfolding unix_listen unix_socket_made check_unix_sockpath
unix_listen-Owned {unset} {given} k path p =
    if-Q (Owned unset given p) (leb 108 (length path)) _ _ (λ e. none_made path_too_long refl refl)
      (λ e.
        if-Q (λ c. Owned unset given p (unix_socket_made k path c)) (k.exists path) _ _
          (λ e.
            if-Q (λ c. Owned unset given p (unix_socket_made k path c)) k.unlink _ _
              (λ e.
                Owned-before p (record p { unlinked = path ∷ p.unlinked }) _ refl refl
                  (made-Owned k path k.unix_socket.socket _))
              (λ e. none_made io_error refl refl))
          (λ e. made-Owned k path k.unix_socket.socket p))

set_listen_socket-Owned :
    {unset : Type 0} (a : SockArg) (p : Process)
    → p.server.listen_socks ≡ none
    → Owned unset (some a) p (listen_given (set_listen_socket a p.server) p)
unfolding set_listen_socket set_unless listen_given
set_listen_socket-Owned {unset} a p e = by_socks a p.server.listen_socks e
  where
    by_socks :
        (a : SockArg) (o : Option (List Sock))
        → o ≡ none
        → Owned unset (some a) p (listen_given (set_unless o a p.server) p)
    by_socks a (some socks) e = absurd cc
    by_socks (one_fd fd) none e = were_given (one_fd fd) refl refl refl
    by_socks (sock_list socks) none e = were_given (sock_list socks) refl refl refl
    by_socks neither none e = none_made not_a_list_or_int refl refl

listen_unset-Owned :
    (k : Kernel) (o : AddressArg) (sock_fd : Option SockArg) (p : Process)
    → p.server.listen_socks ≡ none
    → Owned (Unset k o sock_fd) sock_fd p (listen_unset k o sock_fd p)
unfolding listen_unset inet_listen
listen_unset-Owned k no_address (some sock_fd) p e = set_listen_socket-Owned sock_fd p e
listen_unset-Owned k no_address none p e = not_set (inr (refl, refl))
listen_unset-Owned k (inet_address n) _ p e =
    Owned-before p (record p { server_port = port n }) _ refl refl
      (looked_up-Owned k.listen (k.getaddrinfo (port n)) _ (λ e. inl (port n, e)))
listen_unset-Owned k bad_tuple _ p e = none_made bad_arguments refl refl
listen_unset-Owned k (unix_address path) _ p e = unix_listen-Owned k path p
listen_unset-Owned k other_object _ p e = none_made not_tuple_or_string refl refl

-- Whatever its arguments and the kernel's answers, `listen` that fails leaves open the sockets that
-- were open and `listen_socks` as it was, and `listen` that succeeds has put the one socket that it
-- opened in `listen_socks`, or just the sockets that it was given and opened none. It does neither only
-- where it reads what was not set: `getaddrinfo` has failed with another error than -1, or there are no
-- arguments.
pub meinheld_listen-Owned :
    (k : Kernel) (o : AddressArg) (sock_fd : Option SockArg) (p : Process)
    → Owned (Unset k o sock_fd) sock_fd p (meinheld_listen k o sock_fd p)
unfolding meinheld_listen
meinheld_listen-Owned k o sock_fd p = listened p.server.listen_socks refl
  where
    listened :
        (socks : Option (List Sock))
        → p.server.listen_socks ≡ socks
        → Owned (Unset k o sock_fd) sock_fd p (elim socks [
          | none ↦ listen_unset k o sock_fd p
          | some socks ↦ (failed already_listening, p)
        ])
    listened none e = listen_unset-Owned k o sock_fd p e
    listened (some socks) e = none_made already_listening refl refl
