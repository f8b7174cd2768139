-- ===== src/Listen/Sockets.antt =====
-- meinheld/server/server.c: the sockets that `listen` makes. What the kernel answers is a parameter.
use meinheld.Base.{
  ℕ, ◌+◌, ◌-◌, ◌%◌, ◌^◌, Bool, true, false, ◌&&◌, Option, none, some, List, [], ◌∷◌, leb, ◌==◌,
  if◌then◌else◌, length,
}
use meinheld.Base.Int.{ℤ, pos, negsuc}
use meinheld.Listen.{
  fileno, SockArg, Server, SetResult, was_set, already_set, must_be_list_or_int, set_listen_socket,
}

-- The globals that the calls set, the sockets of the server that are open (the last first), the
-- lists of addresses that were not freed, the mask of the process, and the paths that were unlinked.
pub record Process : Type 0 where
  pub server : Server
  pub server_port : ℕ
  pub unix_sock_name : Option (List ℕ)
  pub opened : List ℕ
  pub addrinfos : ℕ
  pub umask : ℕ
  pub unlinked : List (List ℕ)

-- What `socket`, `setsockopt` and `bind` answer for an address
pub record Address : Type 0 where
  pub socket : Option ℕ
  pub reuse : Bool
  pub bind : Bool

-- What `getaddrinfo` answers: -1, another error, or at least one address
pub data Lookup : Type 0 where
  minus_one other_error : Lookup
  found : Address → List Address → Lookup

-- The kernel. `exists` is `access`, with `unlink` for a path that exists.
pub record Kernel : Type 0 where
  pub getaddrinfo : ℕ → Lookup
  pub exists : List ℕ → Bool
  pub unlink : Bool
  pub unix_socket : Address
  pub listen : Bool

pub data ListenError : Type 0 where
  io_error failed_to_bind path_too_long already_listening not_a_list_or_int : ListenError
  not_tuple_or_string bad_arguments : ListenError

-- `undefined`: the code reads a pointer that was not set, or tests the type of NULL.
pub data Listened : Type 0 where
  listening : Listened
  failed : ListenError → Listened
  undefined : Listened

unfoldable pub open_sock : ℕ → Process → Process
open_sock fd p = record p { opened = fd ∷ p.opened }

abbrev pub without : ℕ → List ℕ → List ℕ
without fd [] = []
without fd (g ∷ fds) = if g == fd then fds else g ∷ without fd fds

-- `close`, on the C `int` that the caller holds
unfoldable pub close_sock : ℤ → Process → Process
close_sock (negsuc n) p = p
close_sock (pos fd) p = record p { opened = without fd p.opened }

abbrev pub set_socks : ℕ → Process → Process
set_socks fd p = record p { server = record p.server { listen_socks = some (fileno fd ∷ []) } }

pub data Bound : Type 0 where
  bound : ℕ → Bound
  unbound : ListenError → Bound

unfoldable pub bind_opened : Address → ℕ → Process → Bound × Process
unfolding close_sock
bind_opened a fd p =
    if a.reuse && a.bind then (bound fd, p) else (unbound io_error, close_sock (pos fd) p)

-- The loop over the addresses, with `listen_sock`
unfoldable pub bind_first : ℤ → List Address → Process → Bound × Process
unfolding bind_opened open_sock close_sock
bind_first listen_sock [] p = (unbound failed_to_bind, close_sock listen_sock p)
bind_first listen_sock (a ∷ rest) p =
    let next = bind_first (negsuc 0) rest p in
    elim a.socket [ none ↦ next | some fd ↦ bind_opened a fd (open_sock fd p) ]

-- From `freeaddrinfo` on
unfoldable pub finish_inet : Bool → Bound × Process → Listened × Process
unfolding close_sock
finish_inet listens (unbound e, p) = (failed e, p)
finish_inet listens (bound fd, p) =
    let freed = record p { addrinfos = p.addrinfos - 1 } in
    if listens
    then (listening, set_socks fd freed)
    else (failed io_error, close_sock (pos fd) freed)

unfoldable pub looked_up : Bool → Lookup → Process → Listened × Process
unfolding bind_first finish_inet
looked_up listens minus_one p = (failed io_error, p)
looked_up listens other_error p = (undefined, p)
looked_up listens (found a rest) p =
    finish_inet listens (bind_first (pos 0) (a ∷ rest) (record p { addrinfos = p.addrinfos + 1 }))

-- `inet_listen`
unfoldable pub inet_listen : Kernel → Process → Listened × Process
unfolding looked_up
inet_listen k p = looked_up k.listen (k.getaddrinfo p.server_port) p

-- `check_unix_sockpath`; `false` is -1.
unfoldable pub check_unix_sockpath : Kernel → List ℕ → Process → Bool × Process
check_unix_sockpath k path p =
    if k.exists path
    then (if k.unlink then (true, record p { unlinked = path ∷ p.unlinked }) else (false, p))
    else (true, p)

-- `unix_listen` from `socket` on, with the mask of the process set to 0 for `bind`
unfoldable pub unix_bound : Kernel → List ℕ → ℕ → Process → Listened × Process
unfolding close_sock
unix_bound k path fd p =
    if k.unix_socket.reuse
    then (if k.unix_socket.bind
        then (if k.listen
            then (listening, set_socks fd (record p { unix_sock_name = some path }))
            else (failed io_error, close_sock (pos fd) p))
        else (failed io_error, close_sock (pos fd) (record p { umask = 0 })))
    else (failed io_error, close_sock (pos fd) p)

unfoldable pub unix_socket_made : Kernel → List ℕ → Bool × Process → Listened × Process
unfolding unix_bound open_sock
unix_socket_made k path (false, p) = (failed io_error, p)
unix_socket_made k path (true, p) = elim k.unix_socket.socket [
  | none ↦ (failed io_error, p)
  | some fd ↦ unix_bound k path fd (open_sock fd p)
]

-- `unix_listen`. `sun_path` has 108 bytes.
unfoldable pub unix_listen : Kernel → List ℕ → Process → Listened × Process
unfolding check_unix_sockpath unix_socket_made
unix_listen k path p =
    if leb 108 (length path)
    then (failed path_too_long, p)
    else unix_socket_made k path (check_unix_sockpath k path p)

-- The `address` of `listen`: nothing, a tuple with a port that is a C `int`, a tuple of another
-- shape, a string of bytes, or another object
pub data AddressArg : Type 0 where
  no_address : AddressArg
  inet_address : ℤ → AddressArg
  bad_tuple : AddressArg
  unix_address : List ℕ → AddressArg
  other_object : AddressArg

-- The `int` is stored over the 16 bits of `server_port` and what follows them.
unfoldable pub port : ℤ → ℕ
port (pos n) = n % 2 ^ 16
port (negsuc n) = 2 ^ 16 - 1 - n % 2 ^ 16

unfoldable pub listen_given : SetResult × Server → Process → Listened × Process
listen_given (was_set, s) p = (listening, record p { server = s })
listen_given (already_set, s) p = (failed already_listening, record p { server = s })
listen_given (must_be_list_or_int, s) p = (failed not_a_list_or_int, record p { server = s })

unfoldable pub listen_unset : Kernel → AddressArg → Option SockArg → Process → Listened × Process
unfolding set_listen_socket listen_given inet_listen unix_listen port
listen_unset k no_address (some sock_fd) p = listen_given (set_listen_socket sock_fd p.server) p
listen_unset k no_address none p = (undefined, p)
listen_unset k (inet_address n) _ p = inet_listen k (record p { server_port = port n })
listen_unset k bad_tuple _ p = (failed bad_arguments, p)
listen_unset k (unix_address path) _ p = unix_listen k path p
listen_unset k other_object _ p = (failed not_tuple_or_string, p)

-- `meinheld_listen`
unfoldable pub meinheld_listen : Kernel → AddressArg → Option SockArg → Process → Listened × Process
unfolding listen_unset
meinheld_listen k o sock_fd p = elim p.server.listen_socks [
  | none ↦ listen_unset k o sock_fd p
  | some socks ↦ (failed already_listening, p)
]
