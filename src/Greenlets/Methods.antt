-- ===== src/Greenlets/Methods.antt =====
-- meinheld/server/client.c: the methods of the client object.
use meinheld.Base.{ℕ, ◌≡◌, refl, not, Option, none, some}
use meinheld.Base.Int.{ℤ}
use meinheld.FreeList.Pools.{ClientObject}
use meinheld.Response.Client.{Client}
use meinheld.Hub.{is_zero}
use meinheld.Greenlets.{Loop}

-- The argument: a greenlet or another object
pub data GreenletArg : Type 0 where
  greenlet_object : ℕ → GreenletArg
  other_object : GreenletArg

pub data SetGreenlet : Type 0 where
  returned_none must_be_greenlet : SetGreenlet

unfoldable pub set_unset : Option ℕ → ℕ → ClientObject → ClientObject
set_unset (some earlier) greenlet o = o
set_unset none greenlet o = record o { greenlet = some greenlet }

-- `ClientObject_set_greenlet`
unfoldable pub set_greenlet : GreenletArg → ClientObject → SetGreenlet × ClientObject
unfolding set_unset
set_greenlet other_object o = (must_be_greenlet, o)
set_greenlet (greenlet_object greenlet) o = (returned_none, set_unset o.greenlet greenlet o)

-- `ClientObject_get_greenlet`; `none` is None.
unfoldable pub get_greenlet : ClientObject → Option ℕ
get_greenlet o = o.greenlet

-- `ClientObject_get_fd`
unfoldable pub get_fd : Loop → ClientObject → ℕ
get_fd l o = l.fd_of o.client

-- `ClientObject_set_closed`
unfoldable pub set_closed : ℤ → Client → Client
set_closed closed client = record client { response_closed = not (is_zero closed) }

-- The first greenlet that is set is the one that the object gives, whatever is set after it.
pub get_greenlet-set_greenlet :
    (greenlet : ℕ) (arg : GreenletArg) (o : ClientObject)
    → o.greenlet ≡ none
    → get_greenlet (set_greenlet arg (set_greenlet (greenlet_object greenlet) o).1).1
      ≡ some greenlet
unfolding get_greenlet set_greenlet set_unset
get_greenlet-set_greenlet greenlet other_object o e = rw e refl
get_greenlet-set_greenlet greenlet (greenlet_object g) o e = rw e refl
