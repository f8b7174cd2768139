-- ===== src/Response/FileWrapper.antt =====
-- meinheld/server/response.c: the object type that wraps a file.
use meinheld.Base.{ℕ, ◌≡◌, refl, sym, ◌≢◌, ◌↔◌, Bool, true, false, Option, none, some, List}
use meinheld.Response.{Status, ok}
use mathlib.Core.Path.{subst}
use meinheld.Response.Stream.{if_false}
use meinheld.Response.Client.{Client, Item}
use meinheld.Response.Body.{call_close, close_response}

-- An object that may be a file: its descriptor, what its iterator gives, and whether its method
-- `close` raises, where it has them
pub record FileLike : Type 0 where
  pub descriptor : Option ℕ
  pub items : Option (List Item)
  pub close : Option Bool

-- A response: a wrapper, or another object
pub data ResponseObject : Type 0 where
  wrapper other : FileLike → ResponseObject

-- `file_wrapper` with `FileWrapperObject_new`; `none` is a call whose arguments are refused, and the
-- size of the blocks is not used.
unfoldable pub file_wrapper : Option FileLike → Option ResponseObject
file_wrapper none = none
file_wrapper (some filelike) = some (wrapper filelike)

-- `FileWrapperObject_iter`; `none` is the TypeError.
unfoldable pub file_wrapper_iter : FileLike → Option (List Item)
file_wrapper_iter self = self.items

unfoldable pub has_descriptor : Option ℕ → Bool
has_descriptor none = false
has_descriptor (some fd) = true

-- `CheckFileWrapper`
unfoldable pub check_file_wrapper : ResponseObject → Bool
unfolding has_descriptor
check_file_wrapper (wrapper f) = has_descriptor f.descriptor
check_file_wrapper (other f) = false

-- `FileWrapperObject_close`: whether the file's method is called, and whether an exception is left:
-- that of a file without the method is not cleared, that of the method is.
unfoldable pub close_file : Option Bool → Bool × Bool
close_file none = (false, true)
close_file (some raises) = (true, false)

unfoldable pub file_wrapper_close : FileLike → Bool × Bool
unfolding close_file
file_wrapper_close self = close_file self.close

-- A client whose response is a wrapper of a file: the wrapper has a method `close`, which raises what
-- `file_wrapper_close` leaves.
abbrev pub wrapping : FileLike → Client → Client
wrapping f client = record client { close = some (file_wrapper_close f).1 }

closed-close_file :
    (o : Option Bool) (client : Client)
    → ((call_close (some (close_file o).1) client).0 ≡ ok) ↔ (o ≢ none)
unfolding call_close close_file
closed-close_file none client = ((λ e. absurd (cc e)), (λ h. absurd (h refl)))
closed-close_file (some b) client = ((λ e f. cc f), (λ h. refl))

-- A response that is a wrapper is closed without an error exactly if its file has a method `close`,
-- also when that method raises.
pub close_response-wrapping :
    (f : FileLike) (client : Client)
    → client.response_closed ≡ false
    → ((close_response (wrapping f client)).0 ≡ ok) ↔ (f.close ≢ none)
unfolding close_response file_wrapper_close
close_response-wrapping f client e =
    subst (λ (x : Status × Client). (x.0 ≡ ok) ↔ (f.close ≢ none))
      (sym (if_false client.response_closed _ _ e)) (closed-close_file f.close (wrapping f client))
