-- ===== src/Session/Serves.antt =====
-- What meinheld/server/server.c relies on, so that no call of its is stuck: an application whose
-- response can be started, and an error page that is sent or fails.
use meinheld.Base.{
  ℕ, suc, min, ◌≡◌, ◌≢◌, refl, Bool, ◌||◌, Option, none, some, List, [], ◌∷◌, length, drop, if-Q,
}
use meinheld.Environ.{Environ}
use meinheld.Response.{Answer, room, again, failed, Status, endless}
use meinheld.Response.Client.{Client}
use meinheld.Response.Header
use meinheld.Response.Body.{response_start}
use meinheld.Response.Start.{is_empty}
use meinheld.Response.ErrorPage.{blocking_write, page_sent, send_error_page}
use meinheld.Session.{World, AppResult, returned_none, raised}
use meinheld.Session
use meinheld.Session.Close.{start_calls}

-- The start of a response returns, and not into a loop that never ends.
abbrev pub Responds : {P : Type 0} → World P → AppResult → Client → Type 0
Responds w (Session.returned body close) c =
    (status : Status) × (d : Client) × (response_start w.strtol w.http_time
        (record c { response = body; close = close })
      ≡ Header.returned status d)
    × (status ≢ endless)
Responds w returned_none c = Unit
Responds w raised c = Unit

-- On every client that has no headers yet, the application's calls of `start_response` return, and
-- so does the start of its response: the strings that it gives are Latin-1, and a file that it gives
-- is not shorter than the length that it declares.
abbrev pub Serves : {P : Type 0} → World P → Type 0
Serves w =
    (env : Environ) (c : Client)
    → c.headers ≡ none
    → (d : Client) × (start_calls w (w.wsgi_app env).calls c ≡ some d)
      × Responds w (w.wsgi_app env).result d

abbrev pub IsSome : Option Client → Type 0
IsSome o = (c : Client) × (o ≡ some c)

blocking_write-IsSome :
    (epipe : Bool) (answers : List Answer) (buf : List ℕ) (client : Client)
    → IsSome (blocking_write epipe answers buf client)
unfolding blocking_write
blocking_write-IsSome epipe [] buf client =
    if-Q IsSome (is_empty buf) _ _ (λ e. (_, refl)) (λ e. (_, refl))
blocking_write-IsSome epipe (again ∷ answers) buf client =
    if-Q IsSome (is_empty buf) _ _ (λ e. (_, refl))
      (λ e. blocking_write-IsSome epipe answers buf client)
blocking_write-IsSome epipe (failed ∷ answers) buf client =
    if-Q IsSome (is_empty buf) _ _ (λ e. (_, refl)) (λ e. (_, refl))
blocking_write-IsSome epipe (room n ∷ answers) buf client =
    if-Q IsSome (is_empty buf) _ _ (λ e. (_, refl))
      (λ e. blocking_write-IsSome epipe answers (drop (min (suc n) (length buf)) buf) _)

page_sent-IsSome : (code : ℕ) (o : Option Client) → IsSome o → IsSome (page_sent code o)
unfolding page_sent
page_sent-IsSome code none (c, e) = absurd (cc e)
page_sent-IsSome code (some d) e = (_, refl)

-- `send_error_page` ends, with the page sent or not.
pub send_error_page-IsSome :
    (epipe : Bool) (client : Client) → IsSome (send_error_page epipe client)
unfolding send_error_page
send_error_page-IsSome epipe client =
    if-Q IsSome (client.header_done || client.response_closed) _ _ (λ e. (_, refl))
      (λ e. page_sent-IsSome client.status_code _ (blocking_write-IsSome epipe client.answers _ _))
