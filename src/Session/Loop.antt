-- ===== src/Session/Loop.antt =====
-- The loop's callbacks of meinheld/server/server.c keep a connection: each ends in a state for which
-- the next event has its callback.
use meinheld.Base.{Bool, ℕ, ◌≡◌, ◌⊎◌, false, Option, none, some, List, if◌then◌else◌}
use meinheld.Base.Int.{ℤ}
use meinheld.Session.{World, Session, waiting, gone}
use meinheld.Session.Parse.{Report}
use meinheld.Session.Events.{Read}
use meinheld.Session.Serves.{Serves}
use meinheld.Response.Client.{Client}
use meinheld.Session.Counted.{Live}
use meinheld.Session.Reading.{Reading}
use meinheld.Session.Readable.{Begun, Readable, reports}

-- What an event leaves: a connection that is read, or one that waits for its socket or is closed.
abbrev pub Open : {P : Type 0} → ℤ → ℕ → Session P → Type 0
Open k n s = Reading k n s ⊎ (((s.phase ≡ waiting) ⊎ (s.phase ≡ gone)) × Live k n s)

module _ {P : Type 0} (w : World P) (k : ℤ) (serves : Serves w) where
  module _ (http_parser_execute : P → List ℕ → List (Report P) × ℕ × P) where
    abbrev pub reports_of : Option Read → Session P → ℕ
    reports_of none s = 0
    reports_of (some r) s = reports http_parser_execute r s

    -- A read that is an upgrade, if it is one, has a request.
    abbrev pub BegunOf : Option Read → Session P → Type 0
    BegunOf none s = Unit
    BegunOf (some r) s = Begun w http_parser_execute r s

  -- The client with which a response goes on
  abbrev pub resumed : Bool → Session P → Client
  resumed timed_out s = record s.client {
    keep_alive = if timed_out then false else s.client.keep_alive;
  }
