-- ===== src/Session/Plain.antt =====
-- meinheld/server/server.c: the callback of a response that waits, in the build without greenlets.
-- `close` is `close_client`.
use meinheld.Base.{Bool, true, false}
use meinheld.Response.{Status, ok, suspend, error, endless}
use meinheld.Response.Client.{Client}
use meinheld.Response.Body.{process_body}
use meinheld.Session.{Session, Run, done, stuck}

module _ {P : Type 0} (close : Session P → Run (Session P)) where
  -- `write_callback` on what `process_body` gives
  unfoldable pub body_written : Status × Client → Session P → Run (Session P)
  body_written (ok, client) s = done (record s { client = client })
  body_written (suspend, client) s = close (record s { client = client })
  body_written (endless, client) s = stuck
  body_written (error, client) s = close (record s { client = client })

  -- `write_callback`, for a timeout or for a descriptor that can be written
  unfoldable pub write_callback : Bool → Session P → Run (Session P)
  unfolding body_written
  write_callback true s = close (record s { client = record s.client { keep_alive = false } })
  write_callback false s = body_written (process_body s.client) s
