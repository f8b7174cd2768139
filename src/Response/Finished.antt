-- ===== src/Response/Finished.antt =====
-- meinheld/server/response.c: a response that had to wait is sent to its end.
use meinheld.Base.{ℕ, ◌≤◌, ◌≡◌, refl, sym, true, false, some, List, ◌++◌, length, All, All-append}
use mathlib.Core.Path.{subst}
use meinheld.Response.{Answer, Status, ok, suspend, error, endless}
use meinheld.Response.Writev.{Takes}
use meinheld.Response.Client.{Client}
use meinheld.Response.Body.{process_write, process_body}
use meinheld.Response.Chunk.{frames}
use meinheld.Response.Stream.{Streamed, Small, calls, as_items, process_write-Streamed}
use meinheld.Response.Uncounted.{uncounted, at}
use meinheld.Response.Resumed.{Unbounded, process_body-process_write}

-- The count plays no part in how a response ended.
uncounted-Streamed :
    (out : List ℕ) (r : Status × Client) → Streamed out (uncounted r) → Streamed out r
uncounted-Streamed out (ok, client) s = record {
  status = refl;
  written = s.written;
  closed = s.closed;
}
uncounted-Streamed out (suspend, client) s = absurd (cc (s.status))
uncounted-Streamed out (error, client) s = absurd (cc (s.status))
uncounted-Streamed out (endless, client) s = absurd (cc (s.status))

Streamed-uncounted :
    (out : List ℕ) (r : Status × Client) → Streamed out r → Streamed out (uncounted r)
Streamed-uncounted out (ok, client) s = record {
  status = refl;
  written = s.written;
  closed = s.closed;
}
Streamed-uncounted out (suspend, client) s = absurd (cc (s.status))
Streamed-uncounted out (error, client) s = absurd (cc (s.status))
Streamed-uncounted out (endless, client) s = absurd (cc (s.status))

-- A chunked response of an iterator of byte strings, each below 2^32 - 20 bytes, with no declared
-- length and whose `close` method does not raise, that had to wait for its socket, is sent whole when
-- the socket takes bytes again, and is closed: its chunks and the last one are on the wire, without a
-- loss or a repetition at the wait. The socket takes a byte at least in each call, and there are at
-- least `calls items` calls before and after the wait together.
pub process_body-Streamed :
    (items : List (List ℕ)) (xs ys : List Answer) (client : Client)
    → Unbounded client
    → client.response_iter ≡ some (as_items items)
    → All Small items
    → client.chunked_response ≡ true
    → client.close ≡ some false
    → All Takes xs
    → All Takes ys
    → (process_write (at xs client)).0 ≡ suspend
    → calls items ≤ length (xs ++ ys)
    → Streamed (client.out ++ frames items) (process_body (at ys (process_write (at xs client)).1))
process_body-Streamed items xs ys client u e small chunked closes takes takes' waits enough =
    let whole = client.out ++ frames items in
    let direct : Streamed whole (process_write (at (xs ++ ys) client)) =
      subst
        (λ o.
          Streamed whole (process_write (record client { answers = xs ++ ys; response_iter = o })))
        (sym e)
        (process_write-Streamed items (at (xs ++ ys) client) small chunked u.undeclared closes
          (All-append Takes xs ys takes takes') enough) in
    uncounted-Streamed whole _ (
      subst (Streamed whole)
        (sym (process_body-process_write (as_items items) xs ys client u e takes waits))
        (Streamed-uncounted whole _ direct))
