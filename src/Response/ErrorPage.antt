-- ===== src/Response/ErrorPage.antt =====
-- meinheld/server/response.c: `send_error_page`, with the `write` calls that wait for the socket.
use meinheld.Base.{
  ℕ, suc, ◌+◌, ◌-◌, ◌^◌, min, Bool, true, false, ◌||◌, Option, none, some, List, [], ◌∷◌, ◌++◌,
  ◌==◌, if◌then◌else◌, length, take, drop, codes,
}
use meinheld.Response.{Answer, room, again, failed, crlf}
use meinheld.Response.Client.{Client, u64, server}
use meinheld.Response.Start.{is_empty}

abbrev pub content_type : List ℕ
content_type = codes "Content-Type: text/html"

-- The end of a page's header
abbrev pub server_lines : List ℕ
server_lines = crlf ++ (content_type ++ (crlf ++ (codes "Server: " ++ (server ++ (crlf ++ crlf)))))

-- `H_MSG_400` and the others; that of 500, for all other codes, has one blank more.
unfoldable pub header_message : ℕ → List ℕ
header_message code =
    if code == 400
    then codes "HTTP/1.0 400 Bad Request" ++ server_lines
    else if code == 408
    then codes "HTTP/1.0 408 Request Timeout" ++ server_lines
    else if code == 411
    then codes "HTTP/1.0 411 Length Required" ++ server_lines
    else if code == 413
    then codes "HTTP/1.0 413 Request Entity Too Large" ++ server_lines
    else if code == 417
    then codes "HTTP/1.1 417 Expectation Failed" ++ server_lines
    else if code == 503
    then codes "HTTP/1.0 503 Service Unavailable" ++ server_lines
    else codes "HTTP/1.0 500 Internal Server Error"
      ++ (crlf ++ (content_type ++ (crlf ++ (codes "Server:  " ++ (server ++ (crlf ++ crlf))))))

-- What `MSG_400` and the others have after the header
unfoldable pub page : ℕ → List ℕ
page code =
    if code == 400
    then codes
        "<html><head><title>Bad Request</title></head><body><p>Bad Request.</p></body></html>"
    else if code == 408
    then codes
        "<html><head><title>Request Timeout</title></head><body><p>Request Timeout.</p></body></html>"
    else if code == 411
    then codes
        "<html><head><title>Length Required</title></head><body><p>Length Required.</p></body></html>"
    else if code == 413
    then codes
        "<html><head><title>Request Entity Too Large</title></head><body><p>Request Entity Too Large.</p></body></html>"
    else if code == 417
    then codes
        "<html><head><title>Expectation Failed</title></head><body><p>Expectation Failed.</p></body></html>"
    else if code == 503
    then codes
        "<html><head><title>Service Unavailable</title></head><body><p>Service Unavailable.</p></body></html>"
    else codes
        "<html><head><title>500 Internal Server Error</title></head><body><h1>Internal Server Error</h1><p>The server encountered an internal error and was unable to complete your request.  Either the server is overloaded or there is an error in the application.</p></body></html>"

-- What `blocking_write` leaves of a client when `write` fails; the flag says that it was EPIPE.
unfoldable pub write_failed : Bool → Client → Client
write_failed true client = record client {
  keep_alive = false;
  status_code = 500;
  header_done = true;
  response_closed = true;
}
write_failed false client = record client { keep_alive = false }

-- `blocking_write`. The socket is busy for a while at most: after the last answer the connection is
-- gone, and a write fails.
unfoldable pub blocking_write : Bool → List Answer → List ℕ → Client → Option Client
unfolding write_failed
blocking_write epipe [] buf client =
    if is_empty buf
    then some (record client { answers = [] })
    else some (write_failed epipe (record client { answers = [] }))
blocking_write epipe (again ∷ answers) buf client =
    let rest = blocking_write epipe answers buf client in
    if is_empty buf then some (record client { answers = again ∷ answers }) else rest
blocking_write epipe (failed ∷ answers) buf client =
    if is_empty buf
    then some (record client { answers = failed ∷ answers })
    else some (write_failed epipe (record client { answers = answers }))
blocking_write epipe (room n ∷ answers) buf client =
    let r = min (suc n) (length buf) in
    let rest = blocking_write epipe answers (drop r buf) (record client {
      write_bytes = u64 (client.write_bytes + r);
      out = client.out ++ take r buf;
    }) in
    if is_empty buf then some (record client { answers = room n ∷ answers }) else rest

-- The end of `send_error_page`, with the header's bytes taken off the count
unfoldable pub page_sent : ℕ → Option Client → Option Client
page_sent code none = none
page_sent code (some client) = some (record client {
  write_bytes = u64 (client.write_bytes + (2 ^ 64 - length (header_message code)));
  keep_alive = false;
  header_done = true;
  response_closed = true;
})

-- `send_error_page`. `shutdown` comes first, also where nothing is sent; the switch is on the code
-- that the client has at first.
unfoldable pub send_error_page : Bool → Client → Option Client
unfolding blocking_write page_sent
send_error_page epipe client =
    let code = client.status_code in
    let shut = record client { read_shut = true } in
    let sent = blocking_write epipe client.answers (header_message code ++ page code) shut in
    if client.header_done || client.response_closed then some shut else page_sent code sent
