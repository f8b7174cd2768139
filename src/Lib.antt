-- ===== src/Lib.antt =====
-- Verification of the C core of meinheld, a WSGI server: the extension in meinheld/server.
--
-- A connection's bytes go through the HTTP parser, a library, whose callbacks
-- (meinheld/server/http_request_parser.c) collect a request: its URL, its headers in the WSGI environ
-- and its body in a buffer or a file. The application reads the body through an input object and
-- answers by start_response and an iterator or a file, which the response writes to the socket in
-- buckets of vectors. A scheduler makes delayed calls from a heap of timers. The files follow these
-- parts:
--
-- - Buffer: meinheld/server/buffer.c. write2buf with its limit, its growth and the failure of realloc,
--   which is a Boolean argument.
-- - Heapq: meinheld/server/heapq.c. The array of timers is a list of numbers, ordered by the times that
--   a function gives them; _siftdown and _siftup are sift_down and sift_up. Their loops run on fuel, the
--   length of the array, which no loop uses up; Sift and Order carry the proofs, Queue the results.
-- - Timer: meinheld/server/timer.c. Timer objects; `seconds` never changes after they are made.
-- - Hub: the scheduler of meinheld/server/server.c. Its globals are a record, its timers are numbered
--   and stand in a store, and callbacks are a parameter `run` on that record. fire_timers and
--   fire_pendings run on fuel; one more than the size of the heap is enough when callbacks add no
--   timers. Hub.Greenlet has spawn and sleep.
-- - Url: urldecode, set_query and set_path of http_request_parser.c, on lists of bytes.
-- - Environ: the environ as an association list, and replace_env_key; Environ.Static has the objects
--   that setup_static_env makes and clear_static_env releases.
-- - Request: the request and its callbacks url_cb, header_field_cb, header_value_cb (Request), body_cb
--   and headers_complete_cb (Request.Body). A piece is what the parser hands over in one call. A
--   reference that the request owns is null, live or released and not cleared.
-- - Queue: push_request, shift_request and free_request_queue of meinheld/server/request.c. Requests are numbers, and their
--   next fields are a function.
-- - Response: meinheld/server/response.c. Response has the buckets and writev_bucket, Response.Client
--   the client's fields and add_all_headers, Response.ErrorPage send_error_page, Response.Header
--   write_headers, Response.Body the bodies, Response.FileWrapper the wrapper of a file, Response.Start
--   start_response. Suspended, Uncounted, Resumed and Finished are about a body that waits for its
--   socket. The socket is the list of the kernel's answers, with EAGAIN after the last, and the bytes
--   that went out; strtol and the text of the date are parameters. blocking_write, which waits for the
--   socket in a loop, is answered by a failure after the last answer, since the connection is gone then.
--   process_sendfile has a result of its own, endless, for the loop that never returns.
-- - Input: meinheld/server/input.c. The buffer is a list of bytes, and readlines runs on one more fuel
--   than bytes are left.
-- - FreeList: the free lists of buffers, requests, parsers, input objects, client objects and clients.
-- - Settings: the setters and getters of server.c.
-- - TimeCache: meinheld/server/time_cache.c, with what gettimeofday, gmtime and localtime give.
-- - Session: a connection in server.c, from accept to close, in the build with greenlets, with one
--   connection's view of the loop. Parse runs the callbacks on what the parser reports, which is a
--   parameter; Serve takes a request from the queue to the application, Close ends it and goes on with
--   the next, Events are the loop's callbacks, and Plain is the callback of a response
--   that waits in the build without greenlets; Whole puts the
--   reports of a request and of its headers together. The application is a function from the environ to
--   its calls of start_response and its result. close_client runs on fuel, more than there are requests
--   waiting. Ends, Loop, Respond and BadRequest carry the results, Counted, Served, Kept, Reading and Readable
--   their lemmas, and Serves what they ask of the application. A run that reads a NULL or never returns
--   is stuck.
-- - Greenlets: the waits of server.c: suspend_client, resume_client, cancel_wait, trampoline and the
--   callbacks that end them, on a table of the watched descriptors; Methods are those of the client
--   object in client.c.
-- - Listen: the listening sockets in server.c, how the server is stopped, and (Listen/Sockets, Run)
--   listen and run. What the kernel answers is a parameter, and so is what a turn of the event loop
--   does; the loop stands for itself on the list of its turns. Whether Python's error indicator is set
--   is part of the globals.
-- - Log: the loggers of log.c and the functions of server.c that set them.
-- - Base: lists measured by native numbers, permutations, signed integers and texts as bytes.
--
-- Unsigned arithmetic of fixed width is written with its wrap-around. Calls of CPython that allocate or
-- store are taken to succeed, and so are tmpfile and the calls of picoev. Lengths that the code keeps
-- in an int are below 2^31.
--
-- Not modelled: http_parser.c and the picoev files, which are copies of libraries; the greenlet calls,
-- the socket options, which call other libraries; the glue of the module's table; the Python modules.
pub mod Base
pub mod Buffer
pub mod Heapq
pub mod Response
pub mod Request
pub mod Queue
pub mod Environ
pub mod Url
pub mod Input
pub mod Timer
pub mod Hub
pub mod FreeList
pub mod Session
pub mod Settings
pub mod TimeCache
pub mod Greenlets
pub mod Listen
pub mod Log
