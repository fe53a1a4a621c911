-- ===== src/Http/Server.antt =====
-- include/http/HttpServer.h and src/http/HttpServer.cc: what the server does with the bytes of a
-- connection. `callback` is the client's, and `write` is what the kernel does with bytes offered.
pub mod Answers
pub mod Refusals
pub mod Tests
use myoj.Common.{Bool, true, false, not, ◌&&◌, ◌||◌, if◌then◌else◌, ℕ, ◌∷◌, [], ◌++◌}
use myoj.Common.Bytes.{Bytes, codes, bytes_eq}
use myoj.Net.Buffer.{Buffer, make_buffer, initial_size, contents}
use myoj.Net.Connection.{Connection, is_connected, WriteResult, send, shutdown}
use myoj.Http.Request.{Request, Version, http10, get_header}
use myoj.Http.Context.{
  Context, make_context, get_all, reset, Outcome, done, aborted, running, parse_request,
}
use myoj.Http.Response.{
  Response, not_found, make_response, set_status_code, set_status_message, set_close_connection,
  append_to_buffer,
}

abbrev pub default_http_callback : Request → Response → Response
default_http_callback req resp =
    set_close_connection true
      (set_status_message (codes "Not Found") (set_status_code not_found resp))

-- A connection that is up gets a new context.
unfoldable pub on_connection : Connection → Context → Context
on_connection conn c = if is_connected conn.state then make_context else c

abbrev is_http10 : Version → Bool
is_http10 http10 = true
is_http10 v = false

unfoldable pub wants_close : Request → Bool
unfolding get_header
wants_close req =
    let connection = get_header (codes "Connection") req in
    bytes_eq connection (codes "close")
    || (is_http10 req.version && not (bytes_eq connection (codes "Keep-Alive")))

abbrev pub bad_request_text : Bytes
bad_request_text = codes "HTTP/1.1 400 BadRequest" ++ (13 ∷ 10 ∷ 13 ∷ 10 ∷ [])

-- The context and the connection afterwards; the parser may abort, or not end.
pub data Handled : Type 0 where
  handled : Context → Connection → Handled
  crashed : Handled
  unfinished : Handled

unfoldable pub send_bytes : (Bytes → WriteResult) → Bytes → Connection → Connection
send_bytes write s conn = send true s (write s) conn

abbrev pub response_to : (Request → Response → Response) → Request → Response
response_to callback req = callback req (make_response (wants_close req))

-- The bytes of a response, in a buffer of its own.
unfoldable pub response_bytes : Response → Bytes
response_bytes resp = contents (append_to_buffer resp (make_buffer initial_size))

module _ (callback : Request → Response → Response) (write : Bytes → WriteResult) where
  unfoldable pub on_request : Request → Connection → Connection
  on_request req conn =
      let resp = response_to callback req in
      let sent = send_bytes write (response_bytes resp) conn in
      if resp.close_connection then shutdown true sent else sent

  unfoldable pub answer_all : Context → Connection → Handled
  answer_all c conn =
      if get_all c then handled (reset c) (on_request c.request conn) else handled c conn

  -- After the parser, which has changed the connection's input buffer.
  unfoldable pub answer : Outcome → Connection → Handled
  answer (done ok c b) conn =
      let read = record conn { input_buffer = b } in
      answer_all c (if ok then read else send_bytes write bad_request_text read)
  answer aborted conn = crashed
  answer running conn = unfinished

  -- In the loop's thread; `time` is the time of the read.
  unfoldable pub on_message : Context → Connection → ℕ → Handled
  on_message c conn time = answer (parse_request c conn.input_buffer time) conn
