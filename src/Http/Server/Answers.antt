-- ===== src/Http/Server/Answers.antt =====
-- HttpServer.cc: whole requests on one connection, each in a segment of its own, from the arrival of
-- the bytes to the answer on the wire.
use myoj.Common.{
  ℕ, ◌-◌, ◌≡◌, ◌≢◌, refl, Bool, true, false, some, List, [], ◌∷◌, ◌++◌, length, take_all, arith,
}
use myoj.Common.Bytes.{Bytes}
use myoj.Net.Buffer.{Buffer, contents, readable_bytes, read_fd}
use myoj.Net.Buffer.Contents.{IsValid}
use myoj.Net.Connection.{
  Connection, connected, WriteResult, wrote, write_complete_task, queue_task, write_now,
  after_write, send_in_loop, send, handle_read, call, message_callback,
}
use myoj.Http.Request.{Request, fresh_request}
use myoj.Http.Context.{Context, expect_request_line}
use myoj.Http.Context.Roundtrip.{Message, print, received, IsPrintable}
use myoj.Http.Response.{Response, text}
use myoj.Http.Server.{Handled, handled, crashed, unfinished, send_bytes, response_to, on_message}

-- The kernel takes all that it is offered.
abbrev pub takes_all : Bytes → WriteResult
takes_all s = wrote (length s)

-- Up, with nothing that waits in either direction, and a message callback.
pub record IsIdle (conn : Connection) : Type 0 where
  pub up : conn.state ≡ connected
  pub called : conn.has_message_callback ≡ true
  pub not_writing : conn.is_writing ≡ false
  pub nothing_out : readable_bytes conn.output_buffer ≡ 0
  pub input_valid : IsValid conn.input_buffer
  pub nothing_in : contents conn.input_buffer ≡ []

pub send_bytes-idle :
    (s : Bytes) (conn : Connection)
    → conn.state ≡ connected
    → conn.is_writing ≡ false
    → readable_bytes conn.output_buffer ≡ 0
    → send_bytes takes_all s conn
      ≡ queue_task conn.has_write_complete_callback write_complete_task
          (record conn { wire = conn.wire ++ s })
unfolding send_bytes send send_in_loop write_now after_write
send_bytes-idle s conn up quiet none_out =
    simp (up, quiet, none_out, nothing_left, take_all (length s) s (omega arith)) refl
  where
    nothing_left : length s - length s ≡ 0
    nothing_left = omega arith

pub arrives :
    (s : Bytes) (conn : Connection)
    → s ≢ []
    → conn.has_message_callback ≡ true
    → handle_read (some s) conn ≡ record conn {
      calls = conn.calls ++ message_callback ∷ [];
      input_buffer = read_fd s conn.input_buffer;
    }
unfolding handle_read call
arrives [] conn h k = absurd (h refl)
arrives (x ∷ s) conn h k = rw k refl

-- A context between two requests: what the last one left is its body.
abbrev pub between_requests : Bytes → Context
between_requests body = record {
  state = expect_request_line;
  request = record fresh_request { body = body };
}

pub wire-queue_task :
    (b : Bool) (conn : Connection) → (queue_task b write_complete_task conn).wire ≡ conn.wire
unfolding queue_task
wire-queue_task true conn = refl
wire-queue_task false conn = refl

abbrev pub goes_on : Handled → (Context → Connection → Handled) → Handled
goes_on (handled c conn) k = k c conn
goes_on crashed k = crashed
goes_on unfinished k = unfinished

module _ (callback : Request → Response → Response) where
  -- The reply to a request depends on that request and its time alone.
  abbrev pub reply : Message × ℕ → Response
  reply (m, time) = response_to callback (received time m fresh_request)

  -- A request arrives in one segment, and is handled.
  abbrev pub exchange : Message × ℕ → Context → Connection → Handled
  exchange (m, time) c conn =
      on_message callback takes_all c (handle_read (some (print m)) conn) time

  unfoldable pub serve : List (Message × ℕ) → Context → Connection → Handled
  serve [] c conn = handled c conn
  serve (m ∷ ms) c conn = goes_on (exchange m c conn) (serve ms)

  abbrev pub replies : List (Message × ℕ) → Bytes
  replies [] = []
  replies (m ∷ ms) = text (reply m) ++ replies ms

  abbrev pub IsKept : Message × ℕ → Type 0
  IsKept m = IsPrintable m.0 × ((reply m).close_connection ≡ false)

  Answered : Message × ℕ → Bytes → Connection → Type 0
  Answered m body conn =
      (conn' : Connection) × (exchange m (between_requests body) conn
        ≡ handled (between_requests m.0.body) conn')
      × IsIdle conn'
      × (conn'.wire ≡ conn.wire ++ text (reply m))

  -- The body of the last request, which the context keeps.
  abbrev pub last_body : List (Message × ℕ) → Bytes → Bytes
  last_body [] body = body
  last_body (m ∷ ms) body = last_body ms m.0.body
