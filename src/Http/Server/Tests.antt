-- ===== src/Http/Server/Tests.antt =====
-- Runs of the server, and the theorems at concrete inputs.
use myoj.Common.{◌≡◌, refl, [], ◌∷◌, ◌++◌, true, false, ℕ, List, arith}
use myoj.Common.Bytes.{Bytes, codes, lookup, insert, find_index}
use myoj.Common.Decimal.{to_string, decimal, c_string}
use myoj.Net.Buffer.{
  make_buffer, append, contents, find_crlf, retrieve_until, retrieve_all, retrieve,
  ensure_writeable_bytes, copy_in, empty, make_space, read_fd,
}
use myoj.Net.Buffer.Contents.{make_buffer-IsValid}
use myoj.Net.Buffer.Space.{append-IsValid}
use myoj.Net.Connection.{
  Connection, make_connection, connected, send, send_in_loop, write_now, after_write, queue_task,
  shutdown, shutdown_in_loop,
}
use myoj.Http.Request.{
  Request, get, post, get_header, set_method, set_query, add_header, skip_space, trim_end,
  method_string, fresh_request,
}
use myoj.Http.Context.{
  parse_request, parse_loop, parse_round, request_line_round, header_round, process_request_line,
  process_target, set_target, set_version, version_of, make_context, reset, get_all, Context,
  expect_headers, got_all,
}
use myoj.Http.Context.Stream.{ends, stream_parse}
use myoj.Http.Context.Roundtrip.{Message, insert_all}
use myoj.Http.Response.{
  Response, ok, make_response, set_status_code, set_status_message, set_content_type, set_body,
  append_to_buffer, append_status, append_connection, append_headers, status_line, length_line,
  text, status_text,
}
use myoj.Http.Response.Framing.{IsClean, rest_text, connection_fields, append_to_buffer-framed}
use myoj.Http.Server.{
  handled, wants_close, send_bytes, response_bytes, on_request, answer_all, answer, on_message,
}
use myoj.Http.Server.Refusals.{IsStuck, feed, refusals_text, feed-IsStuck}

server_code : Unit {0}
unfolding parse_request parse_loop parse_round request_line_round header_round process_request_line
    process_target set_target set_version version_of set_query set_method add_header skip_space
    trim_end method_string make_buffer append find_crlf retrieve_until retrieve_all retrieve
    ensure_writeable_bytes copy_in empty make_space lookup insert find_index reset get_all
    get_header to_string decimal c_string append_to_buffer append_status append_connection
    append_headers status_line length_line wants_close send_bytes response_bytes on_request
    answer_all answer on_message send send_in_loop write_now after_write queue_task shutdown
    shutdown_in_loop read_fd make_connection
server_code = tt

-- A client that echoes the body.
abbrev echo : Request → Response → Response
echo req resp =
    set_body req.body
      (set_content_type (codes "text") (set_status_message (codes "OK") (set_status_code ok resp)))

abbrev echoed : Response
echoed = echo (record fresh_request { body = codes "{}" }) (make_response false)

run_echo :
    text echoed
    ≡ codes "HTTP/1.1 200 OK"
      ++ (13 ∷ 10 ∷ [])
      ++ codes "Content-Length: 2"
      ++ (13 ∷ 10 ∷ [])
      ++ codes "Connection: keep-Alive"
      ++ (13 ∷ 10 ∷ [])
      ++ codes "Content-Type: text"
      ++ (13 ∷ 10 ∷ 13 ∷ 10 ∷ [])
      ++ codes "{}"
unfolding server_code
run_echo = refl

-- A body with a NUL is cut there, and the length line counts all of it.
cut_body :
    append_to_buffer (set_body (65 ∷ 0 ∷ 66 ∷ []) (make_response false)) (make_buffer 16)
    ≡ append_to_buffer (set_body (65 ∷ 0 ∷ 67 ∷ []) (make_response false)) (make_buffer 16)
unfolding server_code
cut_body = refl

echoed-IsClean : IsClean echoed
unfolding server_code
echoed-IsClean = record {
  fielded = (
    (
      (omega arith, omega arith, omega arith, record { front = refl; back = refl }),
      omega arith,
      omega arith,
    ),
    tt,
  );
  no_nul = omega arith;
  short = omega arith;
}

append_to_buffer-framed_example :
    (contents (append_to_buffer echoed (make_buffer 16))
      ≡ contents (make_buffer 16) ++ (status_text echoed ++ rest_text echoed))
    × (stream_parse
          (record { state = expect_headers; request = fresh_request })
          (rest_text echoed)
          7
        ≡ ends true
            (record {
              state = got_all;
              request = record fresh_request {
                headers = insert_all (connection_fields echoed ++ echoed.headers) [];
                body = codes "{}";
              };
            })
            [])
append_to_buffer-framed_example =
    append_to_buffer-framed echoed (make_buffer 16) 7 echoed-IsClean (make_buffer-IsValid 16)

abbrev line_up : Connection
line_up = record make_connection {
  state = connected;
  has_message_callback = true;
  input_buffer = make_buffer 16;
  output_buffer = make_buffer 16;
}

abbrev first : Message
first = record {
  method = get;
  path = codes "/a";
  fields = (codes "Host", codes "oj") ∷ [];
  body = [];
}

abbrev second : Message
second = record { method = post; path = codes "/b"; fields = []; body = codes "{}" }

abbrev both : List (Message × ℕ)
both = (first, 1) ∷ (second, 2) ∷ []

abbrev bad_line : Bytes
bad_line = codes "FETCH / HTTP/1.1"

abbrev refused_up : Connection
refused_up = record line_up { input_buffer = append (bad_line ++ (13 ∷ 10 ∷ [])) (make_buffer 16) }

refused_up-IsStuck : IsStuck bad_line make_context refused_up
unfolding server_code
refused_up-IsStuck = record {
  waits = refl;
  refused = refl;
  valid = append-IsValid (bad_line ++ (13 ∷ 10 ∷ [])) (make_buffer 16) (make_buffer-IsValid 16);
  held = (10 ∷ [], refl);
  up = refl;
  called = refl;
  not_writing = refl;
  nothing_out = refl;
}

abbrev later : List (ℕ × Bytes × ℕ)
later = (10, [], 1) ∷ (b'x', codes "y", 2) ∷ []

feed-IsStuck_example :
    (c' : Context) × (conn' : Connection) × (feed echo later make_context refused_up
      ≡ handled c' conn')
    × IsStuck bad_line c' conn'
    × (conn'.wire ≡ refused_up.wire ++ refusals_text later)
feed-IsStuck_example =
    feed-IsStuck echo bad_line (omega arith) later make_context refused_up refused_up-IsStuck
