-- ===== src/Http/Tests.antt =====
-- Runs of the HTTP parser, and the theorems at concrete inputs.
use myoj.Common.{◌≡◌, ◌≢◌, refl, [], ◌∷◌, ◌++◌, false, true, arith}
use myoj.Common.Bytes.{Bytes, codes, lookup, insert, find_index}
use myoj.Net.Buffer.{
  Buffer, make_buffer, append, contents, find_crlf, retrieve_until, retrieve_all, retrieve,
  ensure_writeable_bytes, copy_in, empty, make_space,
}
use myoj.Net.Buffer.Contents.{IsValid, make_buffer-IsValid}
use myoj.Net.Buffer.Space.{append-IsValid}
use myoj.Http.Request.{
  fresh_request, post, has_param, get_param, get_header, set_query, parse_params, store_param,
  getline, set_method, add_header, skip_space, trim_end, method_string,
}
use myoj.Http.Request.Params.{set_query-query_string}
use myoj.Http.Context.{
  parse_request, parse_loop, parse_round, request_line_round, header_round, process_request_line,
  process_target, set_target, set_version, version_of, done, aborted, running, make_context, reset,
  get_all, expect_headers, got_all,
}
use myoj.Http.Context.Stream.{Same, stream_parse, parse_request-Same}
use myoj.Http.Context.Progress.{parse_request-ne-running, parse_request_half_crlf}
use myoj.Http.Context.Roundtrip.{Message, print, received, parse_request-print}

http_code : Unit {0}
unfolding parse_request parse_loop parse_round request_line_round header_round process_request_line
    process_target set_target set_version version_of set_query parse_params store_param getline
    set_method add_header skip_space trim_end method_string make_buffer append find_crlf
    retrieve_until retrieve_all retrieve ensure_writeable_bytes copy_in empty make_space lookup
    insert find_index reset get_all has_param get_param get_header
http_code = tt

abbrev message : Message
message = record {
  method = post;
  path = codes "/login";
  fields = (codes "Host", codes "oj") ∷ (codes "Accept", codes "a b") ∷ [];
  body = codes "{}";
}

abbrev on_wire : Bytes → Buffer
on_wire s = append s (make_buffer 16)

on_wire-IsValid : (s : Bytes) → IsValid (on_wire s)
on_wire-IsValid s = append-IsValid s _ (make_buffer-IsValid 16)

-- A query parameter is found under its key with the question mark only.
query_run : has_param (codes "Page") (set_query (codes "?Page=1&PageSize=20") fresh_request) ≡ false
unfolding http_code
query_run = refl

query_run_marked :
    get_param (codes "?Page") (set_query (codes "?Page=1&PageSize=20") fresh_request) ≡ codes "1"
unfolding http_code
query_run_marked = refl

set_query-query_string_example : set_query (codes "?a=1&b=2") fresh_request ≡ record fresh_request {
  query = codes "?a=1&b=2";
  params = (codes "?a", codes "1") ∷ (codes "b", codes "2") ∷ [];
}
unfolding http_code
set_query-query_string_example =
    set_query-query_string (record { key = codes "a"; first = b'1'; others = [] })
      (record { key = codes "b"; first = b'2'; others = [] } ∷ []) fresh_request (omega arith)
      (omega arith)

parse_request-Same_example :
    Same
      (parse_request make_context (on_wire (print message)) 7)
      (stream_parse make_context (contents (on_wire (print message))) 7)
parse_request-Same_example =
    parse_request-Same make_context (on_wire (print message)) 7 (on_wire-IsValid (print message))

parse_request-ne-running_example :
    parse_request make_context (on_wire (codes "GET / HT")) 7 ≢ running
parse_request-ne-running_example =
    parse_request-ne-running make_context (on_wire (codes "GET / HT")) 7
      (on_wire-IsValid (codes "GET / HT")) (cc)

parse_request_half_crlf_example :
    parse_request
      (record make_context { state = expect_headers })
      (on_wire (codes "Host: oj" ++ 13 ∷ []))
      7
    ≡ aborted
unfolding http_code
parse_request_half_crlf_example =
    parse_request_half_crlf fresh_request (on_wire (codes "Host: oj" ++ 13 ∷ [])) 7
      (codes "Host: oj") (on_wire-IsValid (codes "Host: oj" ++ 13 ∷ [])) (omega arith) refl

parse_request-print_example :
    (b' : Buffer) × (parse_request make_context (on_wire (print message)) 7
      ≡ done true (record { state = got_all; request = received 7 message fresh_request }) b')
    × (contents b' ≡ [])
    × IsValid b'
unfolding http_code
parse_request-print_example =
    parse_request-print message 7 fresh_request (on_wire (print message))
      (record {
        known = cc;
        no_blank = omega arith;
        no_query = omega arith;
        one_line = omega arith;
        fielded = (
          (omega arith, omega arith, omega arith, record { front = refl; back = refl }),
          ((omega arith, omega arith, omega arith, record { front = refl; back = refl }), tt),
        );
      })
      (on_wire-IsValid (print message)) refl
