-- ===== src/Http/Context/Roundtrip.antt =====
-- Printing a request and parsing it.
use myoj.Common.{
  ℕ, zero, suc, ◌+◌, ◌≤◌, ◌<◌, ◌≡◌, ◌≢◌, refl, ap, ◌∙◌, subst, Bool, true, List, [], ◌∷◌, ◌++◌, All,
  All-append, All-map, length, arith, length-append, take-length,
}
use myoj.Common.Bytes.{Bytes, codes, find_index, find_index-append, insert}
use myoj.Net.Buffer.{Buffer, contents}
use myoj.Net.Buffer.Contents.{IsValid}
use myoj.Http.Request.{Request, Method, invalid, http11, method_string}
use myoj.Http.Context.{
  State, expect_request_line, expect_headers, expect_body, got_all, Context, Outcome, done, aborted,
  running, parse_request, process_request_line,
}
use myoj.Http.Context.Stream.{
  ends, line_round, field_round, stream_round, stream_loop, stream_parse, Same, parse_request-Same,
}
use myoj.Http.Context.Lines.{
  found_inside, past_line_lem, request_line, process_request_line_lem, method_string-plain,
  field_line, IsTrimmed, add_header_lem,
}

-- The parts of a request with no query that a client sends.
pub record Message : Type 0 where
  pub method : Method
  pub path : Bytes
  pub fields : List (Bytes × Bytes)
  pub body : Bytes

abbrev pub print_fields : List (Bytes × Bytes) → Bytes → Bytes
print_fields [] rest = rest
print_fields ((key, value) ∷ fields) rest =
    field_line key value ++ 13 ∷ 10 ∷ print_fields fields rest

abbrev pub print : Message → Bytes
print m = request_line m.method m.path ++ 13 ∷ 10 ∷ print_fields m.fields (13 ∷ 10 ∷ m.body)

-- The headers after the fields, a later field with the same key in place of an earlier one.
abbrev pub insert_all : List (Bytes × Bytes) → List (Bytes × Bytes) → List (Bytes × Bytes)
insert_all [] headers = headers
insert_all ((key, value) ∷ fields) headers = insert_all fields (insert key value headers)

abbrev pub IsField : Bytes × Bytes → Type 0
IsField (key, value) =
    All (λ x. x ≢ 58) key × All (λ x. x ≢ 13) key × All (λ x. x ≢ 13) value × IsTrimmed value

pub record IsPrintable (m : Message) : Type 0 where
  pub known : m.method ≢ invalid
  pub no_blank : All (λ x. x ≢ 32) m.path
  pub no_query : All (λ x. x ≢ 63) m.path
  pub one_line : All (λ x. x ≢ 13) m.path
  pub fielded : All IsField m.fields

-- The request that the parser holds at the end.
abbrev pub received : ℕ → Message → Request → Request
received time m r = record r {
  method = m.method;
  version = http11;
  path = m.path;
  receive_time = time;
  headers = insert_all m.fields r.headers;
  body = m.body;
}

module _ (fuel time : ℕ) (r : Request) where
  -- A round that meets a whole line in front of `rest`.
  line_step :
      (line rest : Bytes) (r' : Request)
      → All (λ x. x ≢ 13) line
      → process_request_line line r ≡ (true, r')
      → stream_round (stream_loop fuel time) time expect_request_line r (line ++ 13 ∷ 10 ∷ rest)
        ≡ stream_loop fuel time
            (record { state = expect_headers; request = record r' { receive_time = time } })
            rest
  unfolding stream_round line_round
  line_step line rest r' plain e =
      rw
        (
          found_inside 13 line (10 ∷ rest) plain,
          find_index-append 13 line (10 ∷ rest) plain,
          take-length line (13 ∷ 10 ∷ rest),
          e,
        )
        (past_line_lem line rest (
          stream_loop fuel time
            (record { state = expect_headers; request = record r' { receive_time = time } })))

  empty_step :
      (rest : Bytes)
      → stream_round (stream_loop fuel time) time expect_headers r (13 ∷ 10 ∷ rest)
        ≡ stream_loop fuel time (record { state = expect_body; request = r }) rest
  unfolding stream_round field_round find_index
  empty_step rest =
      rw (found_inside 13 [] (10 ∷ rest) tt) (
        past_line_lem [] rest (stream_loop fuel time (record { state = expect_body; request = r })))

  field_step :
      (key value rest : Bytes)
      → IsField (key, value)
      → stream_round
          (stream_loop fuel time)
          time
          expect_headers
          r
          (field_line key value ++ 13 ∷ 10 ∷ rest)
        ≡ stream_loop fuel time
            (record {
              state = expect_headers;
              request = record r { headers = insert key value r.headers };
            })
            rest
  unfolding stream_round field_round
  field_step key value rest (colon, one, two, t) =
      rw
        (
          found_inside 13 line (10 ∷ rest) plain,
          find_index-append 13 line (10 ∷ rest) plain,
          take-length line (13 ∷ 10 ∷ rest),
          found_inside 58 key (32 ∷ value) colon,
          add_header_lem key value r colon t,
        )
        (past_line_lem line rest (stream_loop fuel time c))
    where
      line : Bytes
      line = field_line key value

      c : Context
      c = record {
        state = expect_headers;
        request = record r { headers = insert key value r.headers };
      }

      plain : All (λ x. x ≢ 13) line
      plain = All-append (λ x. x ≢ 13) key (58 ∷ 32 ∷ value) one (omega arith, (omega arith, two))

loop_suc :
    (fuel time : ℕ) (st : State) (r : Request) (s : Bytes)
    → stream_loop (suc fuel) time (record { state = st; request = r }) s
      ≡ stream_round (stream_loop fuel time) time st r s
unfolding stream_loop
loop_suc fuel time st r s = refl

body_step :
    (fuel time : ℕ) (r : Request) (s : Bytes)
    → stream_round (stream_loop fuel time) time expect_body r s
      ≡ ends true (record { state = got_all; request = record r { body = s } }) []
unfolding stream_round
body_step fuel time r s = refl

empty_then_body :
    (fuel time : ℕ) (r : Request) (body : Bytes)
    → stream_loop
        (suc (suc fuel))
        time
        (record { state = expect_headers; request = r })
        (13 ∷ 10 ∷ body)
      ≡ ends true (record { state = got_all; request = record r { body = body } }) []
empty_then_body fuel time r body =
    loop_suc (suc fuel) time expect_headers r (13 ∷ 10 ∷ body)
    ∙ empty_step (suc fuel) time r body
    ∙ loop_suc fuel time expect_body r body
    ∙ body_step fuel time r body

pub fields_loop :
    (fields : List (Bytes × Bytes)) (fuel time : ℕ) (r : Request) (body : Bytes)
    → length fields + 1 < fuel
    → All IsField fields
    → stream_loop fuel time
        (record { state = expect_headers; request = r })
        (print_fields fields (13 ∷ 10 ∷ body))
      ≡ ends true
          (record {
            state = got_all;
            request = record r { headers = insert_all fields r.headers; body = body };
          })
          []
fields_loop fields zero time r body h w = absurd (omega arith)
fields_loop fields (suc zero) time r body h w = absurd (omega arith)
fields_loop [] (suc (suc fuel)) time r body h w = empty_then_body fuel time r body
fields_loop ((key, value) ∷ fields) (suc (suc fuel)) time r body h (f, w) =
    loop_suc (suc fuel) time expect_headers r _
    ∙ field_step (suc fuel) time r key value (print_fields fields (13 ∷ 10 ∷ body)) f
    ∙ fields_loop fields (suc fuel) time (record r { headers = insert key value r.headers }) body
        (omega arith) w

pub length-print_fields :
    (fields : List (Bytes × Bytes)) (rest : Bytes)
    → length fields + length rest ≤ length (print_fields fields rest)
length-print_fields [] rest = omega arith
length-print_fields ((key, value) ∷ fields) rest = omega (
  arith,
  length-append {0} (field_line key value) (13 ∷ 10 ∷ print_fields fields rest),
  length-print_fields fields rest,
)

request_line-plain :
    (m : Method) (path : Bytes) → All (λ x. x ≢ 13) path → All (λ x. x ≢ 13) (request_line m path)
request_line-plain m path h =
    All-append (λ x. x ≢ 13) (method_string m) _
      (All-map (method_string m) (λ x p. p.1) (method_string-plain m))
      (omega arith, All-append (λ x. x ≢ 13) path (32 ∷ codes "HTTP/1.1") h (omega arith))

stream_parse-print :
    (m : Message) (time : ℕ) (r : Request)
    → IsPrintable m
    → stream_parse
        (record { state = expect_request_line; request = record r { method = invalid } })
        (print m)
        time
      ≡ ends true (record { state = got_all; request = received time m r }) []
unfolding stream_parse
stream_parse-print m time r w =
    loop_suc (length (print m)) time expect_request_line (record r { method = invalid }) (print m)
    ∙ line_step (length (print m)) time (record r { method = invalid }) line rest
        (record r { method = m.method; path = m.path; version = http11 })
        (request_line-plain m.method m.path w.one_line)
        (process_request_line_lem m.method m.path r w.known w.no_blank w.no_query)
    ∙ fields_loop m.fields (length (print m)) time _ m.body room w.fielded
  where
    line : Bytes
    line = request_line m.method m.path

    rest : Bytes
    rest = print_fields m.fields (13 ∷ 10 ∷ m.body)

    room : length m.fields + 1 < length (print m)
    room = omega (
      arith,
      length-append {0} line (13 ∷ 10 ∷ rest),
      length-print_fields m.fields (13 ∷ 10 ∷ m.body),
    )

Same-ends :
    (o : Outcome) (ok : Bool) (c : Context)
    → Same o (ends ok c [])
    → (b : Buffer) × (o ≡ done ok c b) × (contents b ≡ []) × IsValid b
Same-ends (done ok' c' b) ok c (e, v) = (b, cc, cc, v)
Same-ends aborted ok c e = absurd (cc)
Same-ends running ok c e = absurd (cc)

-- A whole request that lies in a buffer in order, printed with a known method, a path without
-- blank, question mark or '\r', header fields with trimmed values and no stray delimiters, and any
-- body, is parsed back: the context of an empty request has got all of it, with these very parts,
-- and the buffer is empty. What the request line and the fields do not set, the query and its
-- parameters, stays as it was in the context.
pub parse_request-print :
    (m : Message) (time : ℕ) (r : Request) (b : Buffer)
    → IsPrintable m
    → IsValid b
    → contents b ≡ print m
    → (b' : Buffer) × (parse_request
          (record { state = expect_request_line; request = record r { method = invalid } })
          b
          time
        ≡ done true (record { state = got_all; request = received time m r }) b')
      × (contents b' ≡ [])
      × IsValid b'
parse_request-print m time r b w v e =
    Same-ends _ true (record { state = got_all; request = received time m r })
      (subst (Same (parse_request c b time))
        (ap (λ s. stream_parse c s time) e ∙ stream_parse-print m time r w)
        (parse_request-Same c b time v))
  where
    c : Context
    c = record { state = expect_request_line; request = record r { method = invalid } }
