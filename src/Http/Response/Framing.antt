-- ===== src/Http/Response/Framing.antt =====
-- HttpResponse.cc: what stands behind the status line of a response, read by the rules for the
-- headers and the body that the parser of this library follows.
use myoj.Common.{
  ℕ, suc, ◌^◌, ◌<◌, ◌≡◌, ◌≢◌, refl, sym, ap, ◌∙◌, true, if◌then◌else◌, Bool-cases, inl, inr, List,
  [], ◌∷◌, ◌++◌, All, All-append, All-map, length, length-append, take_all, append_assoc, arith,
}
use myoj.Common.Bytes.{Bytes, codes}
use myoj.Common.Decimal.{
  to_string, c_string, c_string_whole, IsDigit, to_string-All, length-to_string-le,
}
use myoj.Http.Request.{fresh_request, skip_space, trim_end}
use myoj.Http.Context.{expect_headers, got_all}
use myoj.Http.Context.Stream.{ends, stream_loop, stream_parse}
use myoj.Http.Context.Lines.{field_line, IsTrimmed}
use myoj.Http.Context.Roundtrip.{
  print_fields, insert_all, IsField, fields_loop, length-print_fields,
}
use myoj.Http.Response.{
  Response, length_line, header_text, end_line, headers_text, connection_text, status_text,
  append_to_buffer, append_to_buffer-Grows,
}
use myoj.Net.Buffer.{Buffer, contents}
use myoj.Net.Buffer.Contents.{IsValid}

-- The fields that the response states itself.
abbrev pub connection_fields : Response → List (Bytes × Bytes)
connection_fields r =
    if r.close_connection
    then (codes "Connection", codes "close") ∷ []
    else (codes "Content-Length", to_string (length r.body))
      ∷ (codes "Connection", codes "keep-Alive")
      ∷ []

abbrev pub IsCleanField : Bytes × Bytes → Type 0
IsCleanField (key, value) = IsField (key, value) × All (λ x. x ≢ 0) key × All (λ x. x ≢ 0) value

-- Without a NUL, with fields of one line each, and not longer than a length line can say.
pub record IsClean (r : Response) : Type 0 where
  pub fielded : All IsCleanField r.headers
  pub no_nul : All (λ x. x ≢ 0) r.body
  pub short : length r.body < 10 ^ 13

-- Behind the status line.
abbrev pub rest_text : Response → Bytes
rest_text r = connection_text r ++ (headers_text r.headers ++ (end_line ++ c_string r.body))

length_line_whole :
    (n : ℕ) → n < 10 ^ 13 → length_line n ≡ codes "Content-Length: " ++ to_string n ++ end_line
unfolding length_line
length_line_whole n h =
    ap (λ s. codes "Content-Length: " ++ s)
      (take_all 15 (to_string n ++ end_line)
        (omega (arith, length-to_string-le 12 n h, length-append {0} (to_string n) end_line)))

skip_space_digits : (s : Bytes) → All IsDigit s → skip_space s ≡ s
unfolding skip_space
skip_space_digits [] h = refl
skip_space_digits (c ∷ s) h = ground (arith, h.0)

trim_end_digits : (s : Bytes) → All IsDigit s → trim_end s ≡ s
unfolding trim_end
trim_end_digits [] h = refl
trim_end_digits (c ∷ []) h = ground (arith, h.0)
trim_end_digits (c ∷ d ∷ s) h = rw (trim_end_digits (d ∷ s) h.1) refl

digits-IsTrimmed : (s : Bytes) → All IsDigit s → IsTrimmed s
digits-IsTrimmed s h = record { front = skip_space_digits s h; back = trim_end_digits s h }

connection_fields-IsField : (r : Response) → All IsField (connection_fields r)
unfolding skip_space trim_end
connection_fields-IsField r = elim (Bool-cases r.close_connection) [
  | inl e ↦ rw e ((omega arith, omega arith, omega arith, record { front = refl; back = refl }), tt)
  | inr e ↦ rw e (
    (
      omega arith,
      omega arith,
      All-map (to_string (length r.body)) (λ x d. omega (arith, d.0, d.1))
          (to_string-All (length r.body)),
      digits-IsTrimmed (to_string (length r.body)) (to_string-All (length r.body)),
    ),
    ((omega arith, omega arith, omega arith, record { front = refl; back = refl }), tt),
  )
]

header_text_whole :
    (key value : Bytes)
    → IsCleanField (key, value)
    → c_string (header_text (key, value)) ≡ header_text (key, value)
header_text_whole key value h = c_string_whole (header_text (key, value)) (
    All-append (λ x. x ≢ 0) key (58 ∷ 32 ∷ value ++ end_line) h.1
      (omega arith, (omega arith, All-append (λ x. x ≢ 0) value end_line h.2 (omega arith))))

append_assoc_three : (w x y z : Bytes) → w ++ x ++ y ++ z ≡ w ++ (x ++ (y ++ z))
append_assoc_three w x y z = append_assoc (w ++ x) y z ∙ append_assoc w x (y ++ z)

connection_text_lem :
    (r : Response) (rest : Bytes)
    → length r.body < 10 ^ 13
    → connection_text r ++ rest ≡ print_fields (connection_fields r) rest
connection_text_lem r rest h = elim (Bool-cases r.close_connection) [
  | inl e ↦ rw e refl
  | inr e ↦
      rw (e, length_line_whole (length r.body) h)
        (ap (λ s. codes "Content-Length: " ++ s)
          (append_assoc_three (to_string (length r.body)) end_line
            (codes "Connection: keep-Alive" ++ end_line) rest))
]

headers_text_lem :
    (headers : List (Bytes × Bytes)) (rest : Bytes)
    → All IsCleanField headers
    → headers_text headers ++ rest ≡ print_fields headers rest
headers_text_lem [] rest h = refl
headers_text_lem ((key, value) ∷ headers) rest h =
    rw (header_text_whole key value h.0)
      (simp (append_assoc, headers_text_lem headers rest h.1) refl)

print_fields-append :
    (xs ys : List (Bytes × Bytes)) (rest : Bytes)
    → print_fields (xs ++ ys) rest ≡ print_fields xs (print_fields ys rest)
print_fields-append [] ys rest = refl
print_fields-append ((key, value) ∷ xs) ys rest =
    ap (λ s. field_line key value ++ 13 ∷ 10 ∷ s) (print_fields-append xs ys rest)

rest_text_lem :
    (r : Response)
    → IsClean r
    → rest_text r ≡ print_fields (connection_fields r ++ r.headers) (13 ∷ 10 ∷ r.body)
rest_text_lem r w =
    connection_text_lem r _ w.short
    ∙ ap (print_fields (connection_fields r)) (
        headers_text_lem r.headers (end_line ++ c_string r.body) w.fielded
        ∙ ap (λ s. print_fields r.headers (end_line ++ s)) (c_string_whole r.body w.no_nul))
    ∙ sym (print_fields-append (connection_fields r) r.headers (13 ∷ 10 ∷ r.body))

-- What is appended is the status line and a rest which, for a clean response, is framed as it says:
-- by the library's own rules for header lines and body, the rest has the connection's fields, with
-- the length of the body when the connection is kept, then the response's headers, and the body.
pub append_to_buffer-framed :
    (r : Response) (b : Buffer) (time : ℕ)
    → IsClean r
    → IsValid b
    → (contents (append_to_buffer r b) ≡ contents b ++ (status_text r ++ rest_text r))
      × (stream_parse
            (record { state = expect_headers; request = fresh_request })
            (rest_text r)
            time
          ≡ ends true
              (record {
                state = got_all;
                request = record fresh_request {
                  headers = insert_all (connection_fields r ++ r.headers) [];
                  body = r.body;
                };
              })
              [])
unfolding stream_parse
append_to_buffer-framed r b time w v = (
  (append_to_buffer-Grows r b v).grown,
  ap
        (λ s.
          stream_loop (suc (length s)) time
            (record { state = expect_headers; request = fresh_request }) s)
        (rest_text_lem r w)
      ∙ fields_loop (connection_fields r ++ r.headers) _ time fresh_request r.body
          (omega (arith, length-print_fields (connection_fields r ++ r.headers) (13 ∷ 10 ∷ r.body)))
          (All-append IsField (connection_fields r) r.headers (connection_fields-IsField r)
            (All-map r.headers (λ h c. c.0) w.fielded)),
)
