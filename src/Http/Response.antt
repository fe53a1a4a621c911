-- ===== src/Http/Response.antt =====
-- include/http/HttpResponse.h and src/http/HttpResponse.cc: the answer to a request. The headers stand
-- in the order in which the unordered map is iterated. Every text but the headers' parts is appended
-- as a C string, and `snprintf` prints into 32 bytes.
pub mod Framing
use myoj.Common.{
  ℕ, ◌+◌, Bool, true, false, if◌then◌else◌, List, [], ◌∷◌, ◌++◌, length, take, ◌≡◌, ap, ◌∙◌,
  append_assoc, append-nil, sym, Bool-cases, inl, inr,
}
use myoj.Common.Bytes.{Bytes, codes, insert}
use myoj.Common.Decimal.{to_string, c_string}
use myoj.Net.Buffer.{Buffer, contents, append}
use myoj.Net.Buffer.Contents.{IsValid}
use myoj.Net.Buffer.Space.{append-IsValid, contents-append}

pub data StatusCode : Type 0 where
  k_unknown ok moved_permanently bad_request unauthorized not_found internal_server_error :
      StatusCode

abbrev pub code_value : StatusCode → ℕ
code_value k_unknown = 0
code_value ok = 200
code_value moved_permanently = 301
code_value bad_request = 400
code_value unauthorized = 401
code_value not_found = 404
code_value internal_server_error = 500

pub record Response : Type 0 where
  pub headers : List (Bytes × Bytes)
  pub status_code : StatusCode
  pub status_message : Bytes
  pub close_connection : Bool
  pub body : Bytes

abbrev pub make_response : Bool → Response
make_response close = record {
  headers = [];
  status_code = k_unknown;
  status_message = [];
  close_connection = close;
  body = [];
}

-- The setters, `setContentType` through `addHeader`.
abbrev pub set_status_code : StatusCode → Response → Response
set_status_code code r = record r { status_code = code }

abbrev pub set_status_message : Bytes → Response → Response
set_status_message m r = record r { status_message = m }

abbrev pub set_close_connection : Bool → Response → Response
set_close_connection on r = record r { close_connection = on }

abbrev pub add_header : Bytes → Bytes → Response → Response
add_header key value r = record r { headers = insert key value r.headers }

abbrev pub set_content_type : Bytes → Response → Response
set_content_type = add_header (codes "Content-Type")

abbrev pub set_body : Bytes → Response → Response
set_body body r = record r { body = body }

-- What `snprintf(buf, sizeof(buf), ...)` leaves in the 32 bytes of `buf`.
abbrev pub printed : Bytes → Bytes
printed text = take 31 text

abbrev pub end_line : Bytes
end_line = 13 ∷ 10 ∷ []

unfoldable pub status_line : StatusCode → Bytes
status_line code = printed (codes "HTTP/1.1 " ++ to_string (code_value code) ++ codes " ")

unfoldable pub length_line : ℕ → Bytes
length_line n = printed (codes "Content-Length: " ++ to_string n ++ end_line)

unfoldable pub append_connection : Response → Buffer → Buffer
append_connection r b =
    if r.close_connection
    then append (codes "Connection: close" ++ end_line) b
    else append (codes "Connection: keep-Alive" ++ end_line)
        (append (length_line (length r.body)) b)

abbrev pub header_text : Bytes × Bytes → Bytes
header_text (key, value) = key ++ (codes ": " ++ (value ++ end_line))

-- The loop over the headers.
unfoldable pub append_headers : List (Bytes × Bytes) → Buffer → Buffer
append_headers [] b = b
append_headers (h ∷ headers) b = append_headers headers (append (c_string (header_text h)) b)

unfoldable pub append_status : Response → Buffer → Buffer
append_status r b =
    append end_line (append (c_string r.status_message) (append (status_line r.status_code) b))

unfoldable pub append_to_buffer : Response → Buffer → Buffer
append_to_buffer r b =
    append (c_string r.body)
      (append end_line (append_headers r.headers (append_connection r (append_status r b))))

-- The text that ends up behind what the buffer held.
abbrev pub headers_text : List (Bytes × Bytes) → Bytes
headers_text [] = []
headers_text (h ∷ headers) = c_string (header_text h) ++ headers_text headers

abbrev pub connection_text : Response → Bytes
connection_text r =
    if r.close_connection
    then codes "Connection: close" ++ end_line
    else length_line (length r.body) ++ (codes "Connection: keep-Alive" ++ end_line)

abbrev pub status_text : Response → Bytes
status_text r = status_line r.status_code ++ (c_string r.status_message ++ end_line)

abbrev pub text : Response → Bytes
text r =
    status_text r
    ++ (connection_text r ++ (headers_text r.headers ++ (end_line ++ c_string r.body)))

-- `b` grew by `s`, and is in order.
pub record Grows (b : Buffer) (s : Bytes) (b' : Buffer) : Type 0 where
  pub valid : IsValid b'
  pub grown : contents b' ≡ contents b ++ s

append-Grows : (s : Bytes) (b : Buffer) → IsValid b → Grows b s (append s b)
append-Grows s b v = record { valid = append-IsValid s b v; grown = contents-append s b v }

Grows-trans :
    {b b' b'' : Buffer} {s t : Bytes} → Grows b s b' → Grows b' t b'' → Grows b (s ++ t) b''
Grows-trans {b} {b'} {b''} {s} {t} g k = record {
  valid = k.valid;
  grown = k.grown ∙ ap (λ c. c ++ t) g.grown ∙ append_assoc (contents b) s t;
}

append_status-Grows :
    (r : Response) (b : Buffer) → IsValid b → Grows b (status_text r) (append_status r b)
unfolding append_status
append_status-Grows r b v =
    let line = append-Grows (status_line r.status_code) b v in
    let message = append-Grows (c_string r.status_message) _ line.valid in
    Grows-trans line (Grows-trans message (append-Grows end_line _ message.valid))

append_connection-Grows :
    (r : Response) (b : Buffer) → IsValid b → Grows b (connection_text r) (append_connection r b)
unfolding append_connection
append_connection-Grows r b v = elim (Bool-cases r.close_connection) [
  | inl e ↦ rw e (append-Grows _ b v)
  | inr e ↦ rw e (
      let line = append-Grows (length_line (length r.body)) b v in
      Grows-trans line (append-Grows (codes "Connection: keep-Alive" ++ end_line) _ line.valid))
]

append_headers-Grows :
    (headers : List (Bytes × Bytes)) (b : Buffer)
    → IsValid b
    → Grows b (headers_text headers) (append_headers headers b)
unfolding append_headers
append_headers-Grows [] b v = record { valid = v; grown = sym (append-nil (contents b)) }
append_headers-Grows (h ∷ headers) b v =
    let first = append-Grows (c_string (header_text h)) b v in
    Grows-trans first (append_headers-Grows headers _ first.valid)

-- The response is appended behind what the buffer holds, and the buffer stays in order.
pub append_to_buffer-Grows :
    (r : Response) (b : Buffer) → IsValid b → Grows b (text r) (append_to_buffer r b)
unfolding append_to_buffer
append_to_buffer-Grows r b v =
    let status = append_status-Grows r b v in
    let connection = append_connection-Grows r _ status.valid in
    let headers = append_headers-Grows r.headers _ connection.valid in
    let blank = append-Grows end_line _ headers.valid in
    Grows-trans status (
      Grows-trans connection
        (Grows-trans headers (Grows-trans blank (append-Grows (c_string r.body) _ blank.valid))))
