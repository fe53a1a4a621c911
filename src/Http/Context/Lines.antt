-- ===== src/Http/Context/Lines.antt =====
-- The parser on one well-formed line.
use myoj.Common.{
  ℕ, suc, ◌+◌, ◌≤◌, ◌==◌, if◌then◌else◌, ◌≡◌, ◌≢◌, refl, ap, true, false, [], ◌∷◌, ◌++◌, All,
  All-map, length, take, drop, arith, ltb_of_le, length-append, take-length, drop-append_right,
}
use myoj.Common.Bytes.{
  Bytes, codes, find_index, find_index-append, find_index_absent, lookup, insert,
}
use myoj.Http.Request.{
  Request, Method, invalid, get, post, head, put, delete, http11, set_method, set_query,
  method_string, add_header, skip_space, trim_end,
}
use myoj.Http.Context.{process_request_line, process_target, set_target, set_version, version_of}
use myoj.Http.Context.Stream.{End, past_line}

abbrev pub crlf : Bytes
crlf = 13 ∷ 10 ∷ []

-- In front of the byte that is searched for.
pub found_inside :
    (c : ℕ) (xs ys : Bytes)
    → All (λ x. x ≢ c) xs
    → (find_index c (xs ++ c ∷ ys) == length (xs ++ c ∷ ys)) ≡ false
found_inside c xs ys plain =
    rw (find_index-append c xs ys plain) (ground (arith, length-append {0} xs (c ∷ ys)))

pub past_line_lem :
    (xs ys : Bytes) (k : Bytes → End) → past_line (length xs) (xs ++ 13 ∷ 10 ∷ ys) k ≡ k ys
past_line_lem xs ys k =
    rw (ltb_of_le (length (xs ++ 13 ∷ 10 ∷ ys)) (length xs + 2) long)
      (ap k (drop-append_right (length xs + 2) 2 xs (13 ∷ 10 ∷ ys) refl))
  where
    long : length xs + 2 ≤ length (xs ++ 13 ∷ 10 ∷ ys)
    long = omega (arith, length-append {0} xs (13 ∷ 10 ∷ ys))

-- Every method but the invalid one is printed as a word without a blank, and is read back.
pub method_string-plain : (m : Method) → All (λ x. (x ≢ 32) × (x ≢ 13)) (method_string m)
unfolding method_string
method_string-plain invalid = omega arith
method_string-plain get = omega arith
method_string-plain post = omega arith
method_string-plain head = omega arith
method_string-plain put = omega arith
method_string-plain delete = omega arith

pub set_method-method_string :
    (m : Method) (r : Request)
    → m ≢ invalid
    → set_method (method_string m) (record r { method = invalid }) ≡ (true, record r { method = m })
unfolding set_method method_string lookup
set_method-method_string invalid r h = absurd (h refl)
set_method-method_string get r h = refl
set_method-method_string post r h = refl
set_method-method_string head r h = refl
set_method-method_string put r h = refl
set_method-method_string delete r h = refl

version_line :
    (r : Request) → set_version (codes "HTTP/1.1") r ≡ (true, record r { version = http11 })
unfolding set_version version_of
version_line r = refl

-- Without a question mark the whole target is the path.
set_target_plain :
    (path : Bytes) (r : Request)
    → All (λ x. x ≢ 63) path
    → set_target path r ≡ record r { path = path }
unfolding set_target
set_target_plain path r plain = rw (find_index_absent b'?' path plain) (same (length path))
  where
    same :
        (n : ℕ)
        → (if n == n
            then record r { path = path }
            else set_query (drop n path) (record r { path = take n path }))
          ≡ record r { path = path }
    same n = ground arith

abbrev pub target_line : Bytes → Bytes
target_line path = path ++ 32 ∷ codes "HTTP/1.1"

process_target_lem :
    (path : Bytes) (r : Request)
    → All (λ x. x ≢ 32) path
    → All (λ x. x ≢ 63) path
    → process_target (target_line path) r ≡ (true, record r { path = path; version = http11 })
unfolding process_target
process_target_lem path r blank question =
    rw
      (
        found_inside 32 path (codes "HTTP/1.1") blank,
        find_index-append 32 path (codes "HTTP/1.1") blank,
        take-length path (32 ∷ codes "HTTP/1.1"),
        drop-append_right (suc (length path)) 1 path (32 ∷ codes "HTTP/1.1") (omega arith),
        set_target_plain path r question,
      )
      (version_line (record r { path = path }))

-- `METHOD path HTTP/1.1`.
abbrev pub request_line : Method → Bytes → Bytes
request_line m path = method_string m ++ 32 ∷ target_line path

pub process_request_line_lem :
    (m : Method) (path : Bytes) (r : Request)
    → m ≢ invalid
    → All (λ x. x ≢ 32) path
    → All (λ x. x ≢ 63) path
    → process_request_line (request_line m path) (record r { method = invalid })
      ≡ (true, record r { method = m; path = path; version = http11 })
unfolding process_request_line
process_request_line_lem m path r h blank question =
    rw
      (
        found_inside 32 name rest plain,
        find_index-append 32 name rest plain,
        take-length name (32 ∷ rest),
        drop-append_right (suc (length name)) 1 name (32 ∷ rest) (omega arith),
        set_method-method_string m r h,
      )
      (process_target_lem path (record r { method = m }) blank question)
  where
    name : Bytes
    name = method_string m

    rest : Bytes
    rest = target_line path

    plain : All (λ x. x ≢ 32) name
    plain = All-map name (λ x p. p.0) (method_string-plain m)

-- `key: value`.
abbrev pub field_line : Bytes → Bytes → Bytes
field_line key value = key ++ 58 ∷ 32 ∷ value

-- No blank at either end.
pub record IsTrimmed (value : Bytes) : Type 0 where
  pub front : skip_space value ≡ value
  pub back : trim_end value ≡ value

skip_blank : (value : Bytes) → skip_space (32 ∷ value) ≡ skip_space value
unfolding skip_space
skip_blank value = refl

pub add_header_lem :
    (key value : Bytes) (r : Request)
    → All (λ x. x ≢ 58) key
    → IsTrimmed value
    → add_header (field_line key value) (find_index 58 (field_line key value)) r
      ≡ record r { headers = insert key value r.headers }
unfolding add_header
add_header_lem key value r plain t =
    rw
      (
        find_index-append 58 key (32 ∷ value) plain,
        take-length key (58 ∷ 32 ∷ value),
        drop-append_right (suc (length key)) 1 key (58 ∷ 32 ∷ value) (omega arith),
        skip_blank value,
        t.front,
        t.back,
      )
      refl
