-- ===== src/Http/Context/Stream.antt =====
-- The parser on the bytes alone: what `parseRequest` does is decided by the readable bytes, in
-- whatever way they lie in the buffer.
use myoj.Common.{
  ℕ, zero, suc, ◌+◌, ◌-◌, ◌==◌, ltb, if◌then◌else◌, ◌≡◌, refl, sym, ap, subst, Bool, true, false,
  Option, none, some, [], length, take, drop, arith, dec_lt, ltb_of_lt, ltb_of_le,
}
use myoj.Common.Bytes.{Bytes, find_index, find_index-le}
use myoj.Net.Buffer.{Buffer, contents, empty, find_crlf, retrieve_until, retrieve_all, retrieve}
use myoj.Net.Buffer.Contents.{IsValid, length-contents, retrieve-IsValid, contents-retrieve}
use myoj.Net.Buffer.Refinement.{retrieve_all-IsValid}
use myoj.Http.Request.{Request, add_header}
use myoj.Http.Context.{
  State, expect_request_line, expect_headers, expect_body, got_all, Context, Outcome, done, aborted,
  running, process_request_line, line_to, resume, after_line, request_line_round, header_round,
  parse_round, parse_loop, parse_request,
}

-- As `Outcome`, with the bytes that are left.
pub data End : Type 0 where
  ends : Bool → Context → Bytes → End
  breaks : End
  goes_on : End

-- Past the line that ends at `i` and the two bytes behind it.
abbrev pub past_line : ℕ → Bytes → (Bytes → End) → End
past_line i s k = if ltb (length s) (i + 2) then breaks else k (drop (i + 2) s)

unfoldable pub line_round : (Context → Bytes → End) → ℕ → ℕ → Request → Bytes → End
line_round next time i r s =
    let (ok, r') = process_request_line (take i s) r in
    if ok
    then past_line i s
        (next (record { state = expect_headers; request = record r' { receive_time = time } }))
    else ends false (record { state = expect_request_line; request = r' }) s

unfoldable pub field_round : (Context → Bytes → End) → ℕ → Request → Bytes → End
field_round next i r s =
    let line = take i s in
    let colon = find_index b':' line in
    if colon == length line
    then past_line i s (next (record { state = expect_body; request = r }))
    else past_line i s (next (record { state = expect_headers; request = add_header line colon r }))

unfoldable pub stream_round : (Context → Bytes → End) → ℕ → State → Request → Bytes → End
stream_round next time expect_request_line r s =
    if find_index 13 s == length s
    then ends true (record { state = expect_request_line; request = r }) s
    else line_round next time (find_index 13 s) r s
stream_round next time expect_headers r s =
    if find_index 13 s == length s
    then ends true (record { state = expect_headers; request = r }) s
    else field_round next (find_index 13 s) r s
stream_round next time expect_body r s =
    ends true (record { state = got_all; request = record r { body = s } }) []
stream_round next time got_all r s = next (record { state = got_all; request = r }) s

unfoldable pub stream_loop : ℕ → ℕ → Context → Bytes → End
stream_loop zero time c s = goes_on
stream_loop (suc fuel) time c s = stream_round (stream_loop fuel time) time c.state c.request s

unfoldable pub stream_parse : Context → Bytes → ℕ → End
stream_parse c s time = stream_loop (suc (length s)) time c s

-- An outcome on a buffer is that on its bytes, and leaves a buffer in order.
abbrev pub Same : Outcome → End → Type 0
Same (done ok c b) e = (e ≡ ends ok c (contents b)) × IsValid b
Same aborted e = e ≡ breaks
Same running e = e ≡ goes_on

find_crlf_lem :
    (b : Buffer)
    → IsValid b
    → find_crlf b ≡ (
        if find_index 13 (contents b) == length (contents b)
        then none
        else some (b.reader_index + find_index 13 (contents b)))
unfolding find_crlf empty
find_crlf_lem b v = ground (arith, length-contents b v, find_index-le 13 (contents b))

retrieve_until_lem :
    (i : ℕ) (b : Buffer)
    → IsValid b
    → retrieve_until (b.reader_index + i + 2) b
      ≡ (if ltb (length (contents b)) (i + 2) then none else some (retrieve (i + 2) b))
unfolding retrieve_until
retrieve_until_lem i b v = elim (dec_lt (length (contents b)) (i + 2)) [
  | yes short ↦ rw (ltb_of_lt _ _ short) (ground (arith, length-contents b v))
  | no enough ↦
      rw (ltb_of_le (length (contents b)) (i + 2) (omega arith))
        (ground (arith, length-contents b v, ap (λ k. retrieve k b) skipped))
]
  where
    skipped : b.reader_index + i + 2 - b.reader_index ≡ i + 2
    skipped = omega arith

resume-Same :
    (k : Buffer → Outcome) (k' : Bytes → End)
    → ((b : Buffer) → IsValid b → Same (k b) (k' (contents b)))
    → (i : ℕ) (b : Buffer) → IsValid b
    → Same
        (resume (if ltb (length (contents b)) (i + 2) then none else some (retrieve (i + 2) b)) k)
        (past_line i (contents b) k')
resume-Same k k' same i b v = elim (dec_lt (length (contents b)) (i + 2)) [
  | yes short ↦ rw (ltb_of_lt (length (contents b)) (i + 2) short) refl
  | no enough ↦
      rw (ltb_of_le (length (contents b)) (i + 2) (omega arith), ← contents-retrieve (i + 2) b v)
        (same (retrieve (i + 2) b) (retrieve-IsValid (i + 2) b v))
]

after_line-Same :
    (k : Buffer → Outcome) (k' : Bytes → End)
    → ((b : Buffer) → IsValid b → Same (k b) (k' (contents b)))
    → (i : ℕ) (b : Buffer) → IsValid b
    → Same (after_line (b.reader_index + i) b k) (past_line i (contents b) k')
after_line-Same k k' same i b v =
    subst (λ o. Same (resume o k) (past_line i (contents b) k')) (sym (retrieve_until_lem i b v))
      (resume-Same k k' same i b v)

line_to_lem : (i : ℕ) (b : Buffer) → line_to (b.reader_index + i) b ≡ take i (contents b)
line_to_lem i b = ap (λ k. take k (contents b)) (omega arith)

if-Same :
    (t : Bool) (o p : Outcome) (e f : End)
    → Same o e
    → Same p f
    → Same (if t then o else p) (if t then e else f)
if-Same true o p e f h k = h
if-Same false o p e f h k = k

contents-retrieve_all : (b : Buffer) → ◌≡◌ {A = Bytes} [] (contents (retrieve_all b))
unfolding retrieve_all
contents-retrieve_all b = refl

-- The line is at its end, or its `\r` is found inside.
crlf-Same :
    (k : Option ℕ → Outcome) (e f : End) (b : Buffer)
    → IsValid b
    → Same (k none) e
    → Same (k (some (b.reader_index + find_index 13 (contents b)))) f
    → Same (k (find_crlf b)) (if find_index 13 (contents b) == length (contents b) then e else f)
crlf-Same k e f b v h g =
    subst (λ o. Same (k o) (if missing then e else f)) (sym (find_crlf_lem b v)) (by_test missing)
  where
    missing : Bool
    missing = find_index 13 (contents b) == length (contents b)

    by_test :
        (t : Bool)
        → Same
            (k (if t then none else some (b.reader_index + find_index 13 (contents b))))
            (if t then e else f)
    by_test true = h
    by_test false = g

module _ (next : Context → Buffer → Outcome) (next' : Context → Bytes → End)
    (same : (c : Context) (b : Buffer) → IsValid b → Same (next c b) (next' c (contents b)))
    (time : ℕ) where
  next-Same :
      (c : Context) (i : ℕ) (b : Buffer)
      → IsValid b
      → Same (after_line (b.reader_index + i) b (next c)) (past_line i (contents b) (next' c))
  next-Same c = after_line-Same (next c) (next' c) (same c)

  request_line_round-Same :
      (i : ℕ) (r : Request) (b : Buffer)
      → IsValid b
      → Same
          (request_line_round next time
            (record { state = expect_request_line; request = r })
            b
            (some (b.reader_index + i)))
          (line_round next' time i r (contents b))
  unfolding request_line_round line_round
  request_line_round-Same i r b v =
      let (ok, r') = process_request_line (take i (contents b)) r in
      rw (line_to_lem i b) (
        if-Same ok _ _ _ _
          (next-Same
            (record { state = expect_headers; request = record r' { receive_time = time } }) i b v)
          (refl, v))

  header_round-Same :
      (i : ℕ) (r : Request) (b : Buffer)
      → IsValid b
      → Same
          (header_round next time
            (record { state = expect_headers; request = r })
            b
            (some (b.reader_index + i)))
          (field_round next' i r (contents b))
  unfolding header_round field_round
  header_round-Same i r b v =
      let line = take i (contents b) in
      let colon = find_index b':' line in
      rw (line_to_lem i b) (
        if-Same (colon == length line) _ _ _ _
          (next-Same (record { state = expect_body; request = r }) i b v)
          (next-Same (record { state = expect_headers; request = add_header line colon r }) i b v))

  round-Same :
      (st : State) (r : Request) (b : Buffer)
      → IsValid b
      → Same
          (parse_round next time st (record { state = st; request = r }) b)
          (stream_round next' time st r (contents b))
  unfolding parse_round stream_round request_line_round header_round
  round-Same expect_request_line r b v =
      crlf-Same
        (request_line_round next time (record { state = expect_request_line; request = r }) b) _ _ b
        v (refl, v) (request_line_round-Same _ r b v)
  round-Same expect_headers r b v =
      crlf-Same (header_round next time (record { state = expect_headers; request = r }) b) _ _ b v
        (refl, v) (header_round-Same _ r b v)
  round-Same expect_body r b v = (
    ap (ends true (record { state = got_all; request = record r { body = contents b } }))
        (contents-retrieve_all b),
    retrieve_all-IsValid b v,
  )
  round-Same got_all r b v = same (record { state = got_all; request = r }) b v

loop-Same :
    (fuel time : ℕ) (c : Context) (b : Buffer)
    → IsValid b
    → Same (parse_loop fuel time c b) (stream_loop fuel time c (contents b))
unfolding parse_loop stream_loop
loop-Same zero time c b v = refl
loop-Same (suc fuel) time c b v =
    round-Same (parse_loop fuel time) (stream_loop fuel time) (loop-Same fuel time) time c.state
      c.request b v

-- A call of parseRequest on a buffer in order ends as the parser on the readable bytes ends, in
-- whatever way the bytes lie in the buffer, and leaves the bytes which that leaves, in a buffer
-- that is again in order.
pub parse_request-Same :
    (c : Context) (b : Buffer) (time : ℕ)
    → IsValid b
    → Same (parse_request c b time) (stream_parse c (contents b) time)
unfolding parse_request stream_parse
parse_request-Same c b time v = loop-Same _ time c b v
