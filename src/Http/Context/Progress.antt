-- ===== src/Http/Context/Progress.antt =====
-- When the loop of `parseRequest` ends, and when it takes the process down.
use myoj.Common.{
  ℕ, zero, suc, ◌+◌, ◌<◌, ◌==◌, if◌then◌else◌, ◌≡◌, ◌≢◌, refl, ap, ◌∙◌, subst, Bool, true, false,
  [], ◌∷◌, ◌++◌, All, length, take, drop, arith, dec_lt, ltb_of_lt, ltb_of_le, length-drop,
  length-append,
}
use myoj.Common.Bytes.{Bytes, find_index, find_index-append}
use myoj.Net.Buffer.{Buffer, contents}
use myoj.Net.Buffer.Contents.{IsValid}
use myoj.Http.Request.{Request, add_header}
use myoj.Http.Context.{
  State, expect_request_line, expect_headers, expect_body, got_all, Context, Outcome, done, aborted,
  running, process_request_line, parse_round, parse_loop, parse_request,
}
use myoj.Http.Context.Stream.{
  End, ends, breaks, goes_on, past_line, line_round, field_round, stream_round, stream_loop,
  stream_parse, Same, parse_request-Same,
}

past_line-ne-goes_on :
    (i : ℕ) (s : Bytes) (k : Bytes → End)
    → (length (drop (i + 2) s) < length s → k (drop (i + 2) s) ≢ goes_on)
    → past_line i s k ≢ goes_on
past_line-ne-goes_on i s k h = elim (dec_lt (length s) (i + 2)) [
  | yes short ↦ rw (ltb_of_lt (length s) (i + 2) short) cc
  | no enough ↦
      rw (ltb_of_le (length s) (i + 2) (omega arith)) (h (omega (arith, length-drop {0} (i + 2) s)))
]

ends-ne-goes_on : (ok : Bool) (c : Context) (s : Bytes) → ends ok c s ≢ goes_on
ends-ne-goes_on ok c s = cc

if-ne-goes_on : (t : Bool) (e f : End) → e ≢ goes_on → f ≢ goes_on → (if t then e else f) ≢ goes_on
if-ne-goes_on true e f h k = h
if-ne-goes_on false e f h k = k

module _ (fuel time : ℕ)
    (ih : (st : State) (r : Request) (s : Bytes)
      → length s < fuel
      → st ≢ got_all
      → stream_loop fuel time (record { state = st; request = r }) s ≢ goes_on) where
  later-ne-goes_on :
      (st : State) (r : Request) (s : Bytes)
      → length s < suc fuel
      → st ≢ got_all
      → past_line (find_index 13 s) s (stream_loop fuel time (record { state = st; request = r }))
        ≢ goes_on
  later-ne-goes_on st r s h live =
      past_line-ne-goes_on (find_index 13 s) s
        (stream_loop fuel time (record { state = st; request = r }))
        (λ less. ih st r _ (omega arith) live)

  round-ne-goes_on :
      (st : State) (r : Request) (s : Bytes)
      → length s < suc fuel
      → st ≢ got_all
      → stream_round (stream_loop fuel time) time st r s ≢ goes_on
  unfolding stream_round line_round field_round
  round-ne-goes_on expect_request_line r s h live =
      let (ok, r') = process_request_line (take (find_index 13 s) s) r in
      let c : Context = record { state = expect_request_line; request = r' } in
      if-ne-goes_on _ _ _ (ends-ne-goes_on _ _ s) (
        if-ne-goes_on ok _ (ends false c s)
          (later-ne-goes_on expect_headers (record r' { receive_time = time }) s h cc)
          (ends-ne-goes_on false c s))
  round-ne-goes_on expect_headers r s h live =
      let line = take (find_index 13 s) s in
      let colon = find_index b':' line in
      if-ne-goes_on _ _ _ (ends-ne-goes_on _ _ s) (
        if-ne-goes_on (colon == length line) _ _ (later-ne-goes_on expect_body r s h cc)
          (later-ne-goes_on expect_headers (add_header line colon r) s h cc))
  round-ne-goes_on expect_body r s h live = cc
  round-ne-goes_on got_all r s h live = absurd (live refl)

loop-ne-goes_on :
    (fuel time : ℕ) (st : State) (r : Request) (s : Bytes)
    → length s < fuel
    → st ≢ got_all
    → stream_loop fuel time (record { state = st; request = r }) s ≢ goes_on
unfolding stream_loop
loop-ne-goes_on zero time st r s h live = absurd (omega arith)
loop-ne-goes_on (suc fuel) time st r s h live =
    round-ne-goes_on fuel time (loop-ne-goes_on fuel time) st r s h live

Same-running : (o : Outcome) (e : End) → Same o e → e ≢ goes_on → o ≢ running
Same-running (done ok c b) e h live = cc
Same-running aborted e h live = cc
Same-running running e h live = absurd (live h)

-- The loop of parseRequest ends, with a result or in an abort, on every buffer in order, when the
-- context has not already got the whole request.
pub parse_request-ne-running :
    (c : Context) (b : Buffer) (time : ℕ)
    → IsValid b
    → c.state ≢ got_all
    → parse_request c b time ≢ running
unfolding stream_parse
parse_request-ne-running c b time v live =
    Same-running _ _ (parse_request-Same c b time v)
      (loop-ne-goes_on _ time c.state c.request (contents b) (omega arith) live)

-- A context that has got the whole request and was not reset is never left: no number of rounds
-- ends the loop.
pub parse_loop_got_all :
    (fuel time : ℕ) (r : Request) (b : Buffer)
    → parse_loop fuel time (record { state = got_all; request = r }) b ≡ running
unfolding parse_loop parse_round
parse_loop_got_all zero time r b = refl
parse_loop_got_all (suc fuel) time r b = parse_loop_got_all fuel time r b

if_same : (t : Bool) (e : End) → (if t then e else e) ≡ e
if_same true e = refl
if_same false e = refl

stream_parse_half_crlf :
    (r : Request) (time : ℕ) (line : Bytes)
    → All (λ x. x ≢ 13) line
    → stream_parse (record { state = expect_headers; request = r }) (line ++ 13 ∷ []) time ≡ breaks
unfolding stream_parse stream_loop stream_round field_round
stream_parse_half_crlf r time line plain =
    rw (find_index-append 13 line [] plain, inside, ltb_of_lt (length s) (length line + 2) short)
      (if_same _ breaks)
  where
    s : Bytes
    s = line ++ 13 ∷ []

    short : length s < length line + 2
    short = omega (arith, length-append {0} line (13 ∷ []))

    inside : (length line == length s) ≡ false
    inside = ground (arith, short, length-append {0} line (13 ∷ []))

Same-breaks : (o : Outcome) → Same o breaks → o ≡ aborted
Same-breaks (done ok c b) h = cc
Same-breaks aborted h = refl
Same-breaks running h = cc

-- The parser looks for '\r' alone and then skips two bytes: when the readable bytes of a header line
-- end with the '\r' and its '\n' has not arrived yet, the call aborts the process.
pub parse_request_half_crlf :
    (r : Request) (b : Buffer) (time : ℕ) (line : Bytes)
    → IsValid b
    → All (λ x. x ≢ 13) line
    → contents b ≡ line ++ 13 ∷ []
    → parse_request (record { state = expect_headers; request = r }) b time ≡ aborted
parse_request_half_crlf r b time line v plain e = Same-breaks _ (
    subst (Same (parse_request (record { state = expect_headers; request = r }) b time))
      (ap (λ s. stream_parse (record { state = expect_headers; request = r }) s time) e
        ∙ stream_parse_half_crlf r time line plain)
      (parse_request-Same (record { state = expect_headers; request = r }) b time v))
