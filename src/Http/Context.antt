-- ===== src/Http/Context.antt =====
-- include/http/HttpContext.h and src/http/HttpContext.cc: the request parser of a connection, which
-- keeps its state between the pieces that the socket delivers.
pub mod Stream
pub mod Progress
pub mod Lines
pub mod Roundtrip
use myoj.Common.{
  ℕ, zero, suc, ◌+◌, ◌-◌, ◌==◌, ltb, if◌then◌else◌, Bool, true, false, ◌&&◌, Option, none, some,
  List, [], ◌∷◌, ◌++◌, length, take, drop,
}
use myoj.Common.Bytes.{Bytes, codes, find_index, bytes_eq}
use myoj.Net.Buffer.{Buffer, contents, find_crlf, retrieve_until, retrieve_all}
use myoj.Http.Request.{
  Request, Version, http10, http11, fresh_request, set_method, set_query, add_header, swap,
}

pub data State : Type 0 where
  expect_request_line expect_headers expect_body got_all : State

pub record Context : Type 0 where
  pub state : State
  pub request : Request

abbrev pub make_context : Context
make_context = record { state = expect_request_line; request = fresh_request }

unfoldable pub get_all : Context → Bool
get_all c = elim c.state [ got_all ↦ true | _ ↦ false ]

unfoldable pub reset : Context → Context
unfolding swap
reset c = record { state = expect_request_line; request = (swap c.request fresh_request).0 }

-- `setPath` and, behind a question mark, `setQuery`, for the range between the two spaces. The
-- query keeps its question mark.
unfoldable pub set_target : Bytes → Request → Request
set_target target r =
    let question = find_index b'?' target in
    if question == length target
    then record r { path = target }
    else set_query (drop question target) (record r { path = take question target })

-- The range behind the second space: `succeed` and the version that is set.
unfoldable pub version_of : Bytes → Option Version
version_of text =
    if length text == 8 && bytes_eq (take 7 text) (codes "HTTP/1.")
    then (if bytes_eq (drop 7 text) (codes "1")
        then some http11
        else (if bytes_eq (drop 7 text) (codes "0") then some http10 else none))
    else none

unfoldable pub set_version : Bytes → Request → Bool × Request
set_version text r = elim (version_of text) [
  | some v ↦ (true, record r { version = v })
  | none ↦ (false, r)
]

-- The part of `processRequestLine` behind the first space.
unfoldable pub process_target : Bytes → Request → Bool × Request
process_target rest r =
    let space = find_index b' ' rest in
    if space == length rest
    then (false, r)
    else set_version (drop (suc space) rest) (set_target (take space rest) r)

-- `processRequestLine`, on the range from `begin` to `end`.
unfoldable pub process_request_line : Bytes → Request → Bool × Request
process_request_line line r =
    let space = find_index b' ' line in
    if space == length line
    then (false, r)
    else (let (found, r') = set_method (take space line) r in
        if found then process_target (drop (suc space) line) r' else (false, r'))

-- How a call of `parseRequest` ends: with its result, in an abort, or not within the rounds given.
pub data Outcome : Type 0 where
  done : Bool → Context → Buffer → Outcome
  aborted : Outcome
  running : Outcome

-- The bytes of the line that ends at `crlf`.
abbrev pub line_to : ℕ → Buffer → Bytes
line_to crlf b = take (crlf - b.reader_index) (contents b)

abbrev pub resume : Option Buffer → (Buffer → Outcome) → Outcome
resume none k = aborted
resume (some b) k = k b

-- `retrieveUntil(crlf + 2)`, and what is done then.
abbrev pub after_line : ℕ → Buffer → (Buffer → Outcome) → Outcome
after_line crlf b k = resume (retrieve_until (crlf + 2) b) k

-- The rounds of the loop: `next` is the rest of the loop, entered when `hasMore` stays true.
module _ (next : Context → Buffer → Outcome) (time : ℕ) where
  unfoldable pub request_line_round : Context → Buffer → Option ℕ → Outcome
  request_line_round c b none = done true c b
  request_line_round c b (some crlf) =
      let (ok, r) = process_request_line (line_to crlf b) c.request in
      if ok
      then after_line crlf b
          (next (record { state = expect_headers; request = record r { receive_time = time } }))
      else done false (record c { request = r }) b

  unfoldable pub header_round : Context → Buffer → Option ℕ → Outcome
  header_round c b none = done true c b
  header_round c b (some crlf) =
      let line = line_to crlf b in
      let colon = find_index b':' line in
      if colon == length line
      then after_line crlf b (next (record c { state = expect_body }))
      else after_line crlf b (next (record c { request = add_header line colon c.request }))

  unfoldable pub parse_round : State → Context → Buffer → Outcome
  parse_round expect_request_line c b = request_line_round c b (find_crlf b)
  parse_round expect_headers c b = header_round c b (find_crlf b)
  parse_round expect_body c b =
      done true (record { state = got_all; request = record c.request { body = contents b } })
        (retrieve_all b)
  parse_round got_all c b = next c b

-- The loop of `parseRequest`, for at most `fuel` rounds.
unfoldable pub parse_loop : ℕ → ℕ → Context → Buffer → Outcome
parse_loop zero time c b = running
parse_loop (suc fuel) time c b = parse_round (parse_loop fuel time) time c.state c b

-- Every round but the last takes a line of at least two bytes or leaves a state behind.
unfoldable pub parse_request : Context → Buffer → ℕ → Outcome
parse_request c b time = parse_loop (suc (length (contents b))) time c b
