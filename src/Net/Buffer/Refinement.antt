-- ===== src/Net/Buffer/Refinement.antt =====
-- The buffer as a queue of bytes: whatever the calls, the client sees what it put in, in order.
use myoj.Common.{
  ℕ, ◌≤◌, ◌<◌, ◌≡◌, refl, ap, ◌∙◌, List, [], ◌∷◌, ◌++◌, take, drop, ◌⊎◌, inl, inr, none, some,
  arith, dec_lt, ltb_of_lt, ltb_of_le, take-take,
}
use myoj.Common.Bytes.{Bytes}
use myoj.Net.Buffer.{
  Buffer, make_buffer, readable_bytes, contents, retrieve, retrieve_all, retrieve_as_string,
  ensure_writeable_bytes, append, read_fd,
}
use myoj.Net.Buffer.Contents.{IsValid, make_buffer-IsValid, retrieve-IsValid, contents-retrieve}
use myoj.Net.Buffer.Space.{
  ensure_writeable_bytes-Makes, append-IsValid, contents-append, read_fd-IsValid, contents-read_fd,
}

-- The calls that change a buffer; `reads` is `readFd` with the bytes that the socket delivered.
pub data Call : Type 0 where
  retrieves : ℕ → Call
  retrieves_all : Call
  ensures : ℕ → Call
  appends : Bytes → Call
  reads : Bytes → Call

unfoldable pub step : Buffer → Call → Buffer
step b (retrieves len) = retrieve len b
step b retrieves_all = retrieve_all b
step b (ensures len) = ensure_writeable_bytes len b
step b (appends src) = append src b
step b (reads src) = read_fd src b

unfoldable pub run : Buffer → List Call → Buffer
run b [] = b
run b (c ∷ cs) = run (step b c) cs

-- The same calls on a queue of bytes.
unfoldable pub queue_step : Bytes → Call → Bytes
queue_step q (retrieves len) = drop len q
queue_step q retrieves_all = []
queue_step q (ensures len) = q
queue_step q (appends src) = q ++ src
queue_step q (reads src) = q ++ src

unfoldable pub queue_run : Bytes → List Call → Bytes
queue_run q [] = q
queue_run q (c ∷ cs) = queue_run (queue_step q c) cs

pub retrieve_all-IsValid : (b : Buffer) → IsValid b → IsValid (retrieve_all b)
unfolding retrieve_all
retrieve_all-IsValid b v = omega arith

step-IsValid : (b : Buffer) (c : Call) → IsValid b → IsValid (step b c)
unfolding step
step-IsValid b (retrieves len) v = retrieve-IsValid len b v
step-IsValid b retrieves_all v = retrieve_all-IsValid b v
step-IsValid b (ensures len) v = (ensure_writeable_bytes-Makes len b v).valid
step-IsValid b (appends src) v = append-IsValid src b v
step-IsValid b (reads src) v = read_fd-IsValid src b v

contents-step :
    (b : Buffer) (c : Call) → IsValid b → contents (step b c) ≡ queue_step (contents b) c
unfolding step queue_step retrieve_all
contents-step b (retrieves len) v = contents-retrieve len b v
contents-step b retrieves_all v = refl
contents-step b (ensures len) v = (ensure_writeable_bytes-Makes len b v).same
contents-step b (appends src) v = contents-append src b v
contents-step b (reads src) v = contents-read_fd src b v

run-refines :
    (b : Buffer) (cs : List Call)
    → IsValid b
    → IsValid (run b cs) × (contents (run b cs) ≡ queue_run (contents b) cs)
unfolding run queue_run
run-refines b [] v = (v, refl)
run-refines b (c ∷ cs) v =
    let (valid, same) = run-refines (step b c) cs (step-IsValid b c v) in
    (valid, same ∙ ap (λ q. queue_run q cs) (contents-step b c v))

contents-make_buffer : (size : ℕ) → contents (make_buffer size) ≡ []
unfolding make_buffer
contents-make_buffer size = refl

-- A buffer that starts empty, of any size, behaves as an unbounded first-in first-out queue of
-- bytes: after any sequence of retrieve, retrieveAll, ensureWriteableBytes, append and readFd its
-- readable bytes are those of the queue, and its indices stay in order and inside the vector.
pub run-make_buffer :
    (size : ℕ) (cs : List Call)
    → IsValid (run (make_buffer size) cs) × (contents (run (make_buffer size) cs) ≡ queue_run [] cs)
run-make_buffer size cs =
    let (valid, same) = run-refines (make_buffer size) cs (make_buffer-IsValid size) in
    (valid, same ∙ ap (λ q. queue_run q cs) (contents-make_buffer size))

retrieve_as_string_enough :
    (len : ℕ) (b : Buffer)
    → IsValid b
    → len ≤ readable_bytes b
    → retrieve_as_string len b ≡ some (take len (contents b), retrieve len b)
unfolding retrieve_as_string
retrieve_as_string_enough len b v h = rw (
  ltb_of_le (readable_bytes b) len h,
  take-take len (readable_bytes b) (drop b.reader_index b.buffer) h,
)

-- retrieveAsString hands out the first bytes and keeps the others when so many are there, and
-- otherwise aborts the process.
pub retrieve_as_string_splits :
    (len : ℕ) (b : Buffer)
    → IsValid b
    → ((len ≤ readable_bytes b)
        × ((b' : Buffer) × (retrieve_as_string len b ≡ some (take len (contents b), b'))
            × (contents b' ≡ drop len (contents b))
            × IsValid b'))
      ⊎ ((readable_bytes b < len) × (retrieve_as_string len b ≡ none))
unfolding retrieve_as_string
retrieve_as_string_splits len b v = elim (dec_lt (readable_bytes b) len) [
  | yes short ↦ inr (short, rw (ltb_of_lt _ _ short))
  | no enough ↦
      let h : len ≤ readable_bytes b = omega arith in
      inl (
        h,
        (
          retrieve len b,
          retrieve_as_string_enough len b v h,
          contents-retrieve len b v,
          retrieve-IsValid len b v,
        ),
      )
]
