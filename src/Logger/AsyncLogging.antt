-- ===== src/Logger/AsyncLogging.antt =====
-- include/logger/AsyncLogging.h and src/logger/AsyncLogging.cpp: the buffers that the callers fill and that
-- a thread of its own writes out. A `unique_ptr` is an option, and going through one that is empty, or
-- taking the last element of an empty vector, is none. The variables of `threadFunc` are members of the
-- state; `output` is what the file was given. What a round does after the lock is released touches only
-- the thread's own variables, so it is one step.
pub mod Kept
pub mod Reaches
pub mod Rounds
pub mod Tests
use myoj.Common.{
  ℕ, Bool, true, false, ltb, if◌then◌else◌, Option, none, some, List, [], ◌∷◌, ◌++◌, length, take,
}
use myoj.Common.Bytes.{Bytes}
use myoj.Logger.FixedBuffer.{FixedBuffer, make_fixed_buffer, avail, append, reset}

abbrev pub k_large_buffer : ℕ
k_large_buffer = 4000000

abbrev pub new_buffer : FixedBuffer
new_buffer = make_fixed_buffer k_large_buffer

-- Where the thread is: not started, at the head of its loop, behind the lock, or at its end.
pub data Phase : Type 0 where
  idle at_head behind_lock ended : Phase

pub record AsyncLogging : Type 0 where
  pub running : Bool
  pub phase : Phase
  pub current_buffer : Option FixedBuffer
  pub next_buffer : Option FixedBuffer
  pub buffers : List FixedBuffer
  pub new_buffer1 : Option FixedBuffer
  pub new_buffer2 : Option FixedBuffer
  pub buffers_to_write : List FixedBuffer
  pub output : Bytes

abbrev pub make_async_logging : AsyncLogging
make_async_logging = record {
  running = false;
  phase = idle;
  current_buffer = some new_buffer;
  next_buffer = some new_buffer;
  buffers = [];
  new_buffer1 = some new_buffer;
  new_buffer2 = some new_buffer;
  buffers_to_write = [];
  output = [];
}

abbrev pub start : AsyncLogging → AsyncLogging
start s = record s { running = true; phase = at_head }

-- `stop`, up to the join.
abbrev pub stop : AsyncLogging → AsyncLogging
stop s = record s { running = false }

abbrev pub or_new : Option FixedBuffer → FixedBuffer
or_new none = new_buffer
or_new (some b) = b

unfoldable pub append_at : Option FixedBuffer → Bytes → AsyncLogging → Option AsyncLogging
append_at none log_line s = none
append_at (some b) log_line s = some (
    if ltb (length log_line) (avail b)
    then record s { current_buffer = some (append log_line b) }
    else record s {
      buffers = s.buffers ++ b ∷ [];
      current_buffer = some (append log_line (or_new s.next_buffer));
      next_buffer = none;
    })

-- `append`.
unfoldable pub append_line : Bytes → AsyncLogging → Option AsyncLogging
append_line log_line s = append_at s.current_buffer log_line s

-- `if(!nextBuffer_) nextBuffer_ = std::move(newBuffer2)`, both pointers after it.
unfoldable pub fill_next :
    Option FixedBuffer → Option FixedBuffer → Option FixedBuffer × Option FixedBuffer
fill_next none b2 = (b2, none)
fill_next (some b) b2 = (some b, b2)

-- The block under the lock. An empty pointer that is pushed is gone through by the loop that follows.
unfoldable pub swap_at : Option FixedBuffer → AsyncLogging → Option AsyncLogging
swap_at none s = none
swap_at (some b) s = some (record s {
  phase = behind_lock;
  current_buffer = s.new_buffer1;
  new_buffer1 = none;
  buffers_to_write = s.buffers ++ b ∷ [];
  buffers = s.buffers_to_write;
  next_buffer = (fill_next s.next_buffer s.new_buffer2).0;
  new_buffer2 = (fill_next s.next_buffer s.new_buffer2).1;
})

abbrev pub texts : List FixedBuffer → Bytes
texts [] = []
texts (b ∷ bs) = b.text ++ texts bs

abbrev pub back : FixedBuffer → List FixedBuffer → FixedBuffer
back b [] = b
back b (c ∷ bs) = back c bs

abbrev pub pop_back : FixedBuffer → List FixedBuffer → List FixedBuffer
pop_back b [] = []
pop_back b (c ∷ bs) = b ∷ pop_back c bs

-- A buffer for the thread, which it takes from the end of the vector where it has none.
unfoldable pub recycle :
    Option FixedBuffer → List FixedBuffer → Option (FixedBuffer × List FixedBuffer)
recycle (some b) bs = some (b, bs)
recycle none [] = none
recycle none (b ∷ bs) = some (reset (back b bs), pop_back b bs)

unfoldable pub resized : List FixedBuffer → List FixedBuffer
resized bs = if ltb 2 (length bs) then take 2 bs else bs

unfoldable pub recycled2 :
    AsyncLogging → FixedBuffer → Option (FixedBuffer × List FixedBuffer) → Option AsyncLogging
recycled2 s b1 none = none
recycled2 s b1 (some r) = some (record s {
  phase = at_head;
  output = s.output ++ texts s.buffers_to_write;
  new_buffer1 = some b1;
  new_buffer2 = some r.0;
  buffers_to_write = [];
})

unfoldable pub recycled1 :
    AsyncLogging → Option (FixedBuffer × List FixedBuffer) → Option AsyncLogging
recycled1 s none = none
recycled1 s (some r) = recycled2 s r.0 (recycle s.new_buffer2 r.1)

-- The rest of a round: writing, and the buffers for the next one.
unfoldable pub finish_round : AsyncLogging → Option AsyncLogging
finish_round s = recycled1 s (recycle s.new_buffer1 (resized s.buffers_to_write))

unfoldable pub step_from : Phase → AsyncLogging → Option AsyncLogging
step_from idle s = some s
step_from at_head s =
    if s.running then swap_at s.current_buffer s else some (record s { phase = ended })
step_from behind_lock s = finish_round s
step_from ended s = some s

-- The next step of `threadFunc`.
unfoldable pub thread_step : AsyncLogging → Option AsyncLogging
thread_step s = step_from s.phase s
