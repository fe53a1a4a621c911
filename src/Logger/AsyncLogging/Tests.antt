-- ===== src/Logger/AsyncLogging/Tests.antt =====
-- Runs of the buffers and the thread, and the theorem on one of them.
use myoj.Common.{◌≡◌, refl, Option, some, none, [], ◌++◌}
use myoj.Common.Bytes.{Bytes, codes}
use myoj.Logger.FixedBuffer.{append}
use myoj.Logger.AsyncLogging.{
  AsyncLogging, make_async_logging, start, stop, append_at, append_line, fill_next, swap_at,
  recycle, resized, recycled1, recycled2, finish_round, step_from, thread_step,
}
use myoj.Logger.AsyncLogging.Kept.{kept, all_text}
use myoj.Logger.AsyncLogging.Reaches.{Reachable, made, starts, appends, works, Reachable-all_text}

async_code : Unit {0}
unfolding append append_at append_line fill_next swap_at recycle resized recycled1 recycled2
    finish_round step_from thread_step
async_code = tt

abbrev or_made : Option AsyncLogging → AsyncLogging
or_made none = make_async_logging
or_made (some s) = s

-- A line, the block under the lock, another line, and the rest of the round.
abbrev one_line : AsyncLogging
one_line = or_made (append_line (codes "up") (start make_async_logging))

abbrev locked : AsyncLogging
locked = or_made (thread_step one_line)

abbrev two_lines : AsyncLogging
two_lines = or_made (append_line (codes "down") locked)

abbrev one_written : AsyncLogging
one_written = or_made (thread_step two_lines)

first_line : one_written.output ≡ codes "up"
unfolding async_code
first_line = refl

-- A line that is appended while the thread writes is lost when it is stopped then.
abbrev stopped : AsyncLogging
stopped = or_made (thread_step (or_made (thread_step (stop two_lines))))

second_line_lost : stopped.output ≡ codes "up"
unfolding async_code
second_line_lost = refl

one_written-Reachable : Reachable one_written ((([]) ++ kept (codes "up")) ++ kept (codes "down"))
unfolding async_code
one_written-Reachable =
    works (appends (codes "down") (works (appends (codes "up") (starts made refl) refl) refl) refl)
      refl

Reachable-all_text_example :
    (all_text one_written ≡ ([] ++ kept (codes "up")) ++ kept (codes "down"))
    × ((l : Bytes) → (t : AsyncLogging) × (append_line l one_written ≡ some t))
    × ((t : AsyncLogging) × (thread_step one_written ≡ some t))
Reachable-all_text_example = Reachable-all_text one_written-Reachable
