-- ===== src/Net/EventLoop.antt =====
-- include/net/EventLoop.h and src/net/EventLoop.cc: the queue of functors, the wake-up descriptor and the
-- iterations of the loop. A functor is known by its number; what it does to the loop are further calls.
-- The loop's thread is at one of four places; a call says whether it is made in the loop's thread.
pub mod Wakeups
pub mod Tests
use myoj.Common.{ℕ, suc, Bool, true, false, not, ◌||◌, if◌then◌else◌, List, [], ◌∷◌, ◌++◌}

-- Outside `loop`, in `poll`, in the callbacks of the channels, and in `doPendingFunctors`.
pub data Phase : Type 0 where
  stopped waiting handling calling : Phase

-- `wakeups` is the counter of the event descriptor, which is readable when it is not 0. `functors` is
-- the vector of `doPendingFunctors`. The last three fields record what was queued, what was called out
-- of the queue and what was called at once.
pub record EventLoop : Type 0 where
  pub phase : Phase
  pub looping : Bool
  pub quit : Bool
  pub calling_pending_functors : Bool
  pub pending_functors : List ℕ
  pub functors : List ℕ
  pub wakeups : ℕ
  pub queued : List ℕ
  pub called : List ℕ
  pub called_at_once : List ℕ

abbrev pub make_event_loop : EventLoop
make_event_loop = record {
  phase = stopped;
  looping = false;
  quit = false;
  calling_pending_functors = false;
  pending_functors = [];
  functors = [];
  wakeups = 0;
  queued = [];
  called = [];
  called_at_once = [];
}

abbrev pub wakeup : EventLoop → EventLoop
wakeup l = record l { wakeups = suc l.wakeups }

abbrev pub handle_read : EventLoop → EventLoop
handle_read l = record l { wakeups = 0 }

unfoldable pub queue_in_loop : Bool → ℕ → EventLoop → EventLoop
queue_in_loop in_loop_thread cb l =
    let added = record l {
      pending_functors = l.pending_functors ++ cb ∷ [];
      queued = l.queued ++ cb ∷ [];
    } in
    if not in_loop_thread || l.calling_pending_functors then wakeup added else added

unfoldable pub run_in_loop : Bool → ℕ → EventLoop → EventLoop
run_in_loop in_loop_thread cb l =
    if in_loop_thread
    then record l { called_at_once = l.called_at_once ++ cb ∷ [] }
    else queue_in_loop in_loop_thread cb l

unfoldable pub quit_loop : Bool → EventLoop → EventLoop
quit_loop in_loop_thread l =
    if in_loop_thread then record l { quit = true } else wakeup (record l { quit = true })

-- The test of `while(!quit_)`.
unfoldable pub next_iteration : EventLoop → EventLoop
next_iteration l =
    if l.quit then record l { phase = stopped; looping = false } else record l { phase = waiting }

unfoldable pub start : EventLoop → EventLoop
start l = next_iteration (record l { looping = true; quit = false })

-- `poll` has returned.
abbrev pub poll_returns : EventLoop → EventLoop
poll_returns l = record l { phase = handling }

-- The start of `doPendingFunctors`, up to the swap.
unfoldable pub take_functors : EventLoop → EventLoop
take_functors l = record l {
  phase = calling;
  calling_pending_functors = true;
  functors = l.pending_functors;
  pending_functors = [];
}

unfoldable pub call_functor : ℕ → List ℕ → EventLoop → EventLoop
call_functor cb rest l = record l { functors = rest; called = l.called ++ cb ∷ [] }

-- The end of `doPendingFunctors`, and of the iteration.
unfoldable pub end_functors : EventLoop → EventLoop
end_functors l = next_iteration (record l { calling_pending_functors = false })

-- The loop over the functors, when nothing else happens.
unfoldable pub call_functors : List ℕ → EventLoop → EventLoop
call_functors [] l = end_functors l
call_functors (cb ∷ rest) l = call_functors rest (call_functor cb rest l)

-- An iteration behind `poll` in which the channels' callbacks only read the wake-up descriptor.
unfoldable pub iteration : EventLoop → EventLoop
iteration l =
    let taken = take_functors (handle_read (poll_returns l)) in call_functors taken.functors taken
