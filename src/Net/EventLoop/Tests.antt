-- ===== src/Net/EventLoop/Tests.antt =====
-- Runs of a loop, and the theorem on one.
use myoj.Common.{◌<◌, ◌≡◌, ◌≢◌, refl, true, false, [], ◌∷◌}
use myoj.Net.EventLoop.{
  EventLoop, make_event_loop, waiting, queue_in_loop, quit_loop, start, iteration, next_iteration,
  take_functors, call_functor, end_functors, call_functors,
}
use myoj.Net.EventLoop.Wakeups.{Reachable, here, next, started, queued_elsewhere, Reachable-heard}

loop_code : Unit {0}
unfolding queue_in_loop quit_loop start iteration next_iteration take_functors call_functor
    end_functors call_functors
loop_code = tt

-- Two functors arrive from another thread while the loop sleeps.
abbrev asleep : EventLoop
asleep = queue_in_loop false 2 (queue_in_loop false 1 (start make_event_loop))

asleep-Reachable : Reachable asleep
asleep-Reachable = next (next (next here (started refl)) (queued_elsewhere 1)) (queued_elsewhere 2)

Reachable-heard_example :
    (asleep.pending_functors ≢ [] → 0 < asleep.wakeups)
    × (asleep.quit ≡ true → 0 < asleep.wakeups)
    × ((iteration asleep).called ≡ asleep.queued)
    × ((iteration asleep).pending_functors ≡ [])
unfolding loop_code
Reachable-heard_example = Reachable-heard asleep-Reachable refl

both_called : (iteration asleep).called ≡ 1 ∷ 2 ∷ []
unfolding loop_code
both_called = refl

-- `loop` forgets a `quit` that came before it.
quit_before : (start (quit_loop false make_event_loop)).phase ≡ waiting
unfolding loop_code
quit_before = refl

-- A functor that the loop's own thread queues before `loop` wakes nobody.
queued_before : (start (queue_in_loop true 1 make_event_loop)).wakeups ≡ 0
unfolding loop_code
queued_before = refl
