-- ===== src/Timer/TimerQueue/Tests.antt =====
-- A queue with a repeated timer, and the theorems on it.
use myoj.Common.{ℕ, ◌≡◌, refl, some, none, [], ◌∷◌, ltb}
use myoj.Timer.TimerQueue.{
  Entry, TimerQueue, insert_entry, earliest_changed, add_timer_in_loop, get_expired, arm, reset_one,
  reset, handle_read,
}

timer_code : Unit {0}
unfolding insert_entry earliest_changed add_timer_in_loop get_expired arm reset_one reset
    handle_read
timer_code = tt

abbrev at : ℕ → ℕ → ℕ → Entry
at t a i = record { expiration = t; address = a; interval = i; repeats = ltb 0 i }

abbrev two : TimerQueue
two = record { timers = at 100 1 50 ∷ at 300 2 0 ∷ []; armed = some 100; calls = [] }

-- The first timer is called at 120 and is due again at 175.
fired :
    handle_read 120 (λ i. 125) two
    ≡ record { timers = at 175 1 50 ∷ at 300 2 0 ∷ []; armed = some 175; calls = 1 ∷ [] }
unfolding timer_code
fired = refl

-- When it fires too early, nothing is due and the descriptor is not set again.
fired_early : (handle_read 99 (λ i. 99) two).armed ≡ none
unfolding timer_code
fired_early = refl

due : (get_expired 120 two.timers).0 ≡ (at 100 1 50 ∷ [])
unfolding timer_code
due = refl
