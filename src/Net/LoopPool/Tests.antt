-- ===== src/Net/LoopPool/Tests.antt =====
-- Three loops, and the choice among them.
use myoj.Common.{ℕ, ◌≤◌, ◌<◌, ◌≡◌, refl, some, [], ◌∷◌, arith}
use myoj.Net.LoopPool.{
  LoopPool, load_at, min_load_loop, get_next_loop_by_min_load, get_next_loop_by_rb,
}
use myoj.Net.LoopPool.Choice.{get_next_loop_by_min_load-least}

pool_code : Unit {0}
unfolding min_load_loop get_next_loop_by_min_load get_next_loop_by_rb
pool_code = tt

abbrev at_two : LoopPool
at_two = record { next = 2; thread_pos = 2 }

-- The search begins at the third loop and ends at the idle first one.
idle_found :
    get_next_loop_by_min_load (0 ∷ 30 ∷ 20 ∷ []) at_two
    ≡ (some 0, record { next = 2; thread_pos = 0 })
unfolding pool_code
idle_found = refl

rotated : get_next_loop_by_rb 3 at_two ≡ (some 2, record { next = 0; thread_pos = 2 })
unfolding pool_code
rotated = refl

get_next_loop_by_min_load-least_example :
    (best : ℕ) × ((get_next_loop_by_min_load (40 ∷ 30 ∷ 20 ∷ []) at_two).0 ≡ some best)
    × (best < 3)
    × (load_at (40 ∷ 30 ∷ 20 ∷ []) best ≤ 30)
get_next_loop_by_min_load-least_example =
    get_next_loop_by_min_load-least (40 ∷ 30 ∷ 20 ∷ []) at_two 1 (omega arith)
