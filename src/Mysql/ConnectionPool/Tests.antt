-- ===== src/Mysql/ConnectionPool/Tests.antt =====
-- A pool at its limit, and the bound.
use myoj.Common.{◌≡◌, refl, some, [], ◌∷◌}
use myoj.Mysql.ConnectionPool.{
  Config, Pool, add_connection, add_and_count, add_all, make_pool, produce_connection,
  recycle_queue, recycle_connection, take_front, get_connection, give_back,
}
use myoj.Mysql.ConnectionPool.Bounds.{
  Reachable, made, produced, got, IsBounded, Reachable-IsBounded,
}

pool_code : Unit {0}
unfolding add_connection add_and_count add_all make_pool produce_connection recycle_queue
    recycle_connection take_front get_connection give_back
pool_code = tt

abbrev four : Config
four = record { min_size = 1; max_size = 4; max_idle_time = 10 }

abbrev one_out : Pool
one_out = record { connection_queue = []; current_size = 2; in_use = 1 }

takes_the_first : get_connection (make_pool four 0) ≡ some one_out
unfolding pool_code
takes_the_first = refl

one_out-Reachable : Reachable four one_out
one_out-Reachable = got (make_pool four 0) one_out (made 0) takes_the_first

-- One more is made; with two of the allowed four the pool counts itself as full.
two_is_full :
    produce_connection four 5 one_out
    ≡ record { connection_queue = 5 ∷ []; current_size = 4; in_use = 1 }
unfolding pool_code
two_is_full = refl

-- With these two handed out, a third user waits for one of them.
abbrev dry : Pool
dry = record { connection_queue = []; current_size = 4; in_use = 2 }

stays_dry : produce_connection four 9 dry ≡ dry
unfolding pool_code
stays_dry = refl

Reachable-IsBounded_example : IsBounded four (produce_connection four 5 one_out)
Reachable-IsBounded_example =
    Reachable-IsBounded four (produce_connection four 5 one_out)
      (produced one_out 5 one_out-Reachable)
