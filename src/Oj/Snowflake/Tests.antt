-- ===== src/Oj/Snowflake/Tests.antt =====
-- Identifiers of a generator, and their order.
use myoj.Common.{ℕ, ◌+◌, ◌≡◌, refl, none, some, List, [], ◌∷◌, arith}
use myoj.Oj.Snowflake.{
  Snowflake, twepoch, init, fresh_snowflake, next_id, next_id_at, issue, issue_later, next_sequence,
  wait_next_millis, is_same, compose,
}
use myoj.Oj.Snowflake.Order.{ids, IsRising, ids-IsRising}

snowflake_code : Unit {0}
unfolding init next_id next_id_at issue issue_later next_sequence wait_next_millis is_same compose
snowflake_code = tt

abbrev generator : Snowflake
generator = record { last_timestamp = none; worker_id = 1; datacenter_id = 1; sequence = 0 }

one_generator : init 1 1 fresh_snowflake ≡ some generator
unfolding snowflake_code
one_generator = refl

-- Two identifiers within a millisecond, and one in the next.
abbrev clock : List ℕ
clock = (twepoch + 1) ∷ (twepoch + 1) ∷ (twepoch + 2) ∷ []

three_ids : ids 3 clock generator ≡ (4329472 ∷ 4329473 ∷ 8523776 ∷ [])
unfolding snowflake_code
three_ids = refl

ids-IsRising_example : IsRising (ids 3 clock generator)
ids-IsRising_example =
    ids-IsRising 1 1 generator 3 clock one_generator
      ((omega arith, omega arith), ((omega arith, omega arith), ((omega arith, omega arith), tt)))
