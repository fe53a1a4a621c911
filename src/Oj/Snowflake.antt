-- ===== src/Oj/Snowflake.antt =====
-- oj/src/utils/snowflake.hpp: identifiers from the time, the machine and a sequence number. The clock
-- is the list of the milliseconds that its readings give; it is steady. An `int64_t` stands as its 64
-- bits. Up to 41 bits of time, that is before the year 2088, the shifts of `nextid` do not overflow;
-- past them the bits that do not fit are cut off here, where C++ leaves it undefined.
pub mod Bits
pub mod Step
pub mod Order
pub mod Tests
use Prim.Native.Nat.{bit_and, bit_or}
use myoj.Common.{
  ℕ, zero, suc, ◌+◌, ◌-◌, ◌*◌, ◌%◌, ◌^◌, Bool, true, false, ◌||◌, Option, none, some, List, [], ◌∷◌,
  ltb, leb, ◌==◌, if◌then◌else◌,
}

-- `TWEPOCH` of the instance in UserList.cpp.
abbrev pub twepoch : ℕ
twepoch = 1534832906275

abbrev pub worker_id_bits : ℕ
worker_id_bits = 5

abbrev pub datacenter_id_bits : ℕ
datacenter_id_bits = 5

abbrev pub sequence_bits : ℕ
sequence_bits = 12

abbrev pub max_worker_id : ℕ
max_worker_id = 2 ^ worker_id_bits - 1

abbrev pub max_datacenter_id : ℕ
max_datacenter_id = 2 ^ datacenter_id_bits - 1

abbrev pub worker_id_shift : ℕ
worker_id_shift = sequence_bits

abbrev pub datacenter_id_shift : ℕ
datacenter_id_shift = sequence_bits + worker_id_bits

abbrev pub timestamp_left_shift : ℕ
timestamp_left_shift = sequence_bits + worker_id_bits + datacenter_id_bits

abbrev pub sequence_mask : ℕ
sequence_mask = 2 ^ sequence_bits - 1

-- `last_timestamp` is none for the initial -1.
pub record Snowflake : Type 0 where
  pub last_timestamp : Option ℕ
  pub worker_id : ℕ
  pub datacenter_id : ℕ
  pub sequence : ℕ

abbrev pub fresh_snowflake : Snowflake
fresh_snowflake = record { last_timestamp = none; worker_id = 0; datacenter_id = 0; sequence = 0 }

-- `init`; none is the exception. Negative numbers are refused too, and no natural ones.
unfoldable pub init : ℕ → ℕ → Snowflake → Option Snowflake
init worker datacenter s =
    if ltb max_worker_id worker || ltb max_datacenter_id datacenter
    then none
    else some (record s { worker_id = worker; datacenter_id = datacenter })

-- `wait_next_millis` reads the clock until it is past `last`; none when the readings end before.
unfoldable pub wait_next_millis : ℕ → List ℕ → Option (ℕ × List ℕ)
wait_next_millis last [] = none
wait_next_millis last (t ∷ clock) =
    let later = wait_next_millis last clock in if leb t last then later else some (t, clock)

infixl 55 ◌<<<◌
abbrev pub ◌<<<◌ : ℕ → ℕ → ℕ
a <<< b = a * 2 ^ b % 2 ^ 64

-- `timestamp - TWEPOCH`.
abbrev pub since_epoch : ℕ → ℕ
since_epoch t = (t + 2 ^ 64 - twepoch) % 2 ^ 64

-- The identifier of a state whose `last_timestamp` is `t`.
unfoldable pub compose : ℕ → Snowflake → ℕ
compose t s =
    bit_or
      (bit_or
        (bit_or (since_epoch t <<< timestamp_left_shift) (s.datacenter_id <<< datacenter_id_shift))
        (s.worker_id <<< worker_id_shift))
      s.sequence

unfoldable pub is_same : Option ℕ → ℕ → Bool
is_same none t = false
is_same (some l) t = l == t

abbrev pub Issued : Type 0
Issued = Option (ℕ × Snowflake × List ℕ)

unfoldable pub issue : Snowflake → ℕ → List ℕ → Issued
issue s t clock = some (compose t s, record s { last_timestamp = some t }, clock)

-- The sequence has wrapped around: the next millisecond is waited for.
unfoldable pub issue_later : Snowflake → Option (ℕ × List ℕ) → Issued
issue_later s none = none
issue_later s (some (t, clock)) = issue s t clock

unfoldable pub next_sequence : Snowflake → Snowflake
next_sequence s = record s { sequence = bit_and (s.sequence + 1) sequence_mask }

-- `nextid` on a clock whose first reading is `t`.
unfoldable pub next_id_at : ℕ → List ℕ → Snowflake → Issued
next_id_at t clock s =
    if is_same s.last_timestamp t
    then (if (next_sequence s).sequence == 0
        then issue_later (next_sequence s) (wait_next_millis t clock)
        else issue (next_sequence s) t clock)
    else issue (record s { sequence = 0 }) t clock

unfoldable pub next_id : List ℕ → Snowflake → Issued
next_id [] s = none
next_id (t ∷ clock) s = next_id_at t clock s
