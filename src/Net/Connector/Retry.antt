-- ===== src/Net/Connector/Retry.antt =====
-- Connector.cc: what becomes of an attempt that fails.
use Prim.Native.Nat.{max, digits, bit_or, bit_or-bitwise}
use myoj.Common.{
  ℕ, zero, suc, ◌/◌, ◌≤◌, ◌<◌, ◌≡◌, ◌≢◌, refl, true, false, ◌==◌, Option, none, some, dec_lt, arith,
}
use myoj.Net.Connector.{
  k_connecting, Connector, in_progress, connect, connecting, connecting_at, handle_write, write_at,
  finish, reset_task, run_task, stop, stop_in_loop, stop_at,
}

or_positive : (n a b : ℕ) → a ≤ n → 0 < b → 0 < digits (λ b. b) max n a b
or_positive zero zero b h k = k
or_positive zero (suc a) b h k = absurd (omega arith)
or_positive (suc n) zero b h k = k
or_positive (suc n) (suc a) b h k = elim (dec_lt 0 (b / 2)) [
  | yes more ↦ omega (arith, or_positive n (suc a / 2) (b / 2) (omega arith) more)
  | no last ↦ omega arith
]

pub bit_or-positive : (a b : ℕ) → 0 < b → 0 < bit_or a b
bit_or-positive a b h = simp bit_or-bitwise (or_positive a a b (omega arith) h)

-- The condition holds for every `errno`: three of its operands are not 0.
pub in_progress_always : (saved_errno : ℕ) → in_progress saved_errno ≡ true
unfolding in_progress
in_progress_always saved_errno =
    ground (arith, bit_or-positive (bit_or (bit_or (bit_or saved_errno 0) 115) 4) 106 (omega arith))

abbrev and_then : Option Connector → (Connector → Option Connector) → Option Connector
and_then none f = none
and_then (some c) f = f c

-- An attempt to connect, the event that the socket becomes writable, and the functor that resets the
-- channel.
abbrev pub attempt : ℕ → ℕ → ℕ → Connector → Option Connector
attempt sockfd saved_errno err c =
    and_then (handle_write err (connect sockfd saved_errno c)) (run_task reset_task)

-- Whatever `errno` the call of `connect` leaves, the attempt counts as one in progress; when the socket
-- then has an error, the socket is neither closed nor handed over and nothing tries again: the connector
-- still says that it is connecting, with no channel, and a `stop` goes through the null pointer.
pub attempt_fails :
    (sockfd saved_errno err : ℕ) (c : Connector)
    → c.channel ≡ none
    → err ≢ 0
    → (c' : Connector) × (attempt sockfd saved_errno err c ≡ some c')
      × (c'.state ≡ k_connecting)
      × (c'.handed_over ≡ c.handed_over)
      × (c'.closed ≡ c.closed)
      × (stop_in_loop (stop c') ≡ none)
unfolding connect connecting connecting_at handle_write write_at finish run_task stop_in_loop stop
    stop_at
attempt_fails sockfd saved_errno err c none_set failed =
    simp (in_progress_always saved_errno, none_set, wrong) (_, refl, refl, refl, refl, refl)
  where
    wrong : (err == 0) ≡ false
    wrong = ground (arith, failed)
