-- ===== src/Common/Decimal.antt =====
-- What `to_string` and `snprintf` print of a number, and the end of a C string.
use Prim.Native.Nat.{ℕ, zero, suc, ◌+◌, ◌*◌, ◌/◌, ◌%◌, ◌^◌, ◌≤◌, ◌<◌}
use mathlib.Core.Path.{◌≡◌}
use mathlib.Core.Logic.{◌≢◌}
use mathlib.Core.List.{[], ◌∷◌, ◌++◌}
use native.Mathlib.Omega.{arith}
use myoj.Common.Tests.{ltb, if◌then◌else◌, if-cases}
use myoj.Common.Lists.{length, take, All, All-append, length-append}
use myoj.Common.Slices.{take_all}
use myoj.Common.Bytes.{Bytes, find_index, find_index_absent}

-- The last digit last.
unfoldable pub decimal : ℕ → ℕ → Bytes
decimal zero n = []
decimal (suc f) n =
    let rest = decimal f (n / 10) in (if ltb n 10 then [] else rest) ++ (b'0' + n % 10) ∷ []

unfoldable pub to_string : ℕ → Bytes
unfolding decimal
to_string n = decimal (suc n) n

-- A C string ends at its first NUL.
unfoldable pub c_string : Bytes → Bytes
c_string s = take (find_index 0 s) s

abbrev pub IsDigit : ℕ → Type 0
IsDigit c = (48 ≤ c) × (c ≤ 57)

pub decimal-All : (f n : ℕ) → All IsDigit (decimal f n)
unfolding decimal
decimal-All zero n = tt
decimal-All (suc f) n =
    All-append IsDigit (if ltb n 10 then [] else decimal f (n / 10)) ((48 + n % 10) ∷ [])
      (if-cases (All IsDigit) (ltb n 10) [] (decimal f (n / 10)) (λ e. tt)
        (λ e. decimal-All f (n / 10)))
      ((omega arith, omega arith), tt)

pub to_string-All : (n : ℕ) → All IsDigit (to_string n)
unfolding to_string
to_string-All n = decimal-All (suc n) n

power_step : (k : ℕ) → 10 ^ suc k ≡ 10 * 10 ^ k
power_step k = omega arith

tenth : (k n : ℕ) → n < 10 ^ suc k → n / 10 < 10 ^ k
tenth k n h = omega (arith, power_step k)

length-decimal : (k f n : ℕ) → n < 10 ^ suc k → length (decimal f n) ≤ suc k
unfolding decimal
length-decimal k zero n h = omega arith
length-decimal zero (suc f) n h =
    ground
      (arith, length-append {0} (if ltb n 10 then [] else decimal f (n / 10)) ((48 + n % 10) ∷ []))
length-decimal (suc k) (suc f) n h = ground (
  arith,
  length-append {0} (if ltb n 10 then [] else decimal f (n / 10)) ((48 + n % 10) ∷ []),
  length-decimal k f (n / 10) (tenth (suc k) n h),
)

-- A number below 10 ^ (k + 1) has at most k + 1 digits.
pub length-to_string-le : (k n : ℕ) → n < 10 ^ suc k → length (to_string n) ≤ suc k
unfolding to_string
length-to_string-le k n h = length-decimal k (suc n) n h

-- Without a NUL the C string is the whole text.
pub c_string_whole : (s : Bytes) → All (λ x. x ≢ 0) s → c_string s ≡ s
unfolding c_string
c_string_whole s h = rw (find_index_absent 0 s h) (take_all (length s) s (omega arith))
