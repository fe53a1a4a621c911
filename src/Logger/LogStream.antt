-- ===== src/Logger/LogStream.antt =====
-- include/logger/LogStream.h and src/logger/LogStream.cpp: the operators << on integers and text.
-- Floating point numbers are left out.
pub mod Digits
pub mod Tests
use mathlib.Core.List.{reverse}
use myoj.Common.{
  ℕ, zero, suc, ◌+◌, ◌-◌, ◌/◌, ◌%◌, Bool, true, false, leb, ◌==◌, if◌then◌else◌, Option, none, some,
  List, [], ◌∷◌, ◌++◌, get_elem?,
}
use myoj.Common.Bytes.{Bytes, codes}
use myoj.Logger.FixedBuffer.{FixedBuffer, avail, add, append}

pub data ℤ : Type 0 where
  pos negsuc : ℕ → ℤ

abbrev pub negate : ℕ → ℤ
negate zero = pos zero
negate (suc n) = negsuc n

abbrev pub abs : ℤ → ℕ
abs (pos n) = n
abs (negsuc n) = suc n

abbrev pub is_negative : ℤ → Bool
is_negative (pos n) = false
is_negative (negsuc n) = true

-- Division rounds towards zero, and the remainder has the sign of the number.
unfoldable pub quotient : ℤ → ℤ
quotient (pos n) = pos (n / 10)
quotient (negsuc n) = negate (suc n / 10)

unfoldable pub remainder : ℤ → ℤ
remainder (pos n) = pos (n % 10)
remainder (negsuc n) = negate (suc n % 10)

abbrev pub digits : Bytes
digits = codes "9876543210123456789"

abbrev pub byte_or_nul : Option ℕ → ℕ
byte_or_nul none = 0
byte_or_nul (some b) = b

-- `zero[remainder]`, where `zero` is `digits + 9`.
abbrev pub digit_at : ℤ → ℕ
digit_at (pos r) = byte_or_nul (get_elem? digits (9 + r))
digit_at (negsuc r) = byte_or_nul (get_elem? digits (8 - r))

-- What the do-while loop writes, the last digit first.
unfoldable pub write_digits : ℕ → ℤ → Bytes
write_digits zero num = []
write_digits (suc fuel) num =
    let rest = write_digits fuel (quotient num) in
    digit_at (remainder num) ∷ (if abs (quotient num) == 0 then [] else rest)

-- The text between `start` and `cur`, turned round.
unfoldable pub formatted : ℤ → Bytes
formatted num =
    reverse (write_digits (suc (abs num)) num ++ (if is_negative num then codes "-" else []))

abbrev pub k_max_numeric_size : ℕ
k_max_numeric_size = 48

unfoldable pub format_integer : ℤ → FixedBuffer → FixedBuffer
format_integer num b = if leb k_max_numeric_size (avail b) then add (formatted num) b else b

-- `operator<<` on a C string, which is none for a null pointer.
unfoldable pub put_c_string : Option Bytes → FixedBuffer → FixedBuffer
put_c_string (some str) b = append str b
put_c_string none b = append (codes "(null)") b

-- `operator<<` on a character, on a `std::string` and on a piece of text.
unfoldable pub put_char : ℕ → FixedBuffer → FixedBuffer
put_char c b = append (c ∷ []) b

unfoldable pub put_string : Bytes → FixedBuffer → FixedBuffer
put_string str b = append str b
