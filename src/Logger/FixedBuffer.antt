-- ===== src/Logger/FixedBuffer.antt =====
-- include/logger/FixedBuffer.h: an array that is filled from its beginning. `text` are the bytes in front
-- of `cur_`; those behind it are never read.
use myoj.Common.{ℕ, ◌-◌, ◌≤◌, Bool, ltb, ◌||◌, if◌then◌else◌, [], ◌++◌, length}
use myoj.Common.Bytes.{Bytes}

pub record FixedBuffer : Type 0 where
  pub size : ℕ
  pub text : Bytes

abbrev pub make_fixed_buffer : ℕ → FixedBuffer
make_fixed_buffer size = record { size = size; text = [] }

-- Where `cur_` is not past the end.
abbrev pub avail : FixedBuffer → ℕ
avail b = b.size - length b.text

-- `static_cast<size_t>(avail()) > len`; a negative number would be a large one.
abbrev pub has_room : ℕ → FixedBuffer → Bool
has_room len b = ltb b.size (length b.text) || ltb len (avail b)

-- Bytes are written at `current` and `add`ed.
abbrev pub add : Bytes → FixedBuffer → FixedBuffer
add written b = record b { text = b.text ++ written }

unfoldable pub append : Bytes → FixedBuffer → FixedBuffer
append buf b = if has_room (length buf) b then add buf b else b

abbrev pub reset : FixedBuffer → FixedBuffer
reset b = record b { text = [] }

abbrev pub IsFixedBuffer : FixedBuffer → Type 0
IsFixedBuffer b = length b.text ≤ b.size
