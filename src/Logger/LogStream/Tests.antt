-- ===== src/Logger/LogStream/Tests.antt =====
-- A number in the log, and the theorem on it.
use myoj.Common.{◌+◌, ◌≤◌, ◌≡◌, refl, leb, if◌then◌else◌, [], ◌++◌, length, arith}
use myoj.Common.Bytes.{codes}
use myoj.Logger.FixedBuffer.{FixedBuffer, make_fixed_buffer, avail, append, IsFixedBuffer}
use myoj.Logger.LogStream.{
  negsuc, quotient, remainder, write_digits, formatted, format_integer, put_c_string, put_char,
  put_string,
}
use myoj.Logger.LogStream.Digits.{signed, format_integer-signed}
use myoj.Common.{some}

stream_code : Unit {0}
unfolding append quotient remainder write_digits formatted format_integer put_c_string put_char
    put_string
stream_code = tt

abbrev line : FixedBuffer
line = make_fixed_buffer 4000

written :
    (format_integer (negsuc 119) (put_char b':' (put_c_string (some (codes "code")) line))).text
    ≡ codes "code:-120"
unfolding stream_code
written = refl

format_integer-signed_example :
    ((format_integer (negsuc 119) line).text
      ≡ line.text ++ (if leb 48 (avail line) then signed (negsuc 119) else []))
    × IsFixedBuffer (format_integer (negsuc 119) line)
    × (48 ≤ avail line → length (format_integer (negsuc 119) line).text + 1 ≤ line.size)
format_integer-signed_example = format_integer-signed (negsuc 119) line (omega arith) (omega arith)
