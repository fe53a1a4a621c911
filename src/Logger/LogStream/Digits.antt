-- ===== src/Logger/LogStream/Digits.antt =====
-- LogStream.cpp: what formatInteger writes, against the digits of `to_string`.
use mathlib.Core.List.{reverse, reverse-cons, reverse-append}
use myoj.Common.{
  ℕ, zero, suc, ◌+◌, ◌/◌, ◌%◌, ◌^◌, ◌≤◌, ◌<◌, ◌≡◌, refl, ap, ◌∙◌, leb, ltb, ◌==◌, if◌then◌else◌,
  dec_lt, [], ◌∷◌, ◌++◌, length, length-append, append-nil, arith,
}
use myoj.Common.Bytes.{Bytes, codes}
use myoj.Common.Decimal.{decimal, to_string, length-to_string-le}
use myoj.Logger.FixedBuffer.{FixedBuffer, avail, IsFixedBuffer}
use myoj.Logger.LogStream.{
  ℤ, pos, negsuc, negate, abs, is_negative, quotient, remainder, digit_at, write_digits, formatted,
  format_integer,
}

digit_at_lem : (r : ℕ) → r < 10 → (digit_at (pos r) ≡ 48 + r) × (digit_at (negate r) ≡ 48 + r)
digit_at_lem zero h = (refl, refl)
digit_at_lem (suc zero) h = (refl, refl)
digit_at_lem (suc (suc zero)) h = (refl, refl)
digit_at_lem (suc (suc (suc zero))) h = (refl, refl)
digit_at_lem (suc (suc (suc (suc zero)))) h = (refl, refl)
digit_at_lem (suc (suc (suc (suc (suc zero))))) h = (refl, refl)
digit_at_lem (suc (suc (suc (suc (suc (suc zero)))))) h = (refl, refl)
digit_at_lem (suc (suc (suc (suc (suc (suc (suc zero))))))) h = (refl, refl)
digit_at_lem (suc (suc (suc (suc (suc (suc (suc (suc zero)))))))) h = (refl, refl)
digit_at_lem (suc (suc (suc (suc (suc (suc (suc (suc (suc zero))))))))) h = (refl, refl)
digit_at_lem (suc (suc (suc (suc (suc (suc (suc (suc (suc (suc r)))))))))) h =
    absurd (omega (arith, h))

abs-negate : (n : ℕ) → abs (negate n) ≡ n
abs-negate zero = refl
abs-negate (suc n) = refl

-- One digit, and the others in front of it.
turn_step :
    (n : ℕ) (rest : Bytes)
    → reverse ((48 + n % 10) ∷ (if n / 10 == 0 then [] else rest))
      ≡ (if ltb n 10 then [] else reverse rest) ++ (48 + n % 10) ∷ []
turn_step n rest =
    reverse-cons (48 + n % 10) (if n / 10 == 0 then [] else rest)
    ∙ ap (λ xs. xs ++ (48 + n % 10) ∷ [])
        (elim (dec_lt n 10) [ yes h ↦ ground (arith, h) | no h ↦ ground (arith, h) ])

reverse-write_digits : (f n : ℕ) → reverse (write_digits f (pos n)) ≡ decimal f n
unfolding write_digits decimal quotient remainder
reverse-write_digits zero n = refl
reverse-write_digits (suc f) n =
    rw
      (
        (digit_at_lem (n % 10) (omega arith)).0,
        turn_step n (write_digits f (pos (n / 10))),
        reverse-write_digits f (n / 10),
      )
      refl

write_digits-negate : (f n : ℕ) → write_digits f (negate n) ≡ write_digits f (pos n)
unfolding write_digits quotient remainder
write_digits-negate zero n = refl
write_digits-negate (suc f) zero = refl
write_digits-negate (suc f) (suc n) =
    rw
      (
        abs-negate (suc n / 10),
        (digit_at_lem (suc n % 10) (omega arith)).1,
        (digit_at_lem (suc n % 10) (omega arith)).0,
        write_digits-negate f (suc n / 10),
      )
      refl

-- The decimal form of a number, with its sign.
abbrev pub signed : ℤ → Bytes
signed num = (if is_negative num then codes "-" else []) ++ to_string (abs num)

formatted-signed : (num : ℤ) → formatted num ≡ signed num
unfolding formatted to_string
formatted-signed (pos n) =
    ap reverse (append-nil (write_digits (suc n) (pos n))) ∙ reverse-write_digits (suc n) n
formatted-signed (negsuc n) =
    reverse-append (write_digits (suc (suc n)) (negsuc n)) (codes "-")
    ∙ ap (λ ds. b'-' ∷ ds)
        (ap reverse (write_digits-negate (suc (suc n)) (suc n))
          ∙ reverse-write_digits (suc (suc n)) (suc n))

length-signed-le : (num : ℤ) → abs num < 10 ^ 20 → length (signed num) ≤ 21
length-signed-le (pos n) h = omega (arith, length-to_string-le 19 n h)
length-signed-le (negsuc n) h = omega (arith, length-to_string-le 19 (suc n) h)

-- formatInteger appends the decimal form of every number of at most 20 digits, whether its type is signed
-- or not, where 48 bytes are free, and nothing otherwise; what it writes, the terminating NUL too, lies
-- within the array.
pub format_integer-signed :
    (num : ℤ) (b : FixedBuffer)
    → abs num < 10 ^ 20
    → IsFixedBuffer b
    → ((format_integer num b).text ≡ b.text ++ (if leb 48 (avail b) then signed num else []))
      × IsFixedBuffer (format_integer num b)
      × (48 ≤ avail b → length (format_integer num b).text + 1 ≤ b.size)
unfolding format_integer
format_integer-signed num b h v = elim (dec_lt (avail b) 48) [
  | yes k ↦ ground (arith, k, append-nil b.text, v)
  | no k ↦
      let e = ap length (formatted-signed num) in
      let l = length-append {0} b.text (formatted num) in
      ground (arith, k, formatted-signed num, e, l, length-signed-le num h, v)
]
