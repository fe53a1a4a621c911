-- ===== src/Oj/Snowflake/Bits.antt =====
-- The bit operations of an identifier as arithmetic: fields that do not overlap, and a mask of low
-- bits.
use Prim.Native.Nat.{min, max, digits, bit_and, bit_or, bit_and-bitwise, bit_or-bitwise}
use native.Mathlib.Nat.{pow-suc, one-le-pow, le_refl}
use myoj.Common.{ℕ, zero, suc, ◌+◌, ◌-◌, ◌*◌, ◌/◌, ◌^◌, ◌≤◌, ◌<◌, ◌≡◌, refl, ap, arith}

-- Both recursions run out of digits, never out of fuel.
or_none : (n a : ℕ) → a ≤ n → digits (λ b. b) max n a 0 ≡ a
or_none zero zero h = refl
or_none zero (suc a) h = absurd (omega arith)
or_none (suc n) zero h = refl
or_none (suc n) (suc a) h = omega (arith, or_none n (suc a / 2) (omega arith))

and_none : (n a : ℕ) → a ≤ n → digits (λ b. 0) min n a 0 ≡ 0
and_none zero zero h = refl
and_none zero (suc a) h = absurd (omega arith)
and_none (suc n) zero h = refl
and_none (suc n) (suc a) h = omega (arith, and_none n (suc a / 2) (omega arith))

doubled : (q k : ℕ) → q * 2 ^ suc k ≡ 2 * (q * 2 ^ k)
doubled q k = omega (arith, ap (λ (p : ℕ). q * p) (pow-suc 2 k))

or_digits : (k n q r a : ℕ) → a ≡ q * 2 ^ k → r < 2 ^ k → a ≤ n → digits (λ b. b) max n a r ≡ a + r
or_digits zero n q zero a e h l = omega (arith, or_none n a l)
or_digits zero n q (suc r) a e h l = absurd (omega arith)
or_digits (suc k) zero q r zero e h l = omega arith
or_digits (suc k) zero q r (suc a) e h l = absurd (omega arith)
or_digits (suc k) (suc n) q r zero e h l = omega arith
or_digits (suc k) (suc n) q r (suc a) e h l = omega (
  arith,
  doubled q k,
  pow-suc 2 k,
  or_digits k n q (r / 2) (suc a / 2) (omega (arith, doubled q k)) (omega (arith, pow-suc 2 k))
      (omega arith),
)

and_digits :
    (k n q r a : ℕ)
    → a ≡ q * 2 ^ k + r
    → r < 2 ^ k
    → a ≤ n
    → digits (λ b. 0) min n a (2 ^ k - 1) ≡ r
and_digits zero n q r a e h l = omega (arith, and_none n a l)
and_digits (suc k) zero q r zero e h l = omega arith
and_digits (suc k) zero q r (suc a) e h l = absurd (omega arith)
and_digits (suc k) (suc n) q r zero e h l = omega arith
and_digits (suc k) (suc n) q r (suc a) e h l =
    let half : (2 ^ suc k - 1) / 2 ≡ 2 ^ k - 1 = omega (arith, pow-suc 2 k, one-le-pow k 2) in
    let rest : digits (λ b. 0) min n (suc a / 2) (2 ^ k - 1) ≡ r / 2 =
      and_digits k n q (r / 2) (suc a / 2) (omega (arith, doubled q k)) (omega (arith, pow-suc 2 k))
        (omega arith) in
    rw half (omega (arith, doubled q k, pow-suc 2 k, one-le-pow k 2, rest))

pub or_of_fields : (k q r : ℕ) → r < 2 ^ k → bit_or (q * 2 ^ k) r ≡ q * 2 ^ k + r
or_of_fields k q r h = simp bit_or-bitwise (or_digits k _ q r (q * 2 ^ k) refl h (le_refl _))

pub and_of_mask : (k q r : ℕ) → r < 2 ^ k → bit_and (q * 2 ^ k + r) (2 ^ k - 1) ≡ r
and_of_mask k q r h = simp bit_and-bitwise (and_digits k _ q r (q * 2 ^ k + r) refl h (le_refl _))
