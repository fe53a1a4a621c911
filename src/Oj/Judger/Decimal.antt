-- ===== src/Oj/Judger/Decimal.antt =====
-- Judger.cpp: the numbers in texts, which `to_string` prints and the sandbox's `atoi` would read.
use myoj.Common.{
  ℕ, zero, suc, ◌+◌, ◌-◌, ◌*◌, ◌/◌, ◌%◌, ◌<◌, ◌≡◌, refl, ◌∙◌, if-cases, [], ◌∷◌, ◌++◌, All, ltb,
  arith,
}
use myoj.Common.Bytes.{Bytes}
use myoj.Judge.Options.{atoi_digits}
use myoj.Common.Decimal.{decimal, to_string, IsDigit, decimal-All}

-- One more digit at the end.
atoi_digits-append :
    (acc : ℕ) (xs : Bytes) (d : ℕ)
    → All IsDigit xs
    → d < 10
    → atoi_digits acc (xs ++ (48 + d) ∷ []) ≡ atoi_digits acc xs * 10 + d
unfolding atoi_digits
atoi_digits-append acc [] d h k = ground arith
atoi_digits-append acc (x ∷ xs) d h k =
    ground (arith, h.0, atoi_digits-append (acc * 10 + (x - 48)) xs d h.1 k)

none_read : atoi_digits 0 [] ≡ 0
unfolding atoi_digits
none_read = refl

atoi_digits-decimal : (f n : ℕ) → n < f → atoi_digits 0 (decimal f n) ≡ n
unfolding decimal
atoi_digits-decimal zero n h = absurd (omega arith)
atoi_digits-decimal (suc f) n h =
    if-cases (λ (xs : Bytes). atoi_digits 0 (xs ++ (48 + n % 10) ∷ []) ≡ n) (ltb n 10) []
      (decimal f (n / 10))
      (λ e. atoi_digits-append 0 [] (n % 10) tt (omega arith) ∙ ground (arith, e, none_read))
      (λ e.
        let rest : atoi_digits 0 (decimal f (n / 10)) ≡ n / 10 =
          atoi_digits-decimal f (n / 10) (ground (arith, e, h)) in
        atoi_digits-append 0 (decimal f (n / 10)) (n % 10) (decimal-All f (n / 10)) (omega arith)
        ∙ omega (arith, rest))

-- `to_string` prints enough digits, for every number: reading them gives the number back.
pub atoi_digits-to_string : (n : ℕ) → atoi_digits 0 (to_string n) ≡ n
unfolding to_string
atoi_digits-to_string n = atoi_digits-decimal (suc n) n (omega arith)
