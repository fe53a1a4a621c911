-- ===== src/Oj/Users/Authority.antt =====
-- UserList.cpp: bounds on the map of authorities, and who passes a check.
use myoj.Common.{ℕ, ◌≤◌, ◌≡◌, false, if-cases, Option, none, some, List, [], ◌∷◌, All, ◌==◌, arith}
use myoj.Oj.Users.{
  UserId, id_eq, Json, authority_of, set_authority, erase_authority, touch_authority, touch,
  authority_at, verified, allowed, administrator,
}

-- No entry says more than an ordinary user.
abbrev pub IsLow : List (UserId × ℕ) → Type 0
IsLow m = All (λ (e : UserId × ℕ). e.1 ≤ 3) m

pub authority_of-low : (i : UserId) (m : List (UserId × ℕ)) → IsLow m → authority_of i m ≤ 3
unfolding authority_of
authority_of-low i [] h = omega arith
authority_of-low i ((j, a) ∷ m) h =
    if-cases (λ (n : ℕ). n ≤ 3) (id_eq j i) a _ (λ e. h.0) (λ e. authority_of-low i m h.1)

pub set_authority-IsLow :
    (i : UserId) (a : ℕ) (m : List (UserId × ℕ)) → a ≤ 3 → IsLow m → IsLow (set_authority i a m)
unfolding set_authority
set_authority-IsLow i a [] k h = (k, tt)
set_authority-IsLow i a ((j, b) ∷ m) k h =
    if-cases IsLow (id_eq j i) _ _ (λ e. (k, h.1)) (λ e. (h.0, set_authority-IsLow i a m k h.1))

pub erase_authority-IsLow :
    (i : UserId) (m : List (UserId × ℕ)) → IsLow m → IsLow (erase_authority i m)
unfolding erase_authority
erase_authority-IsLow i [] h = tt
erase_authority-IsLow i ((j, b) ∷ m) h =
    if-cases IsLow (id_eq j i) _ _ (λ e. h.1) (λ e. (h.0, erase_authority-IsLow i m h.1))

pub touch-IsLow : (o : Option UserId) (m : List (UserId × ℕ)) → IsLow m → IsLow (touch o m)
unfolding touch touch_authority
touch-IsLow none m h = h
touch-IsLow (some i) m h = set_authority-IsLow i _ m (authority_of-low i m h) h

authority_at-low : (o : Option UserId) (m : List (UserId × ℕ)) → IsLow m → authority_at o m ≤ 3
unfolding authority_at
authority_at-low none m h = omega arith
authority_at-low (some i) m h =
    if-cases (λ (n : ℕ). n ≤ 3) (authority_of i m == 0) 1 _ (λ e. omega arith)
      (λ e. authority_of-low i m h)

pub allowed_administrator :
    (q : Json) (m : List (UserId × ℕ)) → IsLow m → allowed administrator q m ≡ false
unfolding allowed
allowed_administrator q m h = ground (arith, authority_at-low (verified q) m h)
