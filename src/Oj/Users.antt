-- ===== src/Oj/Users.antt =====
-- oj/src/UserList.cpp: who may do what. A request is a JSON object; here it is flat, with texts and
-- numbers, which is all that the code modelled here reads from it, and other values by their text.
pub mod Authority
use myoj.Common.{
  ℕ, ◌+◌, ◌-◌, ◌*◌, ◌^◌, Bool, true, false, not, ◌&&◌, ◌||◌, Option, none, some, List, [], ◌∷◌, ltb,
  leb, ◌==◌, if◌then◌else◌,
}
use myoj.Common.Bytes.{Bytes, codes, bytes_eq, lookup, insert}

-- An `int64_t`: whether it is negative, and its absolute value.
pub record UserId : Type 0 where
  pub negative : Bool
  pub magnitude : ℕ

abbrev pub bool_eq : Bool → Bool → Bool
bool_eq true b = b
bool_eq false b = not b

abbrev pub id_eq : UserId → UserId → Bool
id_eq a b = bool_eq a.negative b.negative && a.magnitude == b.magnitude

-- Any other value stands as its text.
pub data Value : Type 0 where
  text : Bytes → Value
  number : UserId → Value
  other : Bytes → Value

abbrev pub Json : Type 0
Json = List (Bytes × Value)

-- `get<std::string>()`, which throws when the value is missing or no text.
unfoldable pub text_of : Option Value → Option Bytes
text_of (some (text t)) = some t
text_of _ = none

unfoldable pub get_text : Bytes → Json → Option Bytes
get_text k q = text_of (lookup k q)

-- The decimal digits in front, and whether there is one.
unfoldable pub leading_digits : Bool → ℕ → Bytes → Option ℕ
leading_digits seen acc [] = if seen then some acc else none
leading_digits seen acc (c ∷ s) =
    let rest = leading_digits true (acc * 10 + (c - b'0')) s in
    if leb b'0' c && leb c b'9' then rest else (if seen then some acc else none)

unfoldable pub in_range : Bool → Option ℕ → Option UserId
in_range neg none = none
in_range neg (some n) =
    if ltb (if neg then 2 ^ 63 else 2 ^ 63 - 1) n
    then none
    else some (record { negative = neg && not (n == 0); magnitude = n })

-- `stoll` on a text with no blank in front; none is an exception.
unfoldable pub stoll : Bytes → Option UserId
stoll [] = none
stoll (c ∷ s) =
    if c == b'-'
    then in_range true (leading_digits false 0 s)
    else (if c == b'+'
        then in_range false (leading_digits false 0 s)
        else in_range false (leading_digits false 0 (c ∷ s)))

-- `UserAuthorityMap` and the rest of the system.
pub record State (W : Type 0) : Type 0 where
  pub authorities : List (UserId × ℕ)
  pub world : W

-- `map[id]`, which is 0 for a new key.
unfoldable pub authority_of : UserId → List (UserId × ℕ) → ℕ
authority_of i [] = 0
authority_of i ((j, a) ∷ m) = if id_eq j i then a else authority_of i m

unfoldable pub set_authority : UserId → ℕ → List (UserId × ℕ) → List (UserId × ℕ)
set_authority i a [] = (i, a) ∷ []
set_authority i a ((j, b) ∷ m) = if id_eq j i then (i, a) ∷ m else (j, b) ∷ set_authority i a m

unfoldable pub erase_authority : UserId → List (UserId × ℕ) → List (UserId × ℕ)
erase_authority i [] = []
erase_authority i ((j, b) ∷ m) = if id_eq j i then m else (j, b) ∷ erase_authority i m

-- Reading `map[id]` leaves an entry.
unfoldable pub touch_authority : UserId → List (UserId × ℕ) → List (UserId × ℕ)
touch_authority i m = set_authority i (authority_of i m) m

-- `GetUserAuthority`: 1 is a guest, 3 a user, 5 an administrator.
unfoldable pub authority_at : Option UserId → List (UserId × ℕ) → ℕ
authority_at none m = 1
authority_at (some i) m = if authority_of i m == 0 then 1 else authority_of i m

abbrev pub bind_text : Option Bytes → Option UserId
bind_text none = none
bind_text (some t) = stoll t

-- The user that the request was verified for: none without a number in "VerifyId".
unfoldable pub verified : Json → Option UserId
verified q = bind_text (get_text (codes "VerifyId") q)

unfoldable pub touch : Option UserId → List (UserId × ℕ) → List (UserId × ℕ)
touch none m = m
touch (some i) m = touch_authority i m

unfoldable pub same_user : Option UserId → Option UserId → Bool
same_user (some a) (some b) = id_eq a b
same_user _ _ = false

-- What a handler asks for.
pub data Level : Type 0 where
  anyone ordinary author administrator : Level

-- `IsOrdinaryUser`, `IsAuthor` and `IsAdministrator` behind the reading of the token.
unfoldable pub allowed : Level → Json → List (UserId × ℕ) → Bool
allowed anyone q m = true
allowed ordinary q m = leb 3 (authority_at (verified q) m)
allowed administrator q m = leb 5 (authority_at (verified q) m)
allowed author q m =
    if ltb (authority_at (verified q) m) 3
    then false
    else (if leb 5 (authority_at (verified q) m)
        then true
        else same_user (verified q) (bind_text (get_text (codes "UserId") q)))

-- `empty()` of a value that is no text and no number, by its text.
abbrev pub is_empty_value : Bytes → Bool
is_empty_value v = bytes_eq v (codes "null") || bytes_eq v (codes "{}") || bytes_eq v (codes "[]")

module _ {W : Type 0} (user_of_token : Bytes → W → Bytes) where
  -- `TokenToVerifyId` with what is stored under "Token". Only a text is looked up; null, an empty
  -- object and an empty array count as no token, and any other value throws.
  unfoldable pub verify : Option Value → Json → W → Option Json
  verify none q w = some q
  verify (some (text t)) q w = some (insert (codes "VerifyId") (text (user_of_token t w)) q)
  verify (some (number i)) q w = none
  verify (some (other v)) q w = if is_empty_value v then some q else none

  unfoldable pub token_to_verify_id : Json → W → Option Json
  token_to_verify_id q w = verify (lookup (codes "Token") q) q w
