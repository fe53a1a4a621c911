-- ===== src/Common/Bytes.antt =====
-- Byte strings: `std::string` and `char` ranges as lists of codes, `std::find` on them, and
-- `std::unordered_map` from strings as an association list without repeated keys.
use Prim.Native.Char.{code}
use Prim.Native.String.{String}
use Prim.Native.Nat.{ℕ, suc, ◌≤◌, ◌<◌}
use mathlib.Core.Path.{◌≡◌, refl}
use mathlib.Core.Logic.{◌↔◌, ◌≢◌}
use mathlib.Core.Bool.{Bool, true, false, ◌&&◌}
use mathlib.Core.Option.{Option, none, some}
use mathlib.Core.List.{List, [], ◌∷◌, ◌++◌}
use native.Mathlib.Omega.{arith}
use myoj.Common.Tests.{◌==◌, if◌then◌else◌}
use myoj.Common.Lists.{length, get_elem?, take, All}

abbrev pub Bytes : Type 0
Bytes = List ℕ

-- The bytes of an ASCII literal.
abbrev pub codes : String → Bytes
codes String.[] = []
codes (String.◌∷◌ c s) = code c ∷ codes s

-- `==` on `std::string`.
abbrev pub bytes_eq : Bytes → Bytes → Bool
bytes_eq [] [] = true
bytes_eq [] (y ∷ ys) = false
bytes_eq (x ∷ xs) [] = false
bytes_eq (x ∷ xs) (y ∷ ys) = x == y && bytes_eq xs ys

pub bytes_eq_iff : (xs ys : Bytes) → (bytes_eq xs ys ≡ true) ↔ (xs ≡ ys)
bytes_eq_iff [] [] = ground arith
bytes_eq_iff [] (y ∷ ys) = ground arith
bytes_eq_iff (x ∷ xs) [] = ground arith
bytes_eq_iff (x ∷ xs) (y ∷ ys) = ground (arith, bytes_eq_iff xs ys)

pub bytes_eq_refl : (xs : Bytes) → bytes_eq xs xs ≡ true
bytes_eq_refl xs = (bytes_eq_iff xs xs).1 refl

-- `std::find(first, last, c) - first`: the length of the range where `c` does not occur.
unfoldable pub find_index : ℕ → Bytes → ℕ
find_index c [] = 0
find_index c (x ∷ xs) = if x == c then 0 else suc (find_index c xs)

pub find_index-le : (c : ℕ) (xs : Bytes) → find_index c xs ≤ length xs
unfolding find_index
find_index-le c [] = omega arith
find_index-le c (x ∷ xs) = ground (arith, find_index-le c xs)

-- Every occurrence is at or behind the index found.
pub take-find_index : (c : ℕ) (xs : Bytes) → All (λ x. x ≢ c) (take (find_index c xs) xs)
unfolding find_index
take-find_index c [] = tt
take-find_index c (x ∷ xs) = ground (arith, take-find_index c xs)

pub get_elem?-find_index :
    (c : ℕ) (xs : Bytes) → find_index c xs < length xs → get_elem? xs (find_index c xs) ≡ some c
unfolding find_index
get_elem?-find_index c [] h = absurd (omega arith)
get_elem?-find_index c (x ∷ xs) h = ground (arith, get_elem?-find_index c xs)

-- In front of `c` stands what has no `c`.
pub find_index-append :
    (c : ℕ) (xs ys : Bytes) → All (λ x. x ≢ c) xs → find_index c (xs ++ c ∷ ys) ≡ length xs
unfolding find_index
find_index-append c [] ys h = ground arith
find_index-append c (x ∷ xs) ys h = ground (arith, find_index-append c xs ys h.1)

pub find_index_absent : (c : ℕ) (xs : Bytes) → All (λ x. x ≢ c) xs → find_index c xs ≡ length xs
unfolding find_index
find_index_absent c [] h = refl
find_index_absent c (x ∷ xs) h = ground (arith, find_index_absent c xs h.1)

module _ {ℓ} {V : Type ℓ} where
  -- `find` on an `unordered_map`.
  unfoldable pub lookup : Bytes → List (Bytes × V) → Option V
  lookup k [] = none
  lookup k ((j, v) ∷ m) = if bytes_eq j k then some v else lookup k m

  -- `m[k] = v`.
  unfoldable pub insert : Bytes → V → List (Bytes × V) → List (Bytes × V)
  insert k v [] = (k, v) ∷ []
  insert k v ((j, w) ∷ m) = if bytes_eq j k then (k, v) ∷ m else (j, w) ∷ insert k v m

  pub lookup-insert :
      (k j : Bytes) (v : V) (m : List (Bytes × V))
      → lookup j (insert k v m) ≡ (if bytes_eq k j then some v else lookup j m)
  unfolding lookup insert
  lookup-insert k j v [] = refl
  lookup-insert k j v ((i, w) ∷ m) =
      ground (arith, bytes_eq_iff k j, bytes_eq_iff i k, bytes_eq_iff i j, lookup-insert k j v m)
