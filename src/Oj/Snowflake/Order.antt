-- ===== src/Oj/Snowflake/Order.antt =====
-- snowflake.hpp: the identifiers are different and grow, on a steady clock.
use myoj.Common.{
  ℕ, zero, suc, ◌^◌, ◌<◌, ◌≡◌, refl, sym, ◌||◌, if-cases, subst, Option, none, some, List, [], ◌∷◌,
  ltb, arith,
}
use myoj.Oj.Snowflake.{Snowflake, twepoch, compose, next_id, Issued, init, fresh_snowflake}
use myoj.Oj.Snowflake.Step.{
  Above, Follows, IsSound, IsSteady, Later, Ready, compose_fits, next_id-Later,
}

-- An identifier, and what `calls` makes of the clock and state behind it.
abbrev follow : (List ℕ → Snowflake → List ℕ) → Issued → List ℕ
follow calls none = []
follow calls (some (id, s, clock)) = id ∷ calls clock s

-- The identifiers of `n` calls, up to the end of the clock.
abbrev pub ids : ℕ → List ℕ → Snowflake → List ℕ
ids zero clock s = []
ids (suc n) clock s = follow (ids n) (next_id clock s)

-- Each is greater than the one before, and none has the sign bit set, so that they are ordered as numbers
-- of 64 bits with a sign too.
abbrev pub Rising : ℕ → List ℕ → Type 0
Rising b [] = Unit
Rising b (x ∷ xs) = ((b < x) × (x < 2 ^ 63)) × Rising x xs

abbrev pub IsRising : List ℕ → Type 0
IsRising [] = Unit
IsRising (x ∷ xs) = (x < 2 ^ 63) × Rising x xs

module _ (calls : List ℕ → Snowflake → List ℕ)
    (rising : (clock : List ℕ) (s : Snowflake) (l : ℕ)
      → Ready l s clock
      → Rising (compose l s) (calls clock s)) where
  follow-IsRising : (o : Issued) (s : Snowflake) → Later s o → IsRising (follow calls o)
  follow-IsRising none s h = tt
  follow-IsRising (some (id, s', clock)) s (t, same, above, ready) = (
    subst (λ x. x < 2 ^ 63) (sym same) (compose_fits t s' ready.0 ready.2),
    subst (λ x. Rising x (calls clock s')) (sym same) (rising clock s' t ready),
  )

  follow-Rising :
      (o : Issued) (s : Snowflake) (l : ℕ)
      → s.last_timestamp ≡ some l
      → Later s o
      → Rising (compose l s) (follow calls o)
  follow-Rising none s l e h = tt
  follow-Rising (some (id, s', clock)) s l e (t, same, above, ready) =
      let rest = follow-IsRising (some (id, s', clock)) s (t, same, above, ready) in
      ((subst (λ o. Above o s id) e above, rest.0), rest.1)

ids-Rising :
    (n : ℕ) (clock : List ℕ) (s : Snowflake) (l : ℕ)
    → Ready l s clock
    → Rising (compose l s) (ids n clock s)
ids-Rising zero clock s l r = tt
ids-Rising (suc n) clock s l (h, e, k, p) =
    follow-Rising (ids n) (ids-Rising n) (next_id clock s) s l e
      (next_id-Later clock s h (subst (λ o. Follows o clock) (sym e) (k, p)))

abbrev Initial : Option Snowflake → Type 0
Initial none = Unit
Initial (some s) = IsSound s × (s.last_timestamp ≡ none)

init-Initial : (worker datacenter : ℕ) → Initial (init worker datacenter fresh_snowflake)
unfolding init
init-Initial worker datacenter =
    if-cases Initial (ltb 31 worker || ltb 31 datacenter) _ _ (λ e. tt)
      (λ e. (
        record {
          worker_fits = ground (arith, e);
          datacenter_fits = ground (arith, e);
          sequence_fits = omega arith;
        },
        refl,
      ))

-- A generator that `init` accepts gives out identifiers that grow from call to call, so that no two
-- are the same and none is negative, as long as the clock is past the epoch, does not go back, and shows
-- no time that needs more than 41 bits.
pub ids-IsRising :
    (worker datacenter : ℕ) (s : Snowflake) (n : ℕ) (clock : List ℕ)
    → init worker datacenter fresh_snowflake ≡ some s
    → IsSteady twepoch clock
    → IsRising (ids n clock s)
ids-IsRising worker datacenter s zero clock e k = tt
ids-IsRising worker datacenter s (suc n) clock e k =
    let (h, unused) : Initial (some s) = subst Initial e (init-Initial worker datacenter) in
    follow-IsRising (ids n) (ids-Rising n) (next_id clock s) s
      (next_id-Later clock s h (subst (λ o. Follows o clock) (sym unused) k))
