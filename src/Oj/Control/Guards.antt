-- ===== src/Oj/Control/Guards.antt =====
-- Control.cpp: a handler with a check does nothing for those who are not allowed.
use myoj.Common.{◌≡◌, refl, ◌⊎◌, inl, inr, true, false, Bool-cases, Option, none, some}
use myoj.Common.Bytes.{Bytes}
use myoj.Oj.Users.{
  Json, State, Level, anyone, ordinary, author, administrator, allowed, token_to_verify_id,
}
use myoj.Oj.Control.{Service, Handler, level_of, no_permission}
use myoj.Oj.Control.Handlers.{Result, check, guarded, handle}

module _ {W : Type 0} (user_of_token : Bytes → W → Bytes)
    (perform : Service → Json → W → Json × W) where
  -- The answer is "no permission", and the databases are as before.
  abbrev pub IsRefused : W → Result user_of_token perform → Type 0
  IsRefused w none = Unit
  IsRefused w (some (r, s)) = (r ≡ no_permission) × (s.world ≡ w)

  -- The request with its verified user passes the check of the level.
  abbrev pub IsAllowed : Level → Option Json → State W → Type 0
  IsAllowed l none s = true ≡ false
  IsAllowed l (some q) s = allowed l q s.authorities ≡ true

  check-IsRefused :
      (l : Level) (h : Handler) (o : Option Json) (s : State W)
      → IsAllowed l o s ⊎ IsRefused s.world (check user_of_token perform l h o s)
  unfolding check
  check-IsRefused l h none s = inr tt
  check-IsRefused l h (some q) s = elim (Bool-cases (allowed l q s.authorities)) [
    | inl e ↦ inl e
    | inr e ↦ inr (rw e (refl, refl))
  ]

  guarded-IsRefused :
      (l : Level) (h : Handler) (q : Json) (s : State W)
      → (l ≡ anyone)
        ⊎ (IsAllowed l (token_to_verify_id user_of_token q s.world) s
            ⊎ IsRefused s.world (guarded user_of_token perform l h q s))
  unfolding guarded
  guarded-IsRefused anyone h q s = inl refl
  guarded-IsRefused ordinary h q s = inr (check-IsRefused ordinary h _ s)
  guarded-IsRefused author h q s = inr (check-IsRefused author h _ s)
  guarded-IsRefused administrator h q s = inr (check-IsRefused administrator h _ s)

  pub handle-IsAllowed :
      (h : Handler) (q : Json) (s : State W)
      → (level_of h ≡ anyone)
        ⊎ (IsAllowed (level_of h) (token_to_verify_id user_of_token q s.world) s
            ⊎ IsRefused s.world (handle user_of_token perform h q s))
  unfolding handle
  handle-IsAllowed h q s = guarded-IsRefused (level_of h) h q s
