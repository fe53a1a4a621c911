-- ===== src/Oj/Control/Permitted.antt =====
-- Control.cpp and UserList.cpp: whom a request must come from. `protection` is what the interface is meant
-- to protect, written down by itself, and authorities are those in the map.
use myoj.Common.{
  ℕ, ◌≤◌, ◌≡◌, refl, sym, ap, ◌∙◌, ◌⊎◌, inl, inr, Bool, true, false, Bool-cases, if-cases, Option,
  none, some, List, subst, leb, arith,
}
use myoj.Common.Bytes.{Bytes, codes, lookup, lookup-insert}
use myoj.Oj.Users.{
  UserId, bool_eq, id_eq, Value, text, number, other, Json, State, Level, anyone, ordinary, author,
  administrator, allowed, authority_at, authority_of, bind_text, get_text, text_of, same_user,
  stoll, verified, verify, token_to_verify_id, is_empty_value,
}
use myoj.Oj.Control.{
  Service, Handler, level_of, login_user, login_user_by_token, select_user_rank, select_user_info,
  update_user_info, select_user_update_info, select_user_set_info, select_problem_info_by_admin,
  select_problem, delete_problem, select_problem_list, select_problem_list_by_admin,
  select_status_record_list, select_status_record, select_comment_list_by_admin,
  select_announcement_list, select_announcement_list_by_admin, select_announcement,
  select_announcement_by_edit, insert_announcement, update_announcement, select_solution_list,
  select_solution_list_by_admin, select_solution, select_solution_by_edit, insert_solution,
  update_solution, select_discuss_list, select_discuss_list_by_admin, select_discuss,
  select_discuss_by_edit, insert_discuss, update_discuss, register_user, delete_user, edit_problem,
  get_comment, insert_comment, delete_comment, delete_announcement, delete_solution, delete_discuss,
  get_tags, get_judge_code,
}
use myoj.Oj.Control.Handlers.{handle}
use myoj.Oj.Control.Guards.{IsRefused, IsAllowed, handle-IsAllowed}

-- The administration of users, problems and announcements, and the lists of articles and comments with
-- their administration, are for administrators; a user's own data and articles are for that user; writing
-- articles and comments is for users.
abbrev pub protection : Handler → Level
protection select_user_set_info = administrator
protection select_problem_info_by_admin = administrator
protection delete_problem = administrator
protection select_problem_list_by_admin = administrator
protection select_comment_list_by_admin = administrator
protection select_announcement_list_by_admin = administrator
protection select_announcement_by_edit = administrator
protection insert_announcement = administrator
protection update_announcement = administrator
protection select_solution_list_by_admin = administrator
protection select_discuss_list_by_admin = administrator
protection delete_user = administrator
protection edit_problem = administrator
protection delete_announcement = administrator
protection update_user_info = author
protection select_user_update_info = author
protection update_solution = author
protection update_discuss = author
protection delete_solution = author
protection delete_discuss = author
protection select_solution_by_edit = ordinary
protection insert_solution = ordinary
protection select_discuss_by_edit = ordinary
protection insert_discuss = ordinary
protection insert_comment = ordinary
protection delete_comment = ordinary
protection _ = anyone

pub level_of-protection : (h : Handler) → level_of h ≡ protection h
unfolding level_of
level_of-protection login_user = refl
level_of-protection login_user_by_token = refl
level_of-protection select_user_rank = refl
level_of-protection select_user_info = refl
level_of-protection update_user_info = refl
level_of-protection select_user_update_info = refl
level_of-protection select_user_set_info = refl
level_of-protection select_problem_info_by_admin = refl
level_of-protection select_problem = refl
level_of-protection delete_problem = refl
level_of-protection select_problem_list = refl
level_of-protection select_problem_list_by_admin = refl
level_of-protection select_status_record_list = refl
level_of-protection select_status_record = refl
level_of-protection select_comment_list_by_admin = refl
level_of-protection select_announcement_list = refl
level_of-protection select_announcement_list_by_admin = refl
level_of-protection select_announcement = refl
level_of-protection select_announcement_by_edit = refl
level_of-protection insert_announcement = refl
level_of-protection update_announcement = refl
level_of-protection select_solution_list = refl
level_of-protection select_solution_list_by_admin = refl
level_of-protection select_solution = refl
level_of-protection select_solution_by_edit = refl
level_of-protection insert_solution = refl
level_of-protection update_solution = refl
level_of-protection select_discuss_list = refl
level_of-protection select_discuss_list_by_admin = refl
level_of-protection select_discuss = refl
level_of-protection select_discuss_by_edit = refl
level_of-protection insert_discuss = refl
level_of-protection update_discuss = refl
level_of-protection register_user = refl
level_of-protection delete_user = refl
level_of-protection edit_problem = refl
level_of-protection get_comment = refl
level_of-protection insert_comment = refl
level_of-protection delete_comment = refl
level_of-protection delete_announcement = refl
level_of-protection delete_solution = refl
level_of-protection delete_discuss = refl
level_of-protection get_tags = refl
level_of-protection get_judge_code = refl

-- What the user `i` must be for a request `q`: a registered user, an administrator, or the registered user
-- that the request names under "UserId", for whom an administrator may stand in.
abbrev pub IsEntitled : Level → UserId → Json → List (UserId × ℕ) → Type 0
IsEntitled anyone i q m = Unit
IsEntitled ordinary i q m = 3 ≤ authority_of i m
IsEntitled administrator i q m = 5 ≤ authority_of i m
IsEntitled author i q m =
    (5 ≤ authority_of i m)
    ⊎ ((3 ≤ authority_of i m) × (bind_text (get_text (codes "UserId") q) ≡ some i))

bool_eq-true : (a b : Bool) → bool_eq a b ≡ true → a ≡ b
bool_eq-true true b h = sym h
bool_eq-true false true h = absurd cc
bool_eq-true false false h = refl

same_parts :
    (n n' : Bool) (m m' : ℕ)
    → n ≡ n'
    → m ≡ m'
    → ◌≡◌ {A = UserId}
        (record { negative = n; magnitude = m })
        (record { negative = n'; magnitude = m' })
same_parts n n' m m' e f = rw (e, f) refl

id_eq-true : (a b : UserId) → id_eq a b ≡ true → a ≡ b
id_eq-true a b h =
    same_parts a.negative b.negative a.magnitude b.magnitude
      (bool_eq-true a.negative b.negative (ground (arith, h))) (ground (arith, h))

entitled_at :
    (o : Option UserId) (n : ℕ) (m : List (UserId × ℕ))
    → 3 ≤ n
    → n ≤ authority_at o m
    → (i : UserId) × (o ≡ some i) × (n ≤ authority_of i m)
unfolding authority_at
entitled_at none n m k h = absurd (omega (arith, k, h))
entitled_at (some i) n m k h = (i, refl, ground (arith, k, h))

same_user-true : (i : UserId) (o : Option UserId) → same_user (some i) o ≡ true → o ≡ some i
unfolding same_user
same_user-true i none h = absurd cc
same_user-true i (some j) h = ap some (sym (id_eq-true i j h))

-- The check of a level, read off the map of authorities.
allowed-IsEntitled :
    (l : Level) (q : Json) (m : List (UserId × ℕ))
    → allowed l q m ≡ true
    → (l ≡ anyone) ⊎ ((i : UserId) × (verified q ≡ some i) × IsEntitled l i q m)
unfolding allowed
allowed-IsEntitled anyone q m h = inl refl
allowed-IsEntitled ordinary q m h =
    inr (entitled_at (verified q) 3 m (omega arith) (ground (arith, h)))
allowed-IsEntitled administrator q m h =
    inr (entitled_at (verified q) 5 m (omega arith) (ground (arith, h)))
allowed-IsEntitled author q m h = elim (Bool-cases (leb 5 (authority_at (verified q) m))) [
  | inl e ↦
      let (i, v, k) = entitled_at (verified q) 5 m (omega arith) (ground (arith, e)) in
      inr (i, v, inl k)
  | inr e ↦
      let (i, v, k) = entitled_at (verified q) 3 m (omega arith) (ground (arith, h)) in
      let named : same_user (verified q) (bind_text (get_text (codes "UserId") q)) ≡ true =
        ground (arith, h, e) in
      inr (
        i,
        v,
        inr (
          k,
          same_user-true i _
              (subst (λ o. same_user o (bind_text (get_text (codes "UserId") q)) ≡ true) v named),
        ),
      )
]

module _ {W : Type 0} (user_of_token : Bytes → W → Bytes)
    (perform : Service → Json → W → Json × W) where
  -- Whom a request speaks for: the user of its token, or, where it has none, the one that it names itself.
  abbrev pub Speaker : Json → W → Bytes → Type 0
  Speaker q w u =
      ((t : Bytes) × (get_text (codes "Token") q ≡ some t) × (u ≡ user_of_token t w))
      ⊎ ((get_text (codes "Token") q ≡ none) × (get_text (codes "VerifyId") q ≡ some u))

  -- The request speaks for a user that may do what the level asks for.
  abbrev pub IsPermitted : Level → Json → State W → Type 0
  IsPermitted l q s =
      (u : Bytes) × (i : UserId) × Speaker q s.world u
      × (stoll u ≡ some i)
      × IsEntitled l i q s.authorities

  -- A user that is verified is one the request speaks for.
  Verifies : Json → W → Option Json → Type 0
  Verifies q w none = Unit
  Verifies q w (some q') =
      ((i : UserId) → verified q' ≡ some i → (u : Bytes) × Speaker q w u × (stoll u ≡ some i))
      × (get_text (codes "UserId") q' ≡ get_text (codes "UserId") q)

  read_text :
      (o : Option Bytes) (i : UserId)
      → bind_text o ≡ some i
      → (u : Bytes) × (o ≡ some u) × (stoll u ≡ some i)
  read_text none i h = absurd cc
  read_text (some u) i h = (u, refl, h)

  unchanged-Verifies :
      (q : Json) (w : W) → get_text (codes "Token") q ≡ none → Verifies q w (some q)
  unfolding verified Verifies
  unchanged-Verifies q w e = (
    λ i h. let (u, k, l) = read_text (get_text (codes "VerifyId") q) i h in (u, inr (e, k), l),
    refl,
  )

  verify-Verifies :
      (o : Option Value) (q : Json) (w : W)
      → lookup (codes "Token") q ≡ o
      → Verifies q w (verify user_of_token o q w)
  unfolding verify verified Verifies get_text text_of
  verify-Verifies none q w e = unchanged-Verifies q w (ap text_of e)
  verify-Verifies (some (number i)) q w e = tt
  verify-Verifies (some (other v)) q w e =
      if-cases (Verifies q w) (is_empty_value v) (some q) none
        (λ z. unchanged-Verifies q w (ap text_of e)) (λ z. tt)
  verify-Verifies (some (text t)) q w e =
      let u = user_of_token t w in
      let stored = lookup-insert (codes "VerifyId") (codes "VerifyId") (text u) q in
      (
        λ i h. (u, inl (t, ap text_of e, refl), ap (λ v. bind_text (text_of v)) (sym stored) ∙ h),
        ap text_of (lookup-insert (codes "VerifyId") (codes "UserId") (text u) q),
      )

  IsEntitled-same :
      (l : Level) (i : UserId) (q q' : Json) (m : List (UserId × ℕ))
      → get_text (codes "UserId") q' ≡ get_text (codes "UserId") q
      → IsEntitled l i q' m
      → IsEntitled l i q m
  IsEntitled-same anyone i q q' m e h = h
  IsEntitled-same ordinary i q q' m e h = h
  IsEntitled-same administrator i q q' m e h = h
  IsEntitled-same author i q q' m e h =
      subst (λ o. (5 ≤ authority_of i m) ⊎ ((3 ≤ authority_of i m) × (bind_text o ≡ some i))) e h

  IsAllowed-IsPermitted :
      (l : Level) (q : Json) (s : State W) (o : Option Json)
      → Verifies q s.world o
      → IsAllowed user_of_token perform l o s
      → (l ≡ anyone) ⊎ IsPermitted l q s
  unfolding Verifies
  IsAllowed-IsPermitted l q s none v h = absurd cc
  IsAllowed-IsPermitted l q s (some q') v h = elim (allowed-IsEntitled l q' s.authorities h) [
    | inl free ↦ inl free
    | inr (i, e, k) ↦
        let (u, speaks, reads) = v.0 i e in
        inr (u, i, speaks, reads, IsEntitled-same l i q q' s.authorities v.1 k)
  ]

  -- Every request for what is protected speaks for a user that is entitled to it: by the map of authorities
  -- an administrator where administrators are meant, a registered user where users are, and the registered
  -- user that the request is about, or an administrator, where a user's own data and articles are; or the
  -- answer is "no permission" (or the code throws) and nothing in the databases has changed. The user is
  -- that of the token, or without a token the one that the request names itself.
  pub handle-IsPermitted :
      (h : Handler) (q : Json) (s : State W)
      → (protection h ≡ anyone)
        ⊎ (IsPermitted (protection h) q s
            ⊎ IsRefused user_of_token perform s.world (handle user_of_token perform h q s))
  unfolding token_to_verify_id
  handle-IsPermitted h q s = elim (handle-IsAllowed user_of_token perform h q s) [
    | inl free ↦ inl (sym (level_of-protection h) ∙ free)
    | inr (inr refused) ↦ inr (inr refused)
    | inr (inl passed) ↦
        elim (IsAllowed-IsPermitted (level_of h) q s _ (verify-Verifies _ q s.world refl) passed) [
          | inl free ↦ inl (sym (level_of-protection h) ∙ free)
          | inr may ↦ inr (inl (subst (λ l. IsPermitted l q s) (level_of-protection h) may))
        ]
  ]
