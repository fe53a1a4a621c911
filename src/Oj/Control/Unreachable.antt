-- ===== src/Oj/Control/Unreachable.antt =====
-- Control.cpp: what the authorities of the users can become.
use myoj.Common.{
  ◌≡◌, ◌∙◌, inl, inr, true, false, if-cases, Option, none, some, [], subst, sym, arith,
}
use myoj.Common.Bytes.{Bytes, codes, bytes_eq, lookup}
use myoj.Oj.Users.{
  UserId, Value, text, number, other, Json, State, Level, anyone, ordinary, author, administrator,
  verified, allowed, token_to_verify_id, get_text, bind_text,
}
use myoj.Oj.Users.Authority.{
  IsLow, set_authority-IsLow, erase_authority-IsLow, touch-IsLow, allowed_administrator,
}
use myoj.Oj.Control.{
  Service, Handler, level_of, service_of, no_permission, is_text, result_key, register_user,
  delete_user, edit_problem, get_comment, insert_comment, delete_comment, delete_announcement,
  delete_solution, delete_discuss, get_tags, get_judge_code,
}
use myoj.Oj.Control.Handlers.{
  Result, run_service, register, forget, edited, edit, update_comments, insert_kind, insert_in,
  count_deleted, deleted, delete_son, delete_in, delete_comments, delete_article, comments_of,
  tags_of, pass_on, judge_code, act, check, guarded, handle,
}
use myoj.Oj.Control.Guards.{IsRefused, IsAllowed, handle-IsAllowed}

module _ {W : Type 0} (user_of_token : Bytes → W → Bytes)
    (perform : Service → Json → W → Json × W) where
  abbrev StaysLow : Result user_of_token perform → Type 0
  StaysLow none = Unit
  StaysLow (some (r, s)) = IsLow s.authorities

  abbrev Low : Json × State W → Type 0
  Low (r, s) = IsLow s.authorities

  run_service-Low :
      (f : Service) (q : Json) (s : State W)
      → IsLow s.authorities
      → IsLow (run_service user_of_token perform f q s).1.authorities
  unfolding run_service
  run_service-Low f q s h = h

  register-StaysLow :
      (o : Option Bytes) (i : Option Value) (r : Json) (s : State W)
      → IsLow s.authorities
      → StaysLow (register user_of_token perform o i r s)
  unfolding register
  register-StaysLow none i r s h = tt
  register-StaysLow (some t) (some (number i)) r s h =
      if-cases (λ (z : State W). IsLow z.authorities) (bytes_eq t (codes "Success")) _ s
        (λ e. set_authority-IsLow i 3 s.authorities (omega arith) h) (λ e. h)
  register-StaysLow (some t) (some (text i)) r s h =
      if-cases StaysLow (bytes_eq t (codes "Success")) none _ (λ e. tt) (λ e. h)
  register-StaysLow (some t) (some (other i)) r s h =
      if-cases StaysLow (bytes_eq t (codes "Success")) none _ (λ e. tt) (λ e. h)
  register-StaysLow (some t) none r s h =
      if-cases StaysLow (bytes_eq t (codes "Success")) none _ (λ e. tt) (λ e. h)

  forget-StaysLow :
      (o : Option Bytes) (i : Option UserId) (r : Json) (s : State W)
      → IsLow s.authorities
      → StaysLow (forget user_of_token perform o i r s)
  unfolding forget
  forget-StaysLow none i r s h = tt
  forget-StaysLow (some t) none r s h =
      if-cases StaysLow (bytes_eq t (codes "Success")) none _ (λ e. tt) (λ e. h)
  forget-StaysLow (some t) (some i) r s h =
      if-cases (λ (z : State W). IsLow z.authorities) (bytes_eq t (codes "Success")) _ s
        (λ e. erase_authority-IsLow i s.authorities h) (λ e. h)

  edit-StaysLow :
      (o : Option Bytes) (q : Json) (s : State W)
      → IsLow s.authorities
      → StaysLow (edit user_of_token perform o q s)
  unfolding edit edited run_service
  edit-StaysLow none q s h = tt
  edit-StaysLow (some t) q s h =
      if-cases Low (bytes_eq t (codes "Insert")) _ _ (λ e. h)
        (λ e. if-cases Low (bytes_eq t (codes "Update")) _ _ (λ f. h) (λ f. h))

  update_comments-Low :
      (kind : Bytes) (q : Json) (s : State W)
      → IsLow s.authorities
      → IsLow (update_comments user_of_token perform kind q s).authorities
  unfolding update_comments run_service
  update_comments-Low kind q s h =
      let P : State W → Type 0 = λ z. IsLow z.authorities in
      if-cases P (bytes_eq kind (codes "Discuss")) _ _ (λ e. h)
        (λ e.
          if-cases P (bytes_eq kind (codes "Solution")) _ _ (λ f. h)
            (λ f. if-cases P (bytes_eq kind (codes "Announcement")) _ s (λ g. h) (λ g. h)))

  insert_kind-StaysLow :
      (o : Option Bytes) (q : Json) (s : State W)
      → IsLow s.authorities
      → StaysLow (insert_kind user_of_token perform o q s)
  unfolding insert_kind run_service
  insert_kind-StaysLow none q s h = tt
  insert_kind-StaysLow (some t) q s h =
      if-cases Low (bytes_eq t (codes "Father")) _ _ (λ e. h) (λ e. h)

  insert_in-StaysLow :
      (o : Option Bytes) (q : Json) (s : State W)
      → IsLow s.authorities
      → StaysLow (insert_in user_of_token perform o q s)
  unfolding insert_in
  insert_in-StaysLow none q s h = tt
  insert_in-StaysLow (some kind) q s h = insert_kind-StaysLow _ q _ (update_comments-Low kind _ s h)

  count_deleted-StaysLow :
      (article : Bytes) (o : Option UserId) (k : Option Bytes) (s : State W)
      → IsLow s.authorities
      → StaysLow (count_deleted user_of_token perform article o k s)
  unfolding count_deleted
  count_deleted-StaysLow article (some n) (some kind) s h = update_comments-Low kind _ s h
  count_deleted-StaysLow article (some n) none s h = tt
  count_deleted-StaysLow article none k s h = tt

  deleted-StaysLow :
      (article : Bytes) (p : Json × State W)
      → Low p
      → StaysLow (deleted user_of_token perform article p)
  unfolding deleted
  deleted-StaysLow article (r, s) h =
      if-cases StaysLow (is_text (codes "Fail") (lookup result_key r)) _ _ (λ e. h)
        (λ e.
          count_deleted-StaysLow article (bind_text (get_text (codes "DeleteNum") r))
            (get_text (codes "ArticleType") r) s h)

  delete_son-Low :
      (q : Json) (p : Json × State W) → Low p → Low (delete_son user_of_token perform q p)
  unfolding delete_son run_service
  delete_son-Low q (r, s) h =
      if-cases Low (is_text (codes "Fail") (lookup result_key r)) _ _ (λ e. h) (λ e. h)

  delete_in-StaysLow :
      (o : Option Bytes) (q : Json) (s : State W)
      → IsLow s.authorities
      → StaysLow (delete_in user_of_token perform o q s)
  unfolding delete_in
  delete_in-StaysLow none q s h = tt
  delete_in-StaysLow (some article) q s h =
      deleted-StaysLow article _ (delete_son-Low q _ (run_service-Low _ q s h))

  delete_comments-StaysLow :
      (o : Option Bytes) (i : Option Value) (p : Json × State W)
      → Low p
      → StaysLow (delete_comments user_of_token perform o i p)
  unfolding delete_comments run_service
  delete_comments-StaysLow none i (r, s) h = tt
  delete_comments-StaysLow (some t) i (r, s) h =
      if-cases StaysLow (bytes_eq t (codes "Success")) _ _ (λ e. h) (λ e. h)

  delete_article-StaysLow :
      (f : Service) (key : Bytes) (q : Json) (s : State W)
      → IsLow s.authorities
      → StaysLow (delete_article user_of_token perform f key q s)
  unfolding delete_article
  delete_article-StaysLow f key q s h =
      delete_comments-StaysLow _ _ (run_service user_of_token perform f q s)
        (run_service-Low f q s h)

  comments_of-StaysLow :
      (o : Option Bytes) (q : Json) (s : State W)
      → IsLow s.authorities
      → StaysLow (comments_of user_of_token perform o q s)
  unfolding comments_of run_service
  comments_of-StaysLow none q s h = tt
  comments_of-StaysLow (some t) q s h =
      if-cases Low (bytes_eq t (codes "Father")) _ _ (λ e. h) (λ e. h)

  tags_of-StaysLow :
      (o : Option Bytes) (s : State W)
      → IsLow s.authorities
      → StaysLow (tags_of user_of_token perform o s)
  unfolding tags_of run_service
  tags_of-StaysLow none s h = tt
  tags_of-StaysLow (some t) s h = if-cases Low (bytes_eq t (codes "Problem")) _ _ (λ e. h) (λ e. h)

  pass_on-StaysLow :
      (o : Option Service) (q : Json) (s : State W)
      → IsLow s.authorities
      → StaysLow (pass_on user_of_token perform o q s)
  unfolding pass_on
  pass_on-StaysLow none q s h = tt
  pass_on-StaysLow (some f) q s h = run_service-Low f q s h

  judge_code-Low :
      (q : Json) (s : State W) → IsLow s.authorities → Low (judge_code user_of_token perform q s)
  unfolding judge_code run_service
  judge_code-Low q s h = h

  pub act-StaysLow :
      (k : Handler) (q : Json) (s : State W)
      → IsLow s.authorities
      → StaysLow (act user_of_token perform k q s)
  unfolding act
  act-StaysLow register_user q s h =
      register-StaysLow _ _ _ _ (run_service-Low myoj.Oj.Control.call_register_user q s h)
  act-StaysLow delete_user q s h =
      forget-StaysLow _ _ _ _ (run_service-Low myoj.Oj.Control.call_delete_user q s h)
  act-StaysLow edit_problem q s h = edit-StaysLow _ q s h
  act-StaysLow get_comment q s h = comments_of-StaysLow _ q s h
  act-StaysLow insert_comment q s h = insert_in-StaysLow _ q s h
  act-StaysLow delete_comment q s h = delete_in-StaysLow _ q s h
  act-StaysLow delete_announcement q s h = delete_article-StaysLow _ _ q s h
  act-StaysLow delete_solution q s h = delete_article-StaysLow _ _ q s h
  act-StaysLow delete_discuss q s h = delete_article-StaysLow _ _ q s h
  act-StaysLow get_tags q s h = tags_of-StaysLow _ s h
  act-StaysLow get_judge_code q s h = judge_code-Low q s h
  act-StaysLow _ q s h = pass_on-StaysLow _ q s h

  check-StaysLow :
      (l : Level) (k : Handler) (o : Option Json) (s : State W)
      → IsLow s.authorities
      → StaysLow (check user_of_token perform l k o s)
  unfolding check
  check-StaysLow l k none s h = tt
  check-StaysLow l k (some q) s h =
      if-cases StaysLow (allowed l q s.authorities) _ _
        (λ e. act-StaysLow k q _ (touch-IsLow (verified q) s.authorities h))
        (λ e. touch-IsLow (verified q) s.authorities h)

  guarded-StaysLow :
      (l : Level) (k : Handler) (q : Json) (s : State W)
      → IsLow s.authorities
      → StaysLow (guarded user_of_token perform l k q s)
  unfolding guarded
  guarded-StaysLow anyone k q s h = act-StaysLow k q s h
  guarded-StaysLow ordinary k q s h = check-StaysLow ordinary k _ s h
  guarded-StaysLow author k q s h = check-StaysLow author k _ s h
  guarded-StaysLow administrator k q s h = check-StaysLow administrator k _ s h

  -- The states of a server that was started: no user is known at first, since nothing calls
  -- `InitUserAuthority`. Handlers are called in any order; the databases may change by themselves.
  pub data Reachable : State W → Type 0 where
    started : (w : W) → Reachable (record { authorities = []; world = w })
    changed : (s : State W) (w : W) → Reachable s → Reachable (record s { world = w })
    served :
        (k : Handler) (q r : Json) (s s' : State W)
        → Reachable s
        → handle user_of_token perform k q s ≡ some (r, s')
        → Reachable s'

  Reachable-IsLow : (s : State W) → Reachable s → IsLow s.authorities
  unfolding handle
  Reachable-IsLow _ (started w) = tt
  Reachable-IsLow _ (changed s w h) = Reachable-IsLow s h
  Reachable-IsLow _ (served k q r s s' h e) =
      subst StaysLow e (guarded-StaysLow (level_of k) k q s (Reachable-IsLow s h))

  never_allowed :
      (o : Option Json) (s : State W)
      → IsLow s.authorities
      → IsAllowed user_of_token perform administrator o s
      → true ≡ false
  never_allowed none s h e = e
  never_allowed (some q) s h e = sym e ∙ allowed_administrator q s.authorities h

  -- No user ever becomes an administrator: after any sequence of requests, every handler that asks
  -- for one answers "no permission" to everybody (or throws) and changes nothing in the databases.
  pub no_administrator :
      (s : State W) (k : Handler) (q : Json)
      → Reachable s
      → level_of k ≡ administrator
      → IsRefused user_of_token perform s.world (handle user_of_token perform k q s)
  no_administrator s k q h e = elim (handle-IsAllowed user_of_token perform k q s) [
    | inl free ↦ absurd (ground (arith, e, free))
    | inr (inl passed) ↦ absurd (
        ground (
          arith,
          never_allowed (token_to_verify_id user_of_token q s.world) s (Reachable-IsLow s h) (
              subst
                (λ l.
                  IsAllowed user_of_token perform l (token_to_verify_id user_of_token q s.world) s)
                e passed),
        ))
    | inr (inr refused) ↦ refused
  ]
