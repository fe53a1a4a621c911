-- ===== src/Oj/Control/Tests.antt =====
-- Requests of a small server, and the theorems on them.
use myoj.Common.{ℕ, suc, ◌≡◌, refl, ◌⊎◌, false, some, [], ◌∷◌}
use myoj.Common.Bytes.{Bytes, codes, lookup, insert}
use myoj.Oj.Users.{
  text, number, Json, State, anyone, administrator, text_of, get_text, leading_digits, in_range,
  stoll, authority_of, set_authority, erase_authority, touch_authority, authority_at, verified,
  touch, same_user, allowed, verify, token_to_verify_id,
}
use myoj.Oj.Control.{
  Service, Handler, level_of, service_of, no_permission, is_text, register_user, edit_problem,
  delete_solution, delete_user,
}
use myoj.Oj.Control.Handlers.{
  run_service, register, forget, edited, edit, update_comments, field_of, insert_kind, insert_in,
  count_deleted, deleted, delete_son, delete_in, delete_comments, delete_article, comments_of,
  tags_of, pass_on, act, check, guarded, handle,
}
use myoj.Oj.Control.Guards.{IsRefused}
use myoj.Oj.Control.Permitted.{protection, IsPermitted, handle-IsPermitted}
use myoj.Oj.Control.Unreachable.{Reachable, started, served, no_administrator}

unfoldable pub control_code : Unit {0}
unfolding lookup insert text_of get_text leading_digits in_range stoll authority_of set_authority
    erase_authority touch_authority authority_at verified touch same_user allowed verify
    token_to_verify_id level_of service_of is_text run_service register forget edited edit
    update_comments field_of insert_kind insert_in count_deleted deleted delete_son delete_in
    delete_comments delete_article comments_of tags_of pass_on act check guarded handle
control_code = tt

-- A token is the user's number; the databases count their calls and say yes.
abbrev pub by_token : Bytes → ℕ → Bytes
by_token t w = t

abbrev pub yes_man : Service → Json → ℕ → Json × ℕ
yes_man f q w = (
  (codes "Result", text (codes "Success"))
      ∷ (codes "Id", number (record { negative = false; magnitude = 7 }))
      ∷ [],
  suc w,
)

abbrev pub at_start : State ℕ
at_start = record { authorities = []; world = 0 }

abbrev pub registered : State ℕ
registered = record {
  authorities = (record { negative = false; magnitude = 7 }, 3) ∷ [];
  world = 1;
}

abbrev by_seven : Bytes → Bytes → Json
by_seven key value = (codes "Token", text (codes "7")) ∷ (key, text value) ∷ []

registers :
    handle by_token yes_man register_user [] at_start
    ≡ some ((yes_man myoj.Oj.Control.call_register_user [] 0).0, registered)
unfolding control_code
registers = refl

-- An ordinary user may delete what it says is its own, and no one edits a problem.
edits_nothing :
    handle by_token yes_man edit_problem (by_seven (codes "EditType") (codes "Insert")) registered
    ≡ some (no_permission, registered)
unfolding control_code
edits_nothing = refl

registered-Reachable : Reachable by_token yes_man registered
registered-Reachable =
    served register_user [] (yes_man myoj.Oj.Control.call_register_user [] 0).0 at_start registered
      (started 0) registers

edit-administrator : level_of edit_problem ≡ administrator
unfolding control_code
edit-administrator = refl

no_administrator_example :
    IsRefused by_token yes_man 1 (
      handle by_token yes_man edit_problem
        (by_seven (codes "EditType") (codes "Insert"))
        registered)
no_administrator_example =
    no_administrator by_token yes_man registered edit_problem
      (by_seven (codes "EditType") (codes "Insert")) registered-Reachable edit-administrator

handle-IsPermitted_example :
    (protection delete_solution ≡ anyone)
    ⊎ (IsPermitted by_token yes_man
          (protection delete_solution)
          (by_seven (codes "UserId") (codes "8"))
          registered
        ⊎ IsRefused by_token yes_man 1 (
            handle by_token yes_man delete_solution
              (by_seven (codes "UserId") (codes "8"))
              registered))
handle-IsPermitted_example =
    handle-IsPermitted by_token yes_man delete_solution (by_seven (codes "UserId") (codes "8"))
      registered
