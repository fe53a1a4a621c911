-- ===== src/Oj/Control/Handlers.antt =====
-- Control.cpp: what the handlers do behind their check, and the check itself.
use myoj.Common.{false, not, Option, none, some, List, [], ◌∷◌, ◌++◌, if◌then◌else◌}
use myoj.Common.Bytes.{Bytes, codes, bytes_eq, lookup, insert}
use myoj.Oj.Users.{
  UserId, Value, text, number, other, Json, State, Level, anyone, bind_text, get_text,
  set_authority, erase_authority, verified, touch, allowed, token_to_verify_id,
}
use myoj.Oj.Control.{
  Service, Handler, level_of, service_of, result_key, no_permission, is_text, register_user,
  delete_user, edit_problem, get_comment, insert_comment, delete_comment, delete_announcement,
  delete_solution, delete_discuss, get_tags, get_judge_code, call_run_judger,
  call_insert_status_record, call_update_problem_status_num, call_update_user_problem_info,
  call_delete_announcement, call_delete_article_comment, call_delete_discuss,
  call_delete_father_comment, call_delete_solution, call_delete_son_comment, call_delete_user,
  call_get_father_comment, call_get_problem_tags, call_get_son_comment, call_init_problem_tags,
  call_insert_father_comment, call_insert_problem, call_insert_son_comment, call_register_user,
  call_update_announcement_comments, call_update_discuss_comments, call_update_problem,
  call_update_solution_comments,
}

module _ {W : Type 0} (user_of_token : Bytes → W → Bytes)
    (perform : Service → Json → W → Json × W) where
  abbrev pub Result : Type 0
  Result = Option (Json × State W)

  unfoldable pub run_service : Service → Json → State W → Json × State W
  run_service f q s = let (r, w) = perform f q s.world in (r, record s { world = w })

  -- `UserList::RegisterUser`: a new user becomes an ordinary one.
  unfoldable pub register : Option Bytes → Option Value → Json → State W → Result
  register none i r s = none
  register (some t) (some (number i)) r s = some (
    r,
    if bytes_eq t (codes "Success")
        then record s { authorities = set_authority i 3 s.authorities }
        else s,
  )
  register (some t) _ r s = if bytes_eq t (codes "Success") then none else some (r, s)

  -- `UserList::DeleteUser`.
  unfoldable pub forget : Option Bytes → Option UserId → Json → State W → Result
  forget none i r s = none
  forget (some t) none r s = if bytes_eq t (codes "Success") then none else some (r, s)
  forget (some t) (some i) r s = some (
    r,
    if bytes_eq t (codes "Success")
        then record s { authorities = erase_authority i s.authorities }
        else s,
  )

  unfoldable pub edited : Json × State W → Result
  edited (r, s) = let (tags, s') = run_service call_init_problem_tags [] s in some (r, s')

  unfoldable pub edit : Option Bytes → Json → State W → Result
  edit none q s = none
  edit (some t) q s = edited (
      if bytes_eq t (codes "Insert")
      then run_service call_insert_problem q s
      else (if bytes_eq t (codes "Update") then run_service call_update_problem q s else ([], s)))

  -- The number of comments of an article; other types have none.
  unfoldable pub update_comments : Bytes → Json → State W → State W
  update_comments kind q s =
      if bytes_eq kind (codes "Discuss")
      then (run_service call_update_discuss_comments q s).1
      else (if bytes_eq kind (codes "Solution")
          then (run_service call_update_solution_comments q s).1
          else (if bytes_eq kind (codes "Announcement")
              then (run_service call_update_announcement_comments q s).1
              else s))

  unfoldable pub insert_kind : Option Bytes → Json → State W → Result
  insert_kind none q s = none
  insert_kind (some t) q s = some (
      if bytes_eq t (codes "Father")
      then run_service call_insert_father_comment q s
      else run_service call_insert_son_comment q s)

  unfoldable pub field_of : Option Value → Bytes → Json
  field_of none k = []
  field_of (some v) k = (k, v) ∷ []

  -- The number of comments is a JSON number.
  unfoldable pub insert_in : Option Bytes → Json → State W → Result
  insert_in none q s = none
  insert_in (some kind) q s = insert_kind (get_text (codes "Type") q) q (
      update_comments kind
        (insert (codes "Num") (number (record { negative = false; magnitude = 1 }))
          (field_of (lookup (codes "ArticleId") q) (codes "ArticleId")))
        s)

  abbrev pub negate : UserId → UserId
  negate i = record i { negative = not i.negative }

  -- The number is an `int` that the database printed.
  unfoldable pub count_deleted : Bytes → Option UserId → Option Bytes → State W → Result
  count_deleted article (some n) (some kind) s = some (
    (result_key, text (codes "Success")) ∷ [],
    update_comments kind ((codes "Num", number (negate n)) ∷ (codes "ArticleId", text article) ∷ [])
        s,
  )
  count_deleted article _ _ s = none

  -- Behind the two attempts to delete.
  unfoldable pub deleted : Bytes → Json × State W → Result
  deleted article (r, s) =
      if is_text (codes "Fail") (lookup result_key r)
      then some
          ((result_key, text (codes "Fail")) ∷ (codes "Reason", text (codes "数据库未查询到数据！")) ∷ [], s)
      else count_deleted article (bind_text (get_text (codes "DeleteNum") r))
          (get_text (codes "ArticleType") r) s

  unfoldable pub delete_son : Json → Json × State W → Json × State W
  delete_son q (r, s) =
      if is_text (codes "Fail") (lookup result_key r)
      then run_service call_delete_son_comment q s
      else (r, s)

  unfoldable pub delete_in : Option Bytes → Json → State W → Result
  delete_in none q s = none
  delete_in (some article) q s =
      deleted article (delete_son q (run_service call_delete_father_comment q s))

  -- The comments of an article go with it.
  unfoldable pub delete_comments : Option Bytes → Option Value → Json × State W → Result
  delete_comments none i (r, s) = none
  delete_comments (some t) i (r, s) =
      if bytes_eq t (codes "Success")
      then some (r, (run_service call_delete_article_comment (field_of i (codes "ArticleId")) s).1)
      else some (r, s)

  unfoldable pub delete_article : Service → Bytes → Json → State W → Result
  delete_article f key q s =
      let (r, s') = run_service f q s in
      delete_comments (get_text result_key r) (lookup key q) (r, s')

  unfoldable pub comments_of : Option Bytes → Json → State W → Result
  comments_of none q s = none
  comments_of (some t) q s = some (
      if bytes_eq t (codes "Father")
      then run_service call_get_father_comment q s
      else run_service call_get_son_comment q s)

  unfoldable pub tags_of : Option Bytes → State W → Result
  tags_of none s = none
  tags_of (some t) s =
      some
        (if bytes_eq t (codes "Problem") then run_service call_get_problem_tags [] s else ([], s))

  unfoldable pub copy_fields : List Bytes → Json → Json
  copy_fields [] q = []
  copy_fields (k ∷ ks) q = field_of (lookup k q) k ++ copy_fields ks q

  -- What the judge is given.
  abbrev pub judge_keys : List Bytes
  judge_keys =
      codes "UserId"
      ∷ codes "UserNickName"
      ∷ codes "ProblemTitle"
      ∷ codes "Code"
      ∷ codes "SubmitId"
      ∷ codes "ProblemId"
      ∷ codes "Language"
      ∷ codes "JudgeNum"
      ∷ codes "TimeLimit"
      ∷ codes "MemoryLimit"
      ∷ []

  -- `GetJudgeCode`, which asks for no permission.
  unfoldable pub judge_code : Json → State W → Json × State W
  judge_code q s =
      let (judged, s₁) = run_service call_run_judger (copy_fields judge_keys q) s in
      let (submit, s₂) = run_service call_insert_status_record judged s₁ in
      let update =
        field_of (lookup (codes "ProblemId") q) (codes "ProblemId")
        ++ field_of (lookup (codes "Status") judged) (codes "Status") in
      let (numbered, s₃) = run_service call_update_problem_status_num update s₂ in
      let (first, s₄) =
        run_service call_update_user_problem_info
          (update ++ field_of (lookup (codes "UserId") q) (codes "UserId")) s₃ in
      (
        (
          codes "IsFirstAC",
          other (
              if is_text (codes "true") (lookup result_key first)
              then codes "true"
              else codes "false"),
        )
            ∷ (result_key, text (codes "Success"))
            ∷ copy_fields (codes "Status" ∷ codes "ComplierInfo" ∷ []) judged,
        s₄,
      )

  unfoldable pub pass_on : Option Service → Json → State W → Result
  pass_on none q s = none
  pass_on (some f) q s = some (run_service f q s)

  -- A handler behind its check.
  unfoldable pub act : Handler → Json → State W → Result
  act register_user q s =
      let (r, s') = run_service call_register_user q s in
      register (get_text result_key r) (lookup (codes "Id") r) r s'
  act delete_user q s =
      let (r, s') = run_service call_delete_user q s in
      forget (get_text result_key r) (bind_text (get_text (codes "UserId") q)) r s'
  act edit_problem q s = edit (get_text (codes "EditType") q) q s
  act get_comment q s = comments_of (get_text (codes "Type") q) q s
  act insert_comment q s = insert_in (get_text (codes "ArticleType") q) q s
  act delete_comment q s = delete_in (get_text (codes "ArticleId") q) q s
  act delete_announcement q s = delete_article call_delete_announcement (codes "AnnouncementId") q s
  act delete_solution q s = delete_article call_delete_solution (codes "SolutionId") q s
  act delete_discuss q s = delete_article call_delete_discuss (codes "DiscussId") q s
  act get_tags q s = tags_of (get_text (codes "TagType") q) s
  act get_judge_code q s = some (judge_code q s)
  act h q s = pass_on (service_of h) q s

  -- The check leaves an entry for the user that it looked up.
  unfoldable pub check : Level → Handler → Option Json → State W → Result
  check l h none s = none
  check l h (some q) s =
      let touched = record s { authorities = touch (verified q) s.authorities } in
      if allowed l q s.authorities then act h q touched else some (no_permission, touched)

  unfoldable pub guarded : Level → Handler → Json → State W → Result
  guarded anyone h q s = act h q s
  guarded l h q s = check l h (token_to_verify_id user_of_token q s.world) s

  unfoldable pub handle : Handler → Json → State W → Result
  handle h q s = guarded (level_of h) h q s
