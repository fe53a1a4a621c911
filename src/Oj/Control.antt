-- ===== src/Oj/Control.antt =====
-- oj/src/Control.cpp: the handlers of the judge's web interface. What the lists and the databases behind
-- them do is a parameter, and so is here the judge, which is modelled in its own modules. A result is
-- none when the code throws. A service that returns a bool gives it as a text under "Result".
pub mod Handlers
pub mod Guards
pub mod Permitted
pub mod Unreachable
pub mod Tests
use myoj.Common.{Bool, false, Option, none, some, List, [], ◌∷◌}
use myoj.Common.Bytes.{Bytes, codes, bytes_eq}
use myoj.Oj.Users.{Value, text, Json, Level, anyone, ordinary, author, administrator}

-- What the handlers call: the functions of the lists.
pub data Service : Type 0 where
  call_login_user call_login_user_by_token call_select_user_rank call_select_user_info : Service
  call_update_user_info call_select_user_update_info call_select_user_set_info : Service
  call_select_problem_info_by_admin call_select_problem call_delete_problem : Service
  call_select_problem_list call_select_problem_list_by_admin call_select_status_record_list :
      Service
  call_select_status_record call_select_comment_list_by_admin call_select_announcement_list :
      Service
  call_select_announcement_list_by_admin call_select_announcement : Service
  call_select_announcement_by_edit call_insert_announcement call_update_announcement : Service
  call_select_solution_list call_select_solution_list_by_admin call_select_solution : Service
  call_select_solution_by_edit call_insert_solution call_update_solution : Service
  call_select_discuss_list call_select_discuss_list_by_admin call_select_discuss : Service
  call_select_discuss_by_edit call_insert_discuss call_update_discuss call_register_user : Service
  call_delete_user call_insert_problem call_update_problem call_init_problem_tags : Service
  call_get_father_comment call_get_son_comment call_update_discuss_comments : Service
  call_update_solution_comments call_update_announcement_comments call_insert_father_comment :
      Service
  call_insert_son_comment call_delete_father_comment call_delete_son_comment : Service
  call_delete_announcement call_delete_solution call_delete_discuss : Service
  call_delete_article_comment call_get_problem_tags call_run_judger : Service
  call_insert_status_record call_update_problem_status_num call_update_user_problem_info : Service

pub data Handler : Type 0 where
  login_user login_user_by_token select_user_rank select_user_info update_user_info : Handler
  select_user_update_info select_user_set_info select_problem_info_by_admin select_problem : Handler
  delete_problem select_problem_list select_problem_list_by_admin select_status_record_list :
      Handler
  select_status_record select_comment_list_by_admin select_announcement_list : Handler
  select_announcement_list_by_admin select_announcement select_announcement_by_edit : Handler
  insert_announcement update_announcement select_solution_list select_solution_list_by_admin :
      Handler
  select_solution select_solution_by_edit insert_solution update_solution : Handler
  select_discuss_list select_discuss_list_by_admin select_discuss select_discuss_by_edit : Handler
  insert_discuss update_discuss register_user delete_user edit_problem get_comment : Handler
  insert_comment delete_comment delete_announcement delete_solution delete_discuss get_tags :
      Handler
  get_judge_code : Handler

-- The permission each handler checks first.
unfoldable pub level_of : Handler → Level
level_of login_user = anyone
level_of login_user_by_token = anyone
level_of select_user_rank = anyone
level_of select_user_info = anyone
level_of update_user_info = author
level_of select_user_update_info = author
level_of select_user_set_info = administrator
level_of select_problem_info_by_admin = administrator
level_of select_problem = anyone
level_of delete_problem = administrator
level_of select_problem_list = anyone
level_of select_problem_list_by_admin = administrator
level_of select_status_record_list = anyone
level_of select_status_record = anyone
level_of select_comment_list_by_admin = administrator
level_of select_announcement_list = anyone
level_of select_announcement_list_by_admin = administrator
level_of select_announcement = anyone
level_of select_announcement_by_edit = administrator
level_of insert_announcement = administrator
level_of update_announcement = administrator
level_of select_solution_list = anyone
level_of select_solution_list_by_admin = administrator
level_of select_solution = anyone
level_of select_solution_by_edit = ordinary
level_of insert_solution = ordinary
level_of update_solution = author
level_of select_discuss_list = anyone
level_of select_discuss_list_by_admin = administrator
level_of select_discuss = anyone
level_of select_discuss_by_edit = ordinary
level_of insert_discuss = ordinary
level_of update_discuss = author
level_of register_user = anyone
level_of delete_user = administrator
level_of edit_problem = administrator
level_of get_comment = anyone
level_of insert_comment = ordinary
level_of delete_comment = ordinary
level_of delete_announcement = administrator
level_of delete_solution = author
level_of delete_discuss = author
level_of get_tags = anyone
level_of get_judge_code = anyone

abbrev pub result_key : Bytes
result_key = codes "Result"

abbrev pub no_permission : Json
no_permission = (result_key, text (codes "401")) ∷ (codes "Reason", text (codes "无权限")) ∷ []

-- The handlers that pass the request on to one function.
unfoldable pub service_of : Handler → Option Service
service_of login_user = some call_login_user
service_of login_user_by_token = some call_login_user_by_token
service_of select_user_rank = some call_select_user_rank
service_of select_user_info = some call_select_user_info
service_of update_user_info = some call_update_user_info
service_of select_user_update_info = some call_select_user_update_info
service_of select_user_set_info = some call_select_user_set_info
service_of select_problem_info_by_admin = some call_select_problem_info_by_admin
service_of select_problem = some call_select_problem
service_of delete_problem = some call_delete_problem
service_of select_problem_list = some call_select_problem_list
service_of select_problem_list_by_admin = some call_select_problem_list_by_admin
service_of select_status_record_list = some call_select_status_record_list
service_of select_status_record = some call_select_status_record
service_of select_comment_list_by_admin = some call_select_comment_list_by_admin
service_of select_announcement_list = some call_select_announcement_list
service_of select_announcement_list_by_admin = some call_select_announcement_list_by_admin
service_of select_announcement = some call_select_announcement
service_of select_announcement_by_edit = some call_select_announcement_by_edit
service_of insert_announcement = some call_insert_announcement
service_of update_announcement = some call_update_announcement
service_of select_solution_list = some call_select_solution_list
service_of select_solution_list_by_admin = some call_select_solution_list_by_admin
service_of select_solution = some call_select_solution
service_of select_solution_by_edit = some call_select_solution_by_edit
service_of insert_solution = some call_insert_solution
service_of update_solution = some call_update_solution
service_of select_discuss_list = some call_select_discuss_list
service_of select_discuss_list_by_admin = some call_select_discuss_list_by_admin
service_of select_discuss = some call_select_discuss
service_of select_discuss_by_edit = some call_select_discuss_by_edit
service_of insert_discuss = some call_insert_discuss
service_of update_discuss = some call_update_discuss
service_of _ = none

-- `Json::operator==` with a text.
unfoldable pub is_text : Bytes → Option Value → Bool
is_text t (some (text u)) = bytes_eq u t
is_text t _ = false
