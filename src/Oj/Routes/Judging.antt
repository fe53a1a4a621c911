-- ===== src/Oj/Routes/Judging.antt =====
-- OJServer.cc: the functions about users, problems and records.
use myoj.Common.{[], ◌∷◌}
use myoj.Common.Bytes.{codes}
use myoj.Oj.Control.{
  delete_problem, delete_user, edit_problem, get_judge_code, login_user, login_user_by_token,
  register_user, select_problem, select_problem_info_by_admin, select_problem_list,
  select_problem_list_by_admin, select_status_record, select_status_record_list, select_user_info,
  select_user_rank, select_user_set_info, select_user_update_info, update_user_info,
}
use myoj.Oj.Routes.Reads.{
  Route, whole, with_token, token_only, member_with_token, fields, searched, body_and_field,
  lacking, wrong, paging,
}

abbrev pub do_register_user : Route
do_register_user = record { reads = whole; reason = lacking; handler = register_user }

abbrev pub do_login_user : Route
do_login_user = record { reads = whole; reason = lacking; handler = login_user }

abbrev pub do_get_user_info_by_token : Route
do_get_user_info_by_token = record {
  reads = token_only;
  reason = lacking;
  handler = login_user_by_token;
}

abbrev pub do_get_user_rank : Route
do_get_user_rank = record { reads = fields paging; reason = lacking; handler = select_user_rank }

abbrev pub do_get_user_info : Route
do_get_user_info = record {
  reads = fields (codes "UserId" ∷ []);
  reason = lacking;
  handler = select_user_info;
}

abbrev pub do_update_user_info : Route
do_update_user_info = record { reads = with_token; reason = lacking; handler = update_user_info }

abbrev pub do_get_user_update_info : Route
do_get_user_update_info = record {
  reads = fields (codes "UserId" ∷ []);
  reason = lacking;
  handler = select_user_update_info;
}

abbrev pub do_get_user_set_info : Route
do_get_user_set_info = record {
  reads = fields paging;
  reason = lacking;
  handler = select_user_set_info;
}

abbrev pub do_delete_user : Route
do_delete_user = record {
  reads = body_and_field (codes "UserId");
  reason = lacking;
  handler = delete_user;
}

abbrev pub do_get_problem : Route
do_get_problem = record {
  reads = fields (codes "ProblemId" ∷ []);
  reason = lacking;
  handler = select_problem;
}

abbrev pub do_get_problem_list : Route
do_get_problem_list = record {
  reads = searched paging;
  reason = wrong;
  handler = select_problem_list;
}

abbrev pub do_get_problem_list_by_admin : Route
do_get_problem_list_by_admin = record {
  reads = fields paging;
  reason = wrong;
  handler = select_problem_list_by_admin;
}

abbrev pub do_get_problem_info : Route
do_get_problem_info = record {
  reads = fields (codes "ProblemId" ∷ []);
  reason = wrong;
  handler = select_problem_info_by_admin;
}

abbrev pub do_edit_problem : Route
do_edit_problem = record {
  reads = member_with_token (codes "datainfo");
  reason = lacking;
  handler = edit_problem;
}

abbrev pub do_delete_problem : Route
do_delete_problem = record {
  reads = fields (codes "ProblemId" ∷ []);
  reason = wrong;
  handler = delete_problem;
}

abbrev pub do_post_code : Route
do_post_code = record { reads = with_token; reason = lacking; handler = get_judge_code }

abbrev pub do_get_status_record_list : Route
do_get_status_record_list = record {
  reads = searched paging;
  reason = lacking;
  handler = select_status_record_list;
}

abbrev pub do_get_status_record : Route
do_get_status_record = record {
  reads = fields (codes "SubmitId" ∷ []);
  reason = lacking;
  handler = select_status_record;
}
