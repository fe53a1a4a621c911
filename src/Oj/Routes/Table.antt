-- ===== src/Oj/Routes/Table.antt =====
-- OJServer.cc: the paths that `run` enters into the two maps.
use myoj.Common.{Option, none, List, [], ◌∷◌}
use myoj.Common.Bytes.{Bytes, codes, lookup}
use myoj.Http.Request.{Method, get, post}
use myoj.Oj.Routes.Reads.{Route}
use myoj.Oj.Routes.Judging.{
  do_register_user, do_login_user, do_get_user_info_by_token, do_get_user_rank, do_get_user_info,
  do_update_user_info, do_get_user_update_info, do_get_user_set_info, do_delete_user,
  do_get_problem, do_get_problem_list, do_get_problem_list_by_admin, do_get_problem_info,
  do_edit_problem, do_delete_problem, do_post_code, do_get_status_record_list, do_get_status_record,
}
use myoj.Oj.Routes.Articles.{
  do_get_announcement_list, do_get_announcement_list_by_admin, do_get_announcement,
  do_select_announcement, do_insert_announcement, do_update_announcement, do_delete_announcement,
  do_get_solution_list, do_get_solution_list_by_admin, do_get_solution, do_select_solution_by_edit,
  do_insert_solution, do_update_solution, do_delete_solution, do_get_discuss_list,
  do_get_discuss_list_by_admin, do_get_discuss, do_select_discuss_by_edit, do_insert_discuss,
  do_update_discuss, do_delete_discuss, do_select_comment_list_by_admin, do_get_comment,
  do_insert_comment, do_delete_comment,
}

abbrev pub get_map : List (Bytes × Route)
get_map =
    (codes "/user/tokenlogin", do_get_user_info_by_token)
    ∷ (codes "/user/rank", do_get_user_rank)
    ∷ (codes "/user/home", do_get_user_info)
    ∷ (codes "/user/updateinfo", do_get_user_update_info)
    ∷ (codes "/userset", do_get_user_set_info)
    ∷ (codes "/problem", do_get_problem)
    ∷ (codes "/problemlist", do_get_problem_list)
    ∷ (codes "/problemlist/admin", do_get_problem_list_by_admin)
    ∷ (codes "/problem/select", do_get_problem_info)
    ∷ (codes "/statusrecordlist", do_get_status_record_list)
    ∷ (codes "/statusrecord", do_get_status_record)
    ∷ (codes "/announcementlist", do_get_announcement_list)
    ∷ (codes "/announcementlist/admin", do_get_announcement_list_by_admin)
    ∷ (codes "/announcement", do_get_announcement)
    ∷ (codes "/announcement/select", do_select_announcement)
    ∷ (codes "/solutionlist", do_get_solution_list)
    ∷ (codes "/solutionlist/admin", do_get_solution_list_by_admin)
    ∷ (codes "/solution", do_get_solution)
    ∷ (codes "/solution/select", do_select_solution_by_edit)
    ∷ (codes "/discusslist", do_get_discuss_list)
    ∷ (codes "/discusslist/admin", do_get_discuss_list_by_admin)
    ∷ (codes "/discuss", do_get_discuss)
    ∷ (codes "/discuss/select", do_select_discuss_by_edit)
    ∷ (codes "/commentlist/admin", do_select_comment_list_by_admin)
    ∷ (codes "/comment", do_get_comment)
    ∷ []

abbrev pub post_map : List (Bytes × Route)
post_map =
    (codes "/user/register", do_register_user)
    ∷ (codes "/user/login", do_login_user)
    ∷ (codes "/user/update", do_update_user_info)
    ∷ (codes "/user", do_delete_user)
    ∷ (codes "/problem/edit", do_edit_problem)
    ∷ (codes "/problem", do_delete_problem)
    ∷ (codes "/problemcode", do_post_code)
    ∷ (codes "/announcement/insert", do_insert_announcement)
    ∷ (codes "/announcement/update", do_update_announcement)
    ∷ (codes "/announcement", do_delete_announcement)
    ∷ (codes "/solution/insert", do_insert_solution)
    ∷ (codes "/solution/update", do_update_solution)
    ∷ (codes "/solution", do_delete_solution)
    ∷ (codes "/discuss/insert", do_insert_discuss)
    ∷ (codes "/discuss/update", do_update_discuss)
    ∷ (codes "/discuss", do_delete_discuss)
    ∷ (codes "/comment/insert", do_insert_comment)
    ∷ (codes "/comment", do_delete_comment)
    ∷ []

unfoldable pub route_of : Method → Bytes → Option Route
unfolding lookup
route_of get path = lookup path get_map
route_of post path = lookup path post_map
route_of m path = none
