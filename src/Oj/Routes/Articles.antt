-- ===== src/Oj/Routes/Articles.antt =====
-- OJServer.cc: the functions about announcements, solutions, discussions and comments.
use myoj.Common.{[], ◌∷◌}
use myoj.Common.Bytes.{codes}
use myoj.Oj.Control.{
  delete_announcement, delete_comment, delete_discuss, delete_solution, get_comment, get_tags,
  insert_announcement, insert_comment, insert_discuss, insert_solution, select_announcement,
  select_announcement_by_edit, select_announcement_list, select_announcement_list_by_admin,
  select_comment_list_by_admin, select_discuss, select_discuss_by_edit, select_discuss_list,
  select_discuss_list_by_admin, select_solution, select_solution_by_edit, select_solution_list,
  select_solution_list_by_admin, update_announcement, update_discuss, update_solution,
}
use myoj.Oj.Routes.Reads.{
  Route, with_token, member_with_token, fields, searched, unchecked, lacking, paging,
}

abbrev pub do_get_announcement_list : Route
do_get_announcement_list = record {
  reads = fields paging;
  reason = lacking;
  handler = select_announcement_list;
}

abbrev pub do_get_announcement_list_by_admin : Route
do_get_announcement_list_by_admin = record {
  reads = fields paging;
  reason = lacking;
  handler = select_announcement_list_by_admin;
}

abbrev pub do_get_announcement : Route
do_get_announcement = record {
  reads = fields (codes "AnnouncementId" ∷ []);
  reason = lacking;
  handler = select_announcement;
}

abbrev pub do_select_announcement : Route
do_select_announcement = record {
  reads = fields (codes "AnnouncementId" ∷ []);
  reason = lacking;
  handler = select_announcement_by_edit;
}

abbrev pub do_insert_announcement : Route
do_insert_announcement = record {
  reads = with_token;
  reason = lacking;
  handler = insert_announcement;
}

abbrev pub do_update_announcement : Route
do_update_announcement = record {
  reads = with_token;
  reason = lacking;
  handler = update_announcement;
}

abbrev pub do_delete_announcement : Route
do_delete_announcement = record {
  reads = fields (codes "AnnouncementId" ∷ []);
  reason = lacking;
  handler = delete_announcement;
}

abbrev pub do_get_solution_list : Route
do_get_solution_list = record {
  reads = searched paging;
  reason = lacking;
  handler = select_solution_list;
}

abbrev pub do_get_solution_list_by_admin : Route
do_get_solution_list_by_admin = record {
  reads = fields paging;
  reason = lacking;
  handler = select_solution_list_by_admin;
}

abbrev pub do_get_solution : Route
do_get_solution = record {
  reads = fields (codes "SolutionId" ∷ []);
  reason = lacking;
  handler = select_solution;
}

abbrev pub do_select_solution_by_edit : Route
do_select_solution_by_edit = record {
  reads = fields (codes "SolutionId" ∷ []);
  reason = lacking;
  handler = select_solution_by_edit;
}

abbrev pub do_insert_solution : Route
do_insert_solution = record { reads = with_token; reason = lacking; handler = insert_solution }

abbrev pub do_update_solution : Route
do_update_solution = record { reads = with_token; reason = lacking; handler = update_solution }

abbrev pub do_delete_solution : Route
do_delete_solution = record {
  reads = fields (codes "SolutionId" ∷ codes "UserId" ∷ []);
  reason = lacking;
  handler = delete_solution;
}

abbrev pub do_get_discuss_list : Route
do_get_discuss_list = record {
  reads = searched paging;
  reason = lacking;
  handler = select_discuss_list;
}

abbrev pub do_get_discuss_list_by_admin : Route
do_get_discuss_list_by_admin = record {
  reads = fields paging;
  reason = lacking;
  handler = select_discuss_list_by_admin;
}

abbrev pub do_get_discuss : Route
do_get_discuss = record {
  reads = fields (codes "DiscussId" ∷ []);
  reason = lacking;
  handler = select_discuss;
}

abbrev pub do_select_discuss_by_edit : Route
do_select_discuss_by_edit = record {
  reads = fields (codes "DiscussId" ∷ []);
  reason = lacking;
  handler = select_discuss_by_edit;
}

abbrev pub do_insert_discuss : Route
do_insert_discuss = record { reads = with_token; reason = lacking; handler = insert_discuss }

abbrev pub do_update_discuss : Route
do_update_discuss = record { reads = with_token; reason = lacking; handler = update_discuss }

abbrev pub do_delete_discuss : Route
do_delete_discuss = record {
  reads = fields (codes "DiscussId" ∷ codes "UserId" ∷ []);
  reason = lacking;
  handler = delete_discuss;
}

abbrev pub do_select_comment_list_by_admin : Route
do_select_comment_list_by_admin = record {
  reads = fields paging;
  reason = lacking;
  handler = select_comment_list_by_admin;
}

abbrev pub do_get_comment : Route
do_get_comment = record {
  reads =
      fields
        (codes "Type" ∷ codes "ParentId" ∷ codes "Page" ∷ codes "PageSize" ∷ codes "SonNum" ∷ []);
  reason = lacking;
  handler = get_comment;
}

abbrev pub do_insert_comment : Route
do_insert_comment = record {
  reads = member_with_token (codes "Info");
  reason = lacking;
  handler = insert_comment;
}

abbrev pub do_delete_comment : Route
do_delete_comment = record {
  reads = fields (codes "ArticleId" ∷ codes "CommentId" ∷ []);
  reason = lacking;
  handler = delete_comment;
}

abbrev pub do_get_tags : Route
do_get_tags = record { reads = unchecked (codes "TagType"); reason = lacking; handler = get_tags }
