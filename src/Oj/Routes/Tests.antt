-- ===== src/Oj/Routes/Tests.antt =====
-- Requests to the routes, and the theorems on them.
use myoj.Common.{◌≡◌, refl, ◌⊎◌, some, true, [], ◌∷◌}
use myoj.Common.Bytes.{codes, find_index}
use myoj.Http.Request.{
  Request, post, fresh_request, has_param, get_param, set_query, parse_params, store_param, getline,
}
use myoj.Http.Request.Params.{Param}
use myoj.Http.Context.{set_target}
use myoj.Http.Response.{make_response}
use myoj.Oj.Users.{text, Json, State, anyone, text_of, get_text}
use myoj.Oj.Control.Permitted.{protection}
use myoj.Oj.Control.Tests.{control_code, by_token, yes_man, at_start, registered}
use myoj.Oj.Routes.Articles.{do_update_discuss}
use myoj.Oj.Routes.Table.{route_of}
use myoj.Oj.Routes.{
  Library, request_token, set_response_status, required, has_all, read_fields, member_of, tokened,
  member_in, with_field, build, respond_with, respond, call_handler, do_route, stamped, dispatch,
  on_request, stamp,
}
use myoj.Oj.Routes.Permission.{IsPermitted, IsTurnedAway, on_request-IsPermitted}

routes_code : Unit {0}
unfolding control_code find_index has_param get_param set_query parse_params store_param getline
    set_target route_of request_token set_response_status required has_all read_fields member_of
    tokened member_in with_field build respond_with respond call_handler do_route stamped dispatch
    on_request
routes_code = tt

-- A library that reads every text as the same object, and prints nothing of it.
abbrev small : Library
small = record {
  accepts = λ s. true;
  object_of = λ s. some ((codes "datainfo", myoj.Oj.Users.other s) ∷ []);
  dump = λ j. [];
}

abbrev rank_page : Param
rank_page = record { key = codes "Page"; first = b'1'; others = [] }

abbrev rank_size : Param
rank_size = record { key = codes "PageSize"; first = b'2'; others = codes "0" }

-- A token in the body does not count.
abbrev forged : Request
forged = record fresh_request {
  method = post;
  path = codes "/discuss/update";
  headers = (codes "Authorization", codes "8") ∷ [];
  body = codes "{}";
}

on_request-IsPermitted_example :
    (protection do_update_discuss.handler ≡ anyone)
    ⊎ (IsPermitted small by_token yes_man do_update_discuss forged registered
        ⊎ IsTurnedAway small by_token yes_man do_update_discuss 1
            (on_request small by_token yes_man forged (make_response true) registered))
unfolding routes_code
on_request-IsPermitted_example =
    on_request-IsPermitted small by_token yes_man do_update_discuss forged (make_response true)
      registered refl

-- An unknown path is answered by an empty 200 response.
unknown_path :
    on_request small by_token yes_man
      (record forged { path = codes "/" })
      (make_response true)
      at_start
    ≡ some (stamp small by_token yes_man (make_response true), at_start)
unfolding routes_code
unknown_path = refl
