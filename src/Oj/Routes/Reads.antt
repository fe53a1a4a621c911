-- ===== src/Oj/Routes/Reads.antt =====
-- OJServer.cc: what the function behind a path reads from the request.
use myoj.Common.{List, [], ◌∷◌}
use myoj.Common.Bytes.{Bytes, codes}
use myoj.Oj.Control.{Handler}

-- The body as it is; the body with the token; a member of the body with the token; the token alone;
-- parameters that must be there, with the token, perhaps after the search's; the body with one
-- parameter and the token; a parameter that is not checked, without the token.
pub data Query : Type 0 where
  whole with_token token_only : Query
  member_with_token : Bytes → Query
  fields : List Bytes → Query
  searched : List Bytes → Query
  body_and_field : Bytes → Query
  unchecked : Bytes → Query

-- One of the functions from `doRegisterUser` to `doGetTags`: what it reads, the reason it gives where
-- a parameter is missing, and the handler that it calls. `do_route` runs it.
pub record Route : Type 0 where
  pub reads : Query
  pub reason : Bytes
  pub handler : Handler

abbrev pub lacking : Bytes
lacking = codes "缺少请求参数！"

abbrev pub wrong : Bytes
wrong = codes "请求参数有误！"

abbrev pub paging : List Bytes
paging = codes "Page" ∷ codes "PageSize" ∷ []
