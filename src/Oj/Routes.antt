-- ===== src/Oj/Routes.antt =====
-- oj/src/OJServer.h and OJServer.cc: which handler answers a request, what it is given, and the response.
-- The JSON library is a parameter. A result is none when the code throws; nothing catches it.
pub mod Reads
pub mod Judging
pub mod Articles
pub mod Table
pub mod Refusals
pub mod Permission
pub mod Tests
use myoj.Common.{Bool, true, false, ◌&&◌, if◌then◌else◌, Option, none, some, List, [], ◌∷◌}
use myoj.Common.Bytes.{Bytes, codes, bytes_eq, lookup, insert}
use myoj.Http.Request.{Request, Method, get, post, has_param, get_param}
use myoj.Http.Response.{
  Response, StatusCode, ok, bad_request, unauthorized, internal_server_error, set_status_code,
  set_status_message, set_content_type, set_body,
}
use myoj.Oj.Users.{Value, text, number, other, Json, State, get_text}
use myoj.Oj.Control.{Service, Handler, result_key}
use myoj.Oj.Control.Handlers.{Result, handle}
use myoj.Oj.Routes.Reads.{
  Query, whole, with_token, member_with_token, token_only, fields, searched, body_and_field,
  unchecked, Route,
}
use myoj.Oj.Routes.Table.{route_of}

-- What the code uses of the JSON library: whether a text is JSON, the members of the object that a
-- text stands for (none where `operator[]` would throw), and the printing of an object.
pub record Library : Type 0 where
  pub accepts : Bytes → Bool
  pub object_of : Bytes → Option Json
  pub dump : Json → Bytes

-- `GetRequestToken`.
unfoldable pub request_token : Request → Bytes
request_token req = elim (lookup (codes "Authorization") req.headers) [
  | some t ↦ t
  | none ↦ codes "0"
]

abbrev pub add_token : Request → Json → Json
add_token req q = insert (codes "Token") (text (request_token req)) q

-- `SetResponseStatus`, for the text under "Result".
unfoldable pub set_response_status : Bytes → Response → Response
set_response_status t res =
    if bytes_eq t (codes "400")
    then set_status_code bad_request res
    else (if bytes_eq t (codes "401")
        then set_status_code unauthorized res
        else (if bytes_eq t (codes "500") then set_status_code internal_server_error res else res))

-- The parameters that must be there.
unfoldable pub required : Query → List Bytes
required (fields keys) = keys
required (searched keys) = codes "SearchInfo" ∷ keys
required (body_and_field key) = key ∷ []
required q = []

unfoldable pub has_all : List Bytes → Request → Bool
has_all [] req = true
has_all (k ∷ ks) req = has_param k req && has_all ks req

unfoldable pub read_fields : List Bytes → Request → Json → Json
read_fields [] req q = q
read_fields (k ∷ ks) req q = read_fields ks req (insert k (text (get_param k req)) q)

module _ (lib : Library) where
  -- `jsonvalue[key]` of the parsed body, which must be an object, or missing.
  unfoldable pub member_of : Option Value → Option Json
  member_of none = some []
  member_of (some (other t)) = lib.object_of t
  member_of (some v) = none

  unfoldable pub tokened : Request → Option Json → Option Json
  tokened req none = none
  tokened req (some q) = some (add_token req q)

  unfoldable pub member_in : Bytes → Option Json → Option Json
  member_in key none = none
  member_in key (some q) = member_of (lookup key q)

  unfoldable pub with_field : Bytes → Request → Option Json → Option Json
  with_field key req none = none
  with_field key req (some q) = some (insert key (text (get_param key req)) q)

  -- The JSON object that the handler gets.
  unfoldable pub build : Query → Request → Option Json
  build whole req = lib.object_of req.body
  build with_token req = tokened req (lib.object_of req.body)
  build (member_with_token key) req = tokened req (member_in key (lib.object_of req.body))
  build token_only req = some (add_token req [])
  build (fields keys) req = some (add_token req (read_fields keys req []))
  build (searched keys) req =
      let info = get_param (codes "SearchInfo") req in
      if lib.accepts info
      then some (add_token req (read_fields keys req (insert (codes "SearchInfo") (other info) [])))
      else none
  build (body_and_field key) req = tokened req (with_field key req (lib.object_of req.body))
  build (unchecked key) req = some (read_fields (key ∷ []) req [])

abbrev pub missing : Bytes → Json
missing reason = (result_key, text (codes "400")) ∷ (codes "Reason", text reason) ∷ []

module _ (lib : Library) {W : Type 0} (user_of_token : Bytes → W → Bytes)
    (perform : Service → Json → W → Json × W) where
  abbrev pub Answer : Type 0
  Answer = Option (Response × State W)

  unfoldable pub respond_with : Option Bytes → Json → Response → State W → Answer
  respond_with none r res s = none
  respond_with (some t) r res s = some (set_body (lib.dump r) (set_response_status t res), s)

  unfoldable pub respond : Response → Result user_of_token perform → Answer
  respond res none = none
  respond res (some (r, s)) = respond_with (get_text result_key r) r res s

  unfoldable pub call_handler : Handler → Response → State W → Option Json → Answer
  call_handler h res s none = none
  call_handler h res s (some q) = respond res (handle user_of_token perform h q s)

  -- The functions `doRegisterUser` to `doGetTags`.
  unfoldable pub do_route : Route → Request → Response → State W → Answer
  do_route r req res s =
      if has_all (required r.reads) req
      then call_handler r.handler res s (build lib r.reads req)
      else respond res (some (missing r.reason, s))

  abbrev pub stamp : Response → Response
  stamp res =
      set_content_type (codes "application/json")
        (set_status_message (codes "OK") (set_status_code ok res))

  unfoldable pub stamped : Answer → Answer
  stamped none = none
  stamped (some (res, s)) = some (stamp res, s)

  unfoldable pub dispatch : Option Route → Request → Response → State W → Answer
  dispatch none req res s = some (res, s)
  dispatch (some r) req res s = do_route r req res s

  -- `OJServer::onRequest`.
  unfoldable pub on_request : Request → Response → State W → Answer
  on_request req res s = stamped (dispatch (route_of req.method req.path) req res s)
