-- ===== src/Oj/Routes/Permission.antt =====
-- OJServer.cc and Control.cpp together: what the permission of a request rests on.
use myoj.Common.{
  arith, ◌≡◌, refl, ◌⊎◌, ◌&&◌, ◌||◌, inl, inr, Bool, true, false, Bool-cases, if-cases, Option,
  none, some, List, [], ◌∷◌, subst, sym, ap, ◌∙◌,
}
use myoj.Common.Bytes.{Bytes, codes, bytes_eq, lookup, lookup-insert}
use myoj.Http.Request.{Request, Method, get, post, get_param}
use myoj.Http.Response.{Response}
use myoj.Oj.Users.{
  UserId, stoll, text, Json, State, Level, anyone, ordinary, author, administrator, get_text,
  text_of,
}
use myoj.Oj.Control.{Service, level_of, no_permission}
use myoj.Oj.Control.Handlers.{Result}
use myoj.Oj.Control.Guards.{IsRefused}
use myoj.Oj.Control.Permitted.{
  protection, level_of-protection, IsEntitled, Speaker, handle-IsPermitted,
}
use mathlib.Core.Option.{some-injective, none-ne-some}
use myoj.Oj.Routes.Reads.{
  Query, Route, whole, with_token, token_only, member_with_token, fields, searched, body_and_field,
  unchecked,
}
use myoj.Oj.Routes.Table.{get_map, post_map, route_of}
use myoj.Oj.Routes.{
  Library, request_token, add_token, required, has_all, tokened, build, missing, Answer,
  respond_with, respond, call_handler, do_route, stamped, dispatch, on_request,
}
use myoj.Oj.Routes.Refusals.{on_request-IsMissing}

-- The functions that put the request's token into what they pass on.
abbrev is_tokened : Query → Bool
is_tokened whole = false
is_tokened (unchecked key) = false
is_tokened q = true

abbrev is_open : Level → Bool
is_open anyone = true
is_open l = false

abbrev is_covered : Route → Bool
is_covered h = is_open (level_of h.handler) || is_tokened h.reads

abbrev all_covered : List (Bytes × Route) → Bool
all_covered [] = true
all_covered ((path, h) ∷ m) = is_covered h && all_covered m

lookup-is_covered :
    (k : Bytes) (m : List (Bytes × Route)) (h : Route)
    → all_covered m ≡ true
    → lookup k m ≡ some h
    → is_covered h ≡ true
unfolding lookup
lookup-is_covered k [] h c e = absurd (cc)
lookup-is_covered k ((path, g) ∷ m) h c e =
    if-cases (λ o. o ≡ some h → is_covered h ≡ true) (bytes_eq path k) (some g) (lookup k m)
      (λ i f.
        let same : g ≡ h = cc in
        subst (λ (r : Route). is_covered r ≡ true) same (ground (arith, c)))
      (λ i f. lookup-is_covered k m h (ground (arith, c)) f) e

get_covered : all_covered get_map ≡ true
unfolding level_of
get_covered = refl

post_covered : all_covered post_map ≡ true
unfolding level_of
post_covered = refl

-- Every function in the maps either calls a handler that is open to anyone or passes the token on.
route_of-is_covered :
    (m : Method) (path : Bytes) (h : Route) → route_of m path ≡ some h → is_covered h ≡ true
unfolding route_of
route_of-is_covered get path h e = lookup-is_covered path get_map h get_covered e
route_of-is_covered post path h e = lookup-is_covered path post_map h post_covered e
route_of-is_covered _ path h e = absurd (cc)

open_or_true : (l : Level) (b : Bool) → (is_open l || b) ≡ true → (l ≡ anyone) ⊎ (b ≡ true)
open_or_true anyone b e = inl refl
open_or_true ordinary b e = inr e
open_or_true author b e = inr e
open_or_true administrator b e = inr e

tokened_or_free :
    (h : Route) → is_covered h ≡ true → (level_of h.handler ≡ anyone) ⊎ (is_tokened h.reads ≡ true)
tokened_or_free h e = open_or_true (level_of h.handler) (is_tokened h.reads) e

-- The JSON object carries the token of the request's header.
abbrev pub HasToken : Request → Option Json → Type 0
HasToken req none = Unit
HasToken req (some q) = lookup (codes "Token") q ≡ some (text (request_token req))

add_token-HasToken : (req : Request) (q : Json) → HasToken req (some (add_token req q))
add_token-HasToken req q =
    lookup-insert (codes "Token") (codes "Token") (text (request_token req)) q

module _ (lib : Library) where
  tokened-HasToken : (req : Request) (o : Option Json) → HasToken req (tokened lib req o)
  unfolding tokened
  tokened-HasToken req none = tt
  tokened-HasToken req (some q) = add_token-HasToken req q

  build-HasToken :
      (q : Query) (req : Request) → is_tokened q ≡ true → HasToken req (build lib q req)
  unfolding build
  build-HasToken with_token req e = tokened-HasToken req _
  build-HasToken token_only req e = add_token-HasToken req []
  build-HasToken (member_with_token key) req e = tokened-HasToken req _
  build-HasToken (fields keys) req e = add_token-HasToken req _
  build-HasToken (searched keys) req e =
      if-cases (HasToken req) (lib.accepts (get_param (codes "SearchInfo") req)) _ none
        (λ i. add_token-HasToken req _) (λ i. tt)
  build-HasToken (body_and_field key) req e = tokened-HasToken req _
  build-HasToken whole req e = absurd (cc)
  build-HasToken (unchecked key) req e = absurd (cc)

  module _ {W : Type 0} (user_of_token : Bytes → W → Bytes)
      (perform : Service → Json → W → Json × W) where
    -- Nothing in the databases changed, and the answer is "no permission" or "missing parameter".
    abbrev pub IsTurnedAway : Route → W → Answer lib user_of_token perform → Type 0
    IsTurnedAway h w none = Unit
    IsTurnedAway h w (some (r, s)) =
        (s.world ≡ w) × ((r.body ≡ lib.dump no_permission) ⊎ (r.body ≡ lib.dump (missing h.reason)))

    -- The user that the token of the header stands for is entitled to what the handler protects; whom
    -- the request is about is read from the object that the function builds.
    abbrev pub IsPermitted : Route → Request → State W → Type 0
    IsPermitted h req s =
        (q : Json) × (i : UserId) × (build lib h.reads req ≡ some q)
        × (stoll (user_of_token (request_token req) s.world) ≡ some i)
        × IsEntitled (protection h.handler) i q s.authorities

    -- An object with the header's token speaks for the user of that token only.
    token_speaks :
        (req : Request) (q : Json) (w : W) (u : Bytes)
        → HasToken req (some q)
        → Speaker user_of_token perform q w u
        → u ≡ user_of_token (request_token req) w
    unfolding get_text text_of
    token_speaks req q w u t (inl (tok, e, same)) =
        let read : some tok ≡ some (request_token req) = sym e ∙ ap text_of t in
        same ∙ ap (λ x. user_of_token x w) (some-injective tok (request_token req) read)
    token_speaks req q w u t (inr (e, k)) =
        absurd (none-ne-some (request_token req) (sym e ∙ ap text_of t))

    respond-IsTurnedAway :
        (h : Route) (res : Response) (w : W) (o : Result user_of_token perform)
        → IsRefused user_of_token perform w o
        → IsTurnedAway h w
            (stamped lib user_of_token perform (respond lib user_of_token perform res o))
    unfolding respond respond_with stamped get_text text_of lookup
    respond-IsTurnedAway h res w none e = tt
    respond-IsTurnedAway h res w (some (r, s)) (e, same) = rw e (same, inl refl)

    call_handler-IsPermitted :
        (h : Route) (req : Request) (res : Response) (s : State W) (o : Option Json)
        → build lib h.reads req ≡ o
        → HasToken req o
        → (protection h.handler ≡ anyone)
          ⊎ (IsPermitted h req s
              ⊎ IsTurnedAway h s.world (
                  stamped lib user_of_token perform
                    (call_handler lib user_of_token perform h.handler res s o)))
    unfolding call_handler stamped
    call_handler-IsPermitted h req res s none b t = inr (inr tt)
    call_handler-IsPermitted h req res s (some q) b t =
        elim (handle-IsPermitted user_of_token perform h.handler q s) [
          | inl free ↦ inl free
          | inr (inl (u, i, speaks, reads, may)) ↦
              let same = token_speaks req q s.world u t speaks in
              inr (inl (q, i, b, ap stoll (sym same) ∙ reads, may))
          | inr (inr refused) ↦ inr (inr (respond-IsTurnedAway h res s.world _ refused))
        ]

    -- For a request with a route: what the route's handler protects is open to anyone; or the user whom
    -- the token in the Authorization header stands for, whatever the body or the parameters say of a
    -- token, is entitled to it by the map of authorities, where the object that is built of the request
    -- says whose data or article it is about; or nothing in the databases changes and the answer is "no
    -- permission" or "missing parameter" (or the code throws).
    pub on_request-IsPermitted :
        (h : Route) (req : Request) (res : Response) (s : State W)
        → route_of req.method req.path ≡ some h
        → (protection h.handler ≡ anyone)
          ⊎ (IsPermitted h req s
              ⊎ IsTurnedAway h s.world (on_request lib user_of_token perform req res s))
    unfolding on_request dispatch do_route
    on_request-IsPermitted h req res s route = elim (Bool-cases (has_all (required h.reads) req)) [
      | inl full ↦ elim (tokened_or_free h (route_of-is_covered req.method req.path h route)) [
        | inl free ↦ inl (sym (level_of-protection h.handler) ∙ free)
        | inr t ↦
            simp (route, full)
              (call_handler-IsPermitted h req res s (build lib h.reads req) refl
                (build-HasToken h.reads req t))
      ]
      | inr lack ↦
          let (r, e, status, body) =
            on_request-IsMissing lib user_of_token perform h req res s route lack in
          inr (inr (subst (IsTurnedAway h s.world) (sym e) (refl, inr body)))
    ]
