-- ===== src/Oj/Routes/Refusals.antt =====
-- OJServer.cc: the requests that no database sees.
use myoj.Common.{◌≡◌, refl, Bool, false, ◌||◌, some, List, [], ◌∷◌}
use myoj.Common.Bytes.{Bytes, bytes_eq, lookup}
use myoj.Http.Request.{Request}
use myoj.Http.Response.{Response, ok}
use myoj.Oj.Users.{Json, State, get_text, text_of}
use myoj.Oj.Control.{Service}
use myoj.Oj.Routes.Reads.{Route}
use myoj.Oj.Routes.Table.{route_of}
use myoj.Oj.Routes.{
  Library, required, has_all, missing, Answer, respond_with, respond, do_route, stamped, dispatch,
  on_request,
}

abbrev pub mentions : Bytes → List Bytes → Bool
mentions k [] = false
mentions k (j ∷ ks) = bytes_eq j k || mentions k ks

module _ (lib : Library) {W : Type 0} (user_of_token : Bytes → W → Bytes)
    (perform : Service → Json → W → Json × W) where
  -- The answer names the missing parameter's reason, under the status 200.
  abbrev pub IsMissing : Route → State W → Answer lib user_of_token perform → Type 0
  IsMissing h s a =
      (r : Response) × (a ≡ some (r, s))
      × (r.status_code ≡ ok)
      × (r.body ≡ lib.dump (missing h.reason))

  pub on_request-IsMissing :
      (h : Route) (req : Request) (res : Response) (s : State W)
      → route_of req.method req.path ≡ some h
      → has_all (required h.reads) req ≡ false
      → IsMissing h s (on_request lib user_of_token perform req res s)
  unfolding on_request dispatch do_route respond respond_with stamped get_text lookup text_of
  on_request-IsMissing h req res s route lack = simp (route, lack) (_, refl, refl, refl)
