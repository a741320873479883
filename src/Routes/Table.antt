-- ===== src/Routes/Table.antt =====
-- The table of routes: server/app/main.py, server/app/api/api_v1.py and the `router`s of
-- server/app/domains. A path is the list of its segments, that of "/" the empty list. The pages that FastAPI
-- adds by itself, /openapi.json, /docs, /docs/oauth2-redirect and /redoc, are no routes of the code.
use nalang_project.Prelude.{
  String, Bool, true, false, not, ◌&&◌, ◌||◌, List, [], ◌∷◌, ◌++◌, if◌then◌else◌, ◌==◌, string_eq,
  ◌≡◌, ◌↔◌,
}

pub data Method : Type 0 where
  get post put delete websocket : Method

abbrev pub same : Method → Method → Bool
same get get = true
same post post = true
same put put = true
same delete delete = true
same websocket websocket = true
same _ _ = false

pub data Segment : Type 0 where
  fixed : String → Segment
  -- `{name}`
  parameter : String → Segment

-- The functions behind the routes; the two checks are those of main.py and of api_v1.py.
pub data Handler : Type 0 where
  health_check api_health_check : Handler
  login logout register_user refresh_token refresh_token_route : Handler
  google_login google_callback line_login line_callback : Handler
  kakao_login kakao_callback naver_login naver_callback : Handler
  get_me get_partner save_profile upload_profile_image : Handler
  get_interests get_languages get_genders : Handler
  get_call_token register_for_call_waiting delete_room_api room_test : Handler
  record_call record_audio_url history_list : Handler
  websocket_waiting call_websocket : Handler

pub record Route : Type 0 where
  pub method : Method
  pub path : List Segment
  pub handler : Handler

abbrev on : Method → List Segment → Handler → Route
on m p h = record { method = m; path = p; handler = h }

abbrev pub auth_routes : List Route
auth_routes =
    on post (fixed "login" ∷ []) login
    ∷ on post (fixed "logout" ∷ []) logout
    ∷ on post (fixed "register" ∷ []) register_user
    ∷ on post (fixed "refresh" ∷ []) refresh_token
    ∷ on get (fixed "google" ∷ fixed "login" ∷ []) google_login
    ∷ on get (fixed "google" ∷ fixed "callback" ∷ []) google_callback
    ∷ on get (fixed "line" ∷ fixed "login" ∷ []) line_login
    ∷ on get (fixed "line" ∷ fixed "callback" ∷ []) line_callback
    ∷ on get (fixed "kakao" ∷ fixed "login" ∷ []) kakao_login
    ∷ on get (fixed "kakao" ∷ fixed "callback" ∷ []) kakao_callback
    ∷ on get (fixed "naver" ∷ fixed "login" ∷ []) naver_login
    ∷ on get (fixed "naver" ∷ fixed "callback" ∷ []) naver_callback
    ∷ on post (fixed "refresh" ∷ []) refresh_token_route
    ∷ []

abbrev pub user_routes : List Route
user_routes =
    on get (fixed "me" ∷ []) get_me
    ∷ on get (parameter "id" ∷ []) get_partner
    ∷ on post (fixed "me" ∷ fixed "profile" ∷ []) save_profile
    ∷ on post (fixed "me" ∷ fixed "profile-image" ∷ []) upload_profile_image
    ∷ on get (fixed "setup" ∷ fixed "interests" ∷ []) get_interests
    ∷ on get (fixed "setup" ∷ fixed "languages" ∷ []) get_languages
    ∷ on get (fixed "setup" ∷ fixed "genders" ∷ []) get_genders
    ∷ []

abbrev pub call_routes : List Route
call_routes =
    on post (fixed "token" ∷ []) get_call_token
    ∷ on post (fixed "waiting" ∷ []) register_for_call_waiting
    ∷ on delete (fixed "room" ∷ parameter "room_name" ∷ []) delete_room_api
    ∷ on get (fixed "room" ∷ fixed "test" ∷ []) room_test
    ∷ on post (fixed "record" ∷ []) record_call
    ∷ on put (fixed "record" ∷ []) record_audio_url
    ∷ on get (fixed "history" ∷ []) history_list
    ∷ []

abbrev pub ws_routes : List Route
ws_routes =
    on websocket (fixed "ws" ∷ fixed "waiting" ∷ []) websocket_waiting
    ∷ on websocket (fixed "ws" ∷ fixed "call" ∷ []) call_websocket
    ∷ []

-- `include_router(router, prefix=...)`
abbrev pub with_prefix : List Segment → List Route → List Route
with_prefix front [] = []
with_prefix front (r ∷ rs) = record r { path = front ++ r.path } ∷ with_prefix front rs

abbrev pub api_routes : List Route
api_routes =
    on get (fixed "health" ∷ []) api_health_check ∷ with_prefix (fixed "auth" ∷ []) auth_routes
    ++ with_prefix (fixed "user" ∷ []) user_routes
    ++ with_prefix (fixed "call" ∷ []) call_routes
    ++ ws_routes

abbrev pub app_routes : List Route
app_routes = on get [] health_check ∷ with_prefix (fixed "api" ∷ fixed "v1" ∷ []) api_routes

-- How Starlette documents that a request finds its route: routes are tried in the order in which they
-- were added, and the first whose path and method fit answers. The router itself is an argument of
-- the model, and this is what the theorems that need it ask of it. Whether a path fits; a parameter takes one segment that is not empty.
unfoldable pub fits : List Segment → List String → Bool
fits [] [] = true
fits (fixed s ∷ p) (t ∷ ts) = (s == t) && fits p ts
fits (parameter _ ∷ p) (t ∷ ts) = not (t == "") && fits p ts
fits _ _ = false

unfoldable pub answers : Method → List String → Route → Bool
unfolding fits
answers m path r = same m r.method && fits r.path path

-- A web socket asks no route for the other methods, and the other way round.
abbrev same_scope : Method → Method → Bool
same_scope websocket websocket = true
same_scope websocket _ = false
same_scope _ websocket = false
same_scope _ _ = true

-- The path fits, whatever the method.
unfoldable pub touches : Method → List String → Route → Bool
unfolding fits
touches m path r = same_scope m r.method && fits r.path path

pub data Answer : Type 0 where
  reached : Handler → Answer
  -- status 404, and status 405 where only the method does not fit
  not_found : Answer
  method_not_allowed : Answer

abbrev otherwise : Bool → Answer
otherwise true = method_not_allowed
otherwise false = not_found

-- `partial`: a route before has the path, but not the method.
unfoldable pub search_routes : Method → List String → Bool → List Route → Answer
unfolding answers touches
search_routes m path partial [] = otherwise partial
search_routes m path partial (r ∷ rs) =
    let rest = search_routes m path (touches m path r || partial) rs in
    if answers m path r then reached r.handler else rest

-- The first route of the table that fits.
unfoldable pub resolve : Method → List String → Answer
unfolding search_routes
resolve m path = search_routes m path false app_routes

-- A router that reaches what the first route that fits reaches.
abbrev pub IsRouter : (Method → List String → Answer) → Type 0
IsRouter route =
    (m : Method) (path : List String) (h : Handler)
    → (route m path ≡ reached h) ↔ (resolve m path ≡ reached h)
