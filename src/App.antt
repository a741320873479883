-- ===== src/App.antt =====
-- The application as one function: server/app/main.py with its router. A request is resolved by the
-- router and answered by the handler that it reaches. What FastAPI reads of a request for a
-- handler, and what the services outside answer, are arguments.
pub mod Stable
pub mod Kept
pub mod Rows
pub mod Sound
pub mod Sessions
pub mod Histories
pub mod Refreshing
pub mod Guards
pub mod Reading
pub mod Recording
pub mod Flow
mod Tests
use nalang_project.Prelude.{ℕ, String, Option, none, some, List, [], ◌∷◌, ℤ}
use nalang_project.Raise.{Exec, Result, ok, err, pure, lift, gets, ◌>>=◌}
use nalang_project.Models.{User, CallHistory}
use nalang_project.Auth.World.{Settings, Libraries, Clock, Server}
use nalang_project.Auth.Accounts.{RegisterRequest, validate}
use nalang_project.Auth.Login.{get_current_user_ws}
use nalang_project.Auth.Oauth.{
  Client, handle_google_callback, handle_line_callback, handle_kakao_callback,
  handle_naver_callback,
}
use nalang_project.Call.History.{CallHistoryCreate, CallHistoryList}
use nalang_project.Call.Queue.{call_websocket}
use nalang_project.Call.Rooms.{AccessToken, Reply, Rooms, delete_room_in_livekit, list_room}
use nalang_project.Profile.Locale.{get_locale}
use nalang_project.Profile.Seed
use nalang_project.Profile.Update.{UserProfileUpdate}
use nalang_project.Profile.Upload.{UploadFile}
use nalang_project.Profile.View.{UserProfileOut, SetUpOption, get_partner}
use nalang_project.Waiting.State.{Lobby}
use nalang_project.Waiting.Route.{Connection, serve}
use nalang_project.Routes
use nalang_project.Routes.{TokenResponse, RegisterResponse, AudioUrlUpdate}
use nalang_project.Routes.Table
use nalang_project.Routes.Table.{Method, Handler, Answer}

-- The services that the server asks.
pub record Services : Type 0 where
  pub client : Client
  pub to_jwt : AccessToken → String
  pub livekit_api_key : String
  pub livekit_api_secret : String
  pub delete_room : String → Reply Unit
  pub list_rooms : Reply (List String)
  pub upload : String → String → Result (Unit {0})
  pub bucket : String
  -- the router of Starlette, with the table of routes
  pub route : Method → List String → Answer

-- The bodies of server/app/domains/auth/schemas.py and call/schemas.py with one field.
pub record RefreshTokenRequest : Type 0 where
  pub refresh_token : String

pub record LogoutRequest : Type 0 where
  pub refresh_token : String

pub record TokenRequest : Type 0 where
  pub room : String

-- `OAuth2PasswordRequestForm`
pub record LoginForm : Type 0 where
  pub username : String
  pub password : String

-- A bearer token, and what else the handler takes.
pub record Bearing (A : Type 0) : Type 0 where
  pub token : String
  pub input : A

-- What each handler takes: bodies, parameters, the token, the language header and, for an upload, the
-- drawn uuid; for a web socket its token and the texts that it receives. The waiting room is a variable
-- of its module, of which a connection is given the state that it finds, any state whatever; Redis in it
-- is that of the server.
abbrev pub Input : Handler → Type 0
Input Table.login = LoginForm
Input Table.logout = LogoutRequest
Input Table.register_user = RegisterRequest
Input Table.refresh_token = RefreshTokenRequest
Input Table.refresh_token_route = String
Input Table.google_callback = Option String
Input Table.line_callback = Option String
Input Table.kakao_callback = Option String
Input Table.naver_callback = Option String
Input Table.get_me = Bearing (Option String)
Input Table.get_partner = ℤ × Option String
Input Table.save_profile = Bearing UserProfileUpdate
Input Table.upload_profile_image = Bearing (String × UploadFile)
Input Table.get_interests = Option String
Input Table.get_languages = Option String
Input Table.get_genders = Option String
Input Table.get_call_token = Bearing TokenRequest
Input Table.register_for_call_waiting = Bearing Unit
Input Table.delete_room_api = String
Input Table.record_call = CallHistoryCreate
Input Table.record_audio_url = AudioUrlUpdate
Input Table.history_list = Bearing Unit
Input Table.websocket_waiting = Option String × Connection × Lobby
Input Table.call_websocket = Option String × List String
Input _ = Unit

abbrev pub Output : Handler → Type 0
Output Table.login = TokenResponse
Output Table.register_user = RegisterResponse
Output Table.refresh_token = TokenResponse
Output Table.refresh_token_route = TokenResponse
Output Table.get_me = UserProfileOut
Output Table.get_partner = UserProfileOut
Output Table.save_profile = Unit
Output Table.get_interests = List SetUpOption
Output Table.get_languages = List SetUpOption
Output Table.get_genders = List SetUpOption
Output Table.room_test = Unit
Output Table.record_call = CallHistory
Output Table.record_audio_url = ℕ
Output Table.history_list = List CallHistoryList
Output Table.websocket_waiting = Unit
Output Table.call_websocket = List String
Output _ = String

-- What is left of a web socket for waiting when its user is known: the life of the connection, with no
-- call of another connection in between.
abbrev pub wait : Connection → Lobby → User → Exec Server Unit
wait n lobby user s =
    let (answer, l) = serve n user (record lobby { redis = s.redis }) in
    (answer, record s { redis = l.redis })

-- What is left of a web socket for calls when its user is known.
abbrev answer_texts : Clock → List String → User → Exec Server (List String)
answer_texts t messages u s =
    let (replies, redis) = call_websocket t.now u.id messages s.redis in
    (ok replies, record s { redis = redis })

-- The route drops what `list_room` returns.
abbrev drop_rooms : Rooms → Unit {0}
drop_rooms _ = tt

module _ (c : Settings) (x : Libraries) (v : Services) (t : Clock) where
  -- The functions behind the routes.
  unfoldable pub handle : (h : Handler) → Input h → Exec Server (Output h)
  unfolding list_room
  handle Table.health_check i = pure "OK"
  handle Table.api_health_check i = pure "ok"
  handle Table.login i = Routes.login c x t i.username i.password
  handle Table.logout i = Routes.logout c x t i.refresh_token
  handle Table.register_user i = Routes.register c x t i
  handle Table.refresh_token i = Routes.refresh_token c x t i.refresh_token
  handle Table.refresh_token_route i = Routes.refresh_token c x t i
  handle Table.google_login i = pure (Routes.google_login c x t)
  handle Table.google_callback i = handle_google_callback c x v.client t i
  handle Table.line_login i = pure (Routes.line_login c x t)
  handle Table.line_callback i = handle_line_callback c x v.client t i
  handle Table.kakao_login i = pure (Routes.kakao_login c x t)
  handle Table.kakao_callback i = handle_kakao_callback c x v.client t i
  handle Table.naver_login i = pure (Routes.naver_login c x t)
  handle Table.naver_callback i = handle_naver_callback c x v.client t i
  handle Table.get_me i = Routes.get_me c x t i.token i.input
  handle Table.get_partner (id, header) = λ s. (get_partner s.db id (get_locale header), s)
  handle Table.save_profile i = Routes.save_profile c x t i.token i.input
  handle Table.upload_profile_image i =
      Routes.save_profile_image c x t v.upload v.bucket i.input.0 i.token i.input.1
  handle Table.get_interests i = Routes.get_interests i
  handle Table.get_languages i = Routes.get_languages i
  handle Table.get_genders i = Routes.get_genders i
  handle Table.get_call_token i =
      Routes.get_call_token c x t v.to_jwt v.livekit_api_key v.livekit_api_secret i.input.room
        i.token
  handle Table.register_for_call_waiting i = Routes.register_for_call_waiting c x t i.token
  handle Table.delete_room_api i = lift (delete_room_in_livekit v.delete_room i)
  handle Table.room_test i = pure (drop_rooms (list_room v.list_rooms))
  handle Table.record_call i = Routes.record_call c x t i
  handle Table.record_audio_url i = Routes.record_audio_url c x t i
  handle Table.history_list i = Routes.history_list c x t i.token
  handle Table.websocket_waiting (query, n, lobby) = do
    user ← get_current_user_ws c x t query
    wait n lobby user
  handle Table.call_websocket (query, messages) = do
    user ← get_current_user_ws c x t query
    answer_texts t messages user

-- A request: its method, its path, and what FastAPI reads of it for a handler, which is nothing if the
-- request does not have the form that the handler declares.
pub record HttpRequest : Type 0 where
  pub method : Method
  pub path : List String
  pub read : (h : Handler) → Option (Input h)

-- Refused by the router or by FastAPI with a status, or what the handler returns or raises; a web
-- socket that reaches no route is closed, which status 404 stands for, too.
pub data HttpResponse : Type 0 where
  refused : ℕ → HttpResponse
  answered : (h : Handler) → Result (Output h) → HttpResponse

pub data Event : Type 0 where
  request : Clock → HttpRequest → Event
  -- a run of server/init_seed.py, with the numbers that the sequences of its tables give
  seed : Seed.Numbers → Event

abbrev pub valid : Result RegisterRequest → Option RegisterRequest
valid (ok r) = some r
valid (err _) = none

-- FastAPI has pydantic validate the body of a registration; the other bodies have fields without
-- conditions.
abbrev pub accepted : Libraries → (h : Handler) → Option (Input h) → Option (Input h)
accepted x h none = none
accepted x Table.register_user (some r) = valid (validate x r)
accepted x _ (some i) = some i

module _ (c : Settings) (x : Libraries) (v : Services) where
  abbrev pub run_handler : Clock → (h : Handler) → Option (Input h) → Server → HttpResponse × Server
  run_handler t h none s = (refused 422, s)
  run_handler t h (some i) s =
      let (answer, after) = handle c x v t h i s in (answered h answer, after)

  abbrev pub respond_to : Clock → HttpRequest → Answer → Server → HttpResponse × Server
  respond_to t r Table.not_found s = (refused 404, s)
  respond_to t r Table.method_not_allowed s = (refused 405, s)
  respond_to t r (Table.reached h) s = run_handler t h (accepted x h (r.read h)) s

  unfoldable pub respond : Clock → HttpRequest → Server → HttpResponse × Server
  respond t r s = respond_to t r (v.route r.method r.path) s

  -- The server after an event.
  unfoldable pub after : Event → Server → Server
  unfolding respond
  after (request t r) s = (respond t r s).1
  after (seed n) s = record s { db = (Seed.main n s.db).1 }

  unfoldable pub run_events : List Event → Server → Server
  unfolding after
  run_events [] s = s
  run_events (e ∷ es) s = run_events es (after e s)
