-- ===== src/App/Tests.antt =====
-- Requests to a small server.
mod Flow
use nalang_project.Prelude.{
  ◌++◌, ◌≢◌, leb, ◌⊎◌, ◌≡◌, refl, ◌⊎◌, String, true, false, length, map, Option, none, some, List,
  [], ◌∷◌, if◌then◌else◌, ◌==◌, string_eq, pos,
}
use nalang_project.Json
use nalang_project.Raise.{value_error, Error, ok, err}
use nalang_project.Models.{User, Db}
use nalang_project.Auth.World.{Settings, Libraries, Clock, Server}
use nalang_project.Auth.Accounts.{
  RegisterRequest, find_by_email, get_user_by_email, get_user_by_id, create_user, new_user,
  validate,
}
use nalang_project.Redis
use nalang_project.Auth.Login.{
  register_user, get_current_user, login_user, sign_in, store_token, create_access_token,
  access_claims, create_refresh_token, refresh_claims, refresh_access_token,
}
use nalang_project.Routes
use nalang_project.Profile.Seed
use nalang_project.Text.{str, int}
use nalang_project.Auth.CurrentUser.{decoded_query, IsBearer}
use nalang_project.Call.History.{has_user, create_call_history_with_check, create_call_history}
use nalang_project.Call.Rooms
use nalang_project.Profile.Update.{update_user_profile, new_links, commit_user}
use nalang_project.Routes.Table
use nalang_project.Routes.Table.{Handler, Method, resolve}
use nalang_project.App.{
  Services, Input, HttpRequest, answered, Event, request, seed, respond, after, handle, run_events,
}
use nalang_project.Agent.Waiting.{Storage, exists, missing}
use nalang_project.Agent.Entrypoint.{Env, endless, on_shutdown}
use nalang_project.App.Recording.{after_shutdown, Recorded, on_shutdown-Recorded}
use nalang_project.Waiting.State.{World, empty}
use nalang_project.Waiting.Closing.{IsGone}
use nalang_project.Waiting.Invariant.{IsWell}
use nalang_project.Waiting.Route.{Connection, websocket_waiting}
use nalang_project.Waiting.RouteLaws.{websocket_waiting-IsGone}
use nalang_project.App.Sound.{IsSound, empty_db, empty_db-IsSound}
use nalang_project.App.Sessions.{HasSessions}
use nalang_project.App.Histories.{IsLater, run_events-IsSound, run_events-IsLater}
use nalang_project.App.Refreshing.{refresh_access_token-Known}
use nalang_project.App.Guards.{bearer, decoded, respond-IsBearer}
use nalang_project.App.Reading.{calls_back, respond-get}

-- A token is the number of its user.
abbrev libraries : Libraries
libraries = record {
  encode = λ c key alg. elim c.sub [ none ↦ "" | some s ↦ s ];
  decode = λ now token key algs.
      if token == "" then none else some (record { sub = some token; exp = 0 });
  hash = λ p. "#";
  verify = λ p h. true;
  email = λ s. some s;
  urlencode = λ fields. "";
  repr = λ j. "";
}

abbrev settings : Settings
settings = record {
  jwt_secret_key = "a";
  jwt_refresh_secret_key = "b";
  algorithm = "HS256";
  access_token_expire_minutes = 30;
  refresh_token_expire_days = 14;
  front_redirect_url = "";
  google_client_id = "";
  google_client_secret = "";
  google_redirect_uri = "";
  line_client_id = "";
  line_client_secret = "";
  line_redirect_uri = "";
  kakao_client_id = "";
  kakao_redirect_uri = "";
  naver_client_id = "";
  naver_client_secret = "";
  naver_redirect_uri = "";
}

abbrev pub services : Services
services = record {
  client = record {
    post = λ url fields. ok (record { status_code = 500; json = ok Json.null });
    fetch = λ url token. ok (record { status_code = 500; json = ok Json.null });
  };
  to_jwt = λ t. t.identity;
  livekit_api_key = "";
  livekit_api_secret = "";
  delete_room = λ room. Rooms.answer tt;
  list_rooms = Rooms.answer [];
  upload = λ key content_type. ok tt;
  bucket = "b";
  route = resolve;
}

first_fits : Table.IsRouter services.route
first_fits m path h = ((λ e. e), (λ e. e))

abbrev api : List String → List String
api path = "api" ∷ "v1" ∷ path

abbrev registration : String → RegisterRequest
registration email = record {
  email = email;
  name = "Ann";
  password = some "secret12";
  provider = some "local";
  profile_image = none;
}

abbrev read_register : String → (h : Handler) → Option (Input h)
read_register email Table.register_user = some (registration email)
read_register email _ = none

abbrev post_register : String → HttpRequest
post_register email = record {
  method = Table.post;
  path = api ("auth" ∷ "register" ∷ []);
  read = read_register email;
}

abbrev read_save_profile : (h : Handler) → Option (Input h)
read_save_profile Table.save_profile = some (record {
  token = "1";
  input = record { interests = 2 ∷ 1 ∷ []; languages = 3 ∷ []; gender_id = some 1 };
})
read_save_profile _ = none

abbrev post_profile : HttpRequest
post_profile = record {
  method = Table.post;
  path = api ("user" ∷ "me" ∷ "profile" ∷ []);
  read = read_save_profile;
}

abbrev read_record_call : (h : Handler) → Option (Input h)
read_record_call Table.record_call = some (record {
  user_id = 1;
  partner_id = 2;
  room_name = "r";
  started_at = 10;
  ended_at = 40;
  duration_sec = pos 30;
  recording_url = none;
  transcript_url = none;
  summary_text = none;
})
read_record_call _ = none

abbrev post_record : HttpRequest
post_record = record {
  method = Table.post;
  path = api ("call" ∷ "record" ∷ []);
  read = read_record_call;
}

abbrev read_get_me : String → (h : Handler) → Option (Input h)
read_get_me token Table.get_me = some (record { token = token; input = none })
read_get_me token _ = none

abbrev get_me : String → HttpRequest
get_me token = record {
  method = Table.get;
  path = api ("user" ∷ "me" ∷ []);
  read = read_get_me token;
}

abbrev clock : Clock
clock = record { now = 5; local_now = 5 }

abbrev first_numbers : Seed.Numbers
first_numbers = record { interest = 1; gender = 1; language = 1 }

abbrev events : List Event
events =
    seed first_numbers
    ∷ request clock (post_register "a@b.kr")
    ∷ request clock (post_register "a@b.kr")
    ∷ request clock (post_register "b@b.kr")
    ∷ request clock post_profile
    ∷ request clock post_record
    ∷ request clock (get_me "1")
    ∷ seed (record { interest = 7; gender = 7; language = 7 })
    ∷ []

abbrev fresh : Server
fresh = record { db = empty_db; redis = [] }

abbrev world : World
world = record {
  now = 10;
  today = record { year = 2025; month = 7; day = 1 };
  suffix = "0a1b2c";
  online = λ s. true;
}

-- The first user connects, sends a text that is no JSON, and its connection ends.
abbrev connection : Connection
connection = record {
  socket = 101;
  filters = record { gender_id = none; language_id = none; min_age = none; max_age = none };
  opened = world;
  texts = (world, err value_error) ∷ [];
  closed = world;
}

abbrev read_waiting : (h : Handler) → Option (Input h)
read_waiting Table.websocket_waiting = some (some "1", connection, empty)
read_waiting _ = none

abbrev open_waiting : HttpRequest
open_waiting = record {
  method = Table.websocket;
  path = api ("ws" ∷ "waiting" ∷ []);
  read = read_waiting;
}

abbrev with_waiting : List Event
with_waiting = events ++ request clock open_waiting ∷ []

run_events-IsSound_example :
    let last = run_events settings libraries services with_waiting fresh in
    IsSound libraries last.db × HasSessions last.db last.redis
run_events-IsSound_example = run_events-IsSound settings libraries services with_waiting

run_events-IsLater_example :
    IsLater empty_db (run_events settings libraries services events fresh).db
run_events-IsLater_example =
    run_events-IsLater settings libraries services events fresh (empty_db-IsSound libraries)

abbrev read_login : (h : Handler) → Option (Input h)
read_login Table.login = some (record { username = "a@b.kr"; password = "secret12" })
read_login _ = none

abbrev post_login : HttpRequest
post_login = record { method = Table.post; path = api ("auth" ∷ "login" ∷ []); read = read_login }

abbrev logged_in : List Event
logged_in = request clock (post_register "a@b.kr") ∷ request clock post_login ∷ []

refresh_access_token-Known_example :
    has_user 1 (run_events settings libraries services logged_in fresh).db ≡ true
unfolding run_events after respond resolve Table.search_routes Table.answers Table.touches
    Table.fits handle Routes.register Routes.login register_user get_user_by_email create_user
    find_by_email new_user validate login_user sign_in store_token create_access_token access_claims
    create_refresh_token refresh_claims refresh_access_token Redis.get Redis.set str
refresh_access_token-Known_example =
    refresh_access_token-Known settings libraries services logged_in clock "1"
      (record { sub = some "1"; exp = 0 }) 1 ("1", "1") refl refl refl

gets_me : resolve Table.get (api ("user" ∷ "me" ∷ [])) ≡ Table.reached Table.get_me
unfolding resolve Table.search_routes Table.answers Table.touches Table.fits
gets_me = refl

respond-IsBearer_example :
    ((u : User) × IsBearer (decoded settings libraries clock (bearer "7")) fresh u)
    ⊎ ((e : Error) × (respond settings libraries services clock (get_me "7") fresh
          ≡ (answered Table.get_me (err e), fresh)))
respond-IsBearer_example =
    respond-IsBearer settings libraries services clock (get_me "7") fresh Table.get_me
      (record { token = "7"; input = none }) (bearer "7") gets_me refl refl

no_callback : calls_back (services.route Table.get (get_me "1").path) ≡ false
unfolding resolve Table.search_routes Table.answers Table.touches Table.fits
no_callback = refl

respond-get_example : (respond settings libraries services clock (get_me "1") fresh).1 ≡ fresh
respond-get_example =
    respond-get settings libraries services clock (get_me "1") fresh first_fits refl no_callback

abbrev last : Db
last = (run_events settings libraries services events fresh).db

-- Two accounts and a call between them; the second run of the seeds adds nothing.
last_rows :
    (map (λ u. u.interest_links) last.users ≡ (2 ∷ 1 ∷ []) ∷ [] ∷ [])
    × (length last.histories ≡ 1)
    × (length last.interests ≡ 3)
    × (last.next_user ≡ 3)
unfolding run_events after respond resolve Table.search_routes Table.answers Table.touches
    Table.fits handle Routes.register register_user get_user_by_email create_user find_by_email
    new_user validate Seed.main Seed.seeded Routes.get_me get_current_user int get_user_by_id
    Routes.record_call create_call_history_with_check create_call_history Routes.save_profile
    update_user_profile new_links commit_user
last_rows = (refl, refl, refl, refl)

abbrev bucket : Storage
bucket t = (if leb 105 t then exists else missing, 0)

abbrev env : Env
env = record {
  s3_bucket = some "calls";
  s3_region = some "ap-northeast-2";
  s3_access_key = some "k";
  s3_secret_key = some "s";
  call_record_api = some "https://server/api/v1/call/record";
  audio_prefix = "";
}

abbrev called : Server
called = run_events settings libraries services events fresh

on_shutdown-Recorded_example :
    let s' =
      after_shutdown settings libraries services clock
        (on_shutdown env bucket 100 "r" "r.ogg")
        called in
    (on_shutdown env bucket 100 "r" "r.ogg" ≢ endless)
    × (Recorded env bucket 100 "r" "r.ogg" called s' ⊎ (s' ≡ called))
on_shutdown-Recorded_example =
    on_shutdown-Recorded settings libraries services clock env bucket 100 "r" "r.ogg" called
      first_fits

websocket_waiting-IsGone_example :
    let (answer, l') =
      websocket_waiting settings libraries clock (some "1") connection called empty in
    IsWell l'
    × (((e : Error) × (answer ≡ err e) × (l' ≡ empty))
        ⊎ ((u : User) × IsBearer (decoded_query settings libraries clock (some "1")) called u
            × IsGone u.id l'))
websocket_waiting-IsGone_example =
    websocket_waiting-IsGone settings libraries clock (some "1") connection called empty
      (record { queue_keys = tt; room_keys = tt; pairs = tt; entered_set = tt })
