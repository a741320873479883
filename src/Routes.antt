-- ===== src/Routes.antt =====
-- The routes of server/app/domains: auth/routes.py, call/routes.py and user/routes.py, as far as they
-- are more than a call of the handler with its name. A route with a bearer token first asks for its
-- user.
pub mod Table
pub mod Shadowed
pub mod Laws
mod Tests
use nalang_project.Prelude.{ℕ, String, Option, List, ℤ, pos}
use nalang_project.Raise.{Exec, Result, ok, err, pure, gets, ◌>>=◌, ◌>>◌}
use nalang_project.Models.{User}
use nalang_project.Auth.World.{Settings, Libraries, Clock, Server}
use nalang_project.Auth.Accounts.{RegisterRequest}
use nalang_project.Auth.Login.{
  register_user, login_user, refresh_access_token, logout_user, get_current_user,
}
use nalang_project.Auth.Oauth.{
  get_google_login_url, get_line_login_url, get_kakao_login_url, get_naver_login_url,
}
use nalang_project.Call.Rooms.{AccessToken, create_access_token}
use nalang_project.Call.Queue.{register_for_call_queue}
use nalang_project.Call.History.{
  CallHistoryCreate, CallHistoryList, create_call_history_with_check, get_history_list,
  update_audio_url,
}
use nalang_project.Models.{CallHistory}
use nalang_project.Profile.Locale.{get_locale}
use nalang_project.Profile.Update.{UserProfileUpdate, update_user_profile}
use nalang_project.Profile.View.{
  UserProfileOut, SetUpOption, get_partner, get_interests_by_locale, get_languages_by_locale,
  get_genders_by_locale,
}
use nalang_project.Profile.Upload.{UploadFile, upload_profile_image}

pub record TokenResponse : Type 0 where
  pub access_token : String
  pub refresh_token : String
  pub token_type : String

-- `response_model=RegisterResponse` keeps these fields of the answer and of the row.
pub record UserResponse : Type 0 where
  pub id : ℕ
  pub email : String
  pub name : String

pub record RegisterResponse : Type 0 where
  pub access_token : String
  pub refresh_token : String
  pub user : UserResponse

pub record AudioUrlUpdate : Type 0 where
  pub room_name : String
  pub recording_url : Option String

module _ (c : Settings) (x : Libraries) (t : Clock) where
  abbrev bearer : String × String → TokenResponse
  bearer (access, refresh) = record {
    access_token = access;
    refresh_token = refresh;
    token_type = "bearer";
  }

  unfoldable pub login : String → String → Exec Server TokenResponse
  login username password = do tokens ← login_user c x t username password; pure (bearer tokens)

  abbrev registered : String × String × User → RegisterResponse
  registered (access, refresh, u) = record {
    access_token = access;
    refresh_token = refresh;
    user = record { id = u.id; email = u.email; name = u.name };
  }

  unfoldable pub register : RegisterRequest → Exec Server RegisterResponse
  register user_in = do answer ← register_user c x t user_in; pure (registered answer)

  unfoldable pub logout : String → Exec Server String
  logout token = do logout_user c x t token; pure "Logout Success!!"

  unfoldable pub refresh_token : String → Exec Server TokenResponse
  refresh_token token = do tokens ← refresh_access_token c x t token; pure (bearer tokens)

  unfoldable pub google_login : String
  google_login = get_google_login_url c x

  unfoldable pub line_login : String
  line_login = get_line_login_url c x

  unfoldable pub kakao_login : String
  kakao_login = get_kakao_login_url c x

  unfoldable pub naver_login : String
  naver_login = get_naver_login_url c x

  -- The identity in the room is the address of the user.
  unfoldable pub get_call_token :
      (AccessToken → String) → String → String → String → String → Exec Server String
  get_call_token to_jwt key secret room token = do
    user ← get_current_user c x t token
    pure (create_access_token to_jwt key secret user.email room)

  unfoldable pub register_for_call_waiting : String → Exec Server String
  register_for_call_waiting token = do
    user ← get_current_user c x t token
    λ s.
        let (status, redis) = register_for_call_queue t.now user.id s.redis in
        (ok status, record s { redis = redis })

  unfoldable pub record_call : CallHistoryCreate → Exec Server CallHistory
  record_call data_ = create_call_history_with_check t data_

  unfoldable pub record_audio_url : AudioUrlUpdate → Exec Server ℕ
  record_audio_url data_ s =
      let (updated, after) = update_audio_url data_.room_name data_.recording_url s in
      (ok updated, after)

  unfoldable pub history_list : String → Exec Server (List CallHistoryList)
  history_list token = do
    user ← get_current_user c x t token
    gets (λ s. get_history_list user s.db)

  unfoldable pub get_me : String → Option String → Exec Server UserProfileOut
  get_me token header = do
    user ← get_current_user c x t token
    λ s. (get_partner s.db (pos user.id) (get_locale header), s)

  unfoldable pub save_profile : String → UserProfileUpdate → Exec Server Unit
  save_profile token data_ = do
    user ← get_current_user c x t token
    λ s. let (answer, db) = update_user_profile user data_ s.db in (answer, record s { db = db })

  unfoldable pub save_profile_image :
      (String → String → Result (Unit {0}))
      → String
      → String
      → String
      → UploadFile
      → Exec Server String
  save_profile_image upload bucket uuid token file = do
    user ← get_current_user c x t token
    λ s.
        let (answer, db) = upload_profile_image upload bucket uuid file user s.db in
        (answer, record s { db = db })

unfoldable pub get_interests : Option String → Exec Server (List SetUpOption)
get_interests header s = (get_interests_by_locale s.db (get_locale header), s)

unfoldable pub get_languages : Option String → Exec Server (List SetUpOption)
get_languages header s = (get_languages_by_locale s.db (get_locale header), s)

unfoldable pub get_genders : Option String → Exec Server (List SetUpOption)
get_genders header s = (get_genders_by_locale s.db (get_locale header), s)
