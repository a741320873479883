-- ===== src/Auth/Oauth.antt =====
-- Log-in by Google, LINE, Kakao and Naver: server/app/domains/auth/services/google.py, line.py,
-- kakao.py and naver.py. The answers of the providers are an argument.
use nalang_project.Prelude.{
  ℕ, String, Option, none, some, List, [], ◌∷◌, if◌then◌else◌, nat_beq, ◌==◌, string_eq,
}
use nalang_project.Text.{◌+s◌}
use nalang_project.Json
use nalang_project.Json.{Json}
use nalang_project.Raise.{
  Exec, Result, ok, err, http, validation_error, service_error, and_then, pure, lift, ◌>>=◌,
}
use nalang_project.Models.{User}
use nalang_project.Auth.World.{Settings, Libraries, Clock, Server}
use nalang_project.Auth.Accounts.{RegisterRequest, validate, get_user_by_email, create_user}
use nalang_project.Auth.Login.{sign_in}

-- An answer of a provider; `response.json()` may raise.
pub record Response : Type 0 where
  pub status_code : ℕ
  pub json : Result Json

-- httpx: `client.post(url, data or params)`, and `client.get(url)` with a bearer token
pub record Client : Type 0 where
  pub post : String → List (String × Option String) → Result Response
  pub fetch : String → String → Result Response

-- f"{value}"
abbrev show : Libraries → Json → String
show x (Json.str s) = s
show x v = x.repr v

-- What a provider reports of a user: the address, the name and the picture.
pub record Profile : Type 0 where
  pub email : Json
  pub name : Json
  pub image : Json

abbrev pub as_text : Json → Result String
as_text (Json.str s) = ok s
as_text _ = err validation_error

abbrev pub as_optional : Json → Result (Option String)
as_optional (Json.str s) = ok (some s)
as_optional Json.null = ok none
as_optional _ = err validation_error

-- The construction of a `RegisterRequest` from what the provider reports.
unfoldable pub to_request : Libraries → String → Profile → Result RegisterRequest
to_request x provider p = and_then (as_text p.email) λ email. and_then (as_text p.name) λ name.
    and_then (as_optional p.image) λ image. validate x (record {
      email = email;
      name = name;
      password = none;
      provider = some provider;
      profile_image = image;
    })

-- The query by an address that is no text: nobody for `None`, an error of the database otherwise.
abbrev pub by_address : Json → Exec Server (Option User)
by_address (Json.str email) = get_user_by_email email
by_address Json.null = pure none
by_address _ = lift (err service_error)

abbrev pub or_register : Libraries → Clock → Option User → Result RegisterRequest → Exec Server User
or_register x t (some u) r = pure u
or_register x t none r = do user_data ← lift r; create_user x t user_data

module _ (c : Settings) (x : Libraries) where
  abbrev pub redirect : String × String → String
  redirect (access, refresh) =
      c.front_redirect_url +s "?access_token=" +s access +s "&refresh_token=" +s refresh

  unfoldable pub sign_in_by : Clock → User → Exec Server String
  sign_in_by t user = do tokens ← sign_in c x t user; pure (redirect tokens)

  -- The account with the address is signed in, and made if there is none.
  unfoldable pub enter_by : Clock → String → Profile → Exec Server String
  unfolding to_request sign_in_by
  enter_by t provider p = do
    found ← by_address p.email
    user ← or_register x t found (to_request x provider p)
    sign_in_by t user

  unfoldable pub get_google_login_url : String
  get_google_login_url =
      "https://accounts.google.com/o/oauth2/v2/auth"
      +s "?"
      +s x.urlencode (
          ("client_id", c.google_client_id)
          ∷ ("response_type", "code")
          ∷ ("redirect_uri", c.google_redirect_uri)
          ∷ ("scope", "openid email profile")
          ∷ ("access_type", "offline")
          ∷ ("prompt", "consent")
          ∷ [])

  unfoldable pub get_line_login_url : String
  get_line_login_url =
      "https://access.line.me/oauth2/v2.1/authorize" +s "?response_type=code" +s "&client_id="
      +s c.line_client_id +s "&redirect_uri=" +s c.line_redirect_uri
      +s "&scope=profile%20openid%20email" +s "&state=xyz"

  unfoldable pub get_kakao_login_url : String
  get_kakao_login_url =
      "https://kauth.kakao.com/oauth/authorize" +s "?response_type=code" +s "&client_id="
      +s c.kakao_client_id +s "&redirect_uri=" +s c.kakao_redirect_uri

  unfoldable pub get_naver_login_url : String
  get_naver_login_url =
      "https://nid.naver.com/oauth2.0/authorize" +s "?response_type=code" +s "&client_id="
      +s c.naver_client_id +s "&redirect_uri=" +s c.naver_redirect_uri +s "&state=xyz"

  abbrev given : Option String → Result String
  given none = err (http 400 "Code not Provided")
  given (some code) = if code == "" then err (http 400 "Code not Provided") else ok code

  -- `if response.status_code != 200: raise HTTPException(400, detail)`
  abbrev expect_ok : String → Response → Result Json
  expect_ok detail r = if nat_beq r.status_code 200 then r.json else err (http 400 detail)

  unfoldable pub google_profile : Client → String → Result Profile
  google_profile client code =
      and_then
        (client.post "https://oauth2.googleapis.com/token" (
          ("client_id", some c.google_client_id)
          ∷ ("client_secret", some c.google_client_secret)
          ∷ ("code", some code)
          ∷ ("grant_type", some "authorization_code")
          ∷ ("redirect_uri", some c.google_redirect_uri)
          ∷ []))
        λ token_resp. and_then (expect_ok "Google Token request Failed" token_resp) λ token_data.
          and_then (Json.index "access_token" token_data) λ token.
            and_then (client.fetch "https://www.googleapis.com/oauth2/v2/userinfo" (show x token))
              λ userinfo_resp.
                and_then (expect_ok "Google userinfo fetch Failed" userinfo_resp) λ user_info.
                  and_then (Json.index "email" user_info) λ email.
                    and_then (Json.index "name" user_info) λ name.
                      and_then (Json.index "picture" user_info)
                        λ picture. ok (record { email = email; name = name; image = picture })

  -- Here the request is validated for an account that exists, too.
  unfoldable pub handle_google_callback : Client → Clock → Option String → Exec Server String
  unfolding google_profile to_request sign_in_by
  handle_google_callback client t query = do
    code ← lift (given query)
    p ← lift (google_profile client code)
    found ← by_address p.email
    user_data ← lift (to_request x "google" p)
    user ← or_register x t found (ok user_data)
    sign_in_by t user

  abbrev token_of : Result Response → Result Json
  token_of r =
      and_then r
        λ token_resp. and_then token_resp.json λ token_json. Json.index "access_token" token_json

  abbrev profile_by : Client → String → Json → Result Json
  profile_by client url token =
      and_then (client.fetch url (show x token)) λ profile_resp. profile_resp.json

  unfoldable pub line_profile : Client → Option String → Result Profile
  line_profile client code =
      and_then
        (token_of (
          client.post "https://api.line.me/oauth2/v2.1/token" (
            ("grant_type", some "authorization_code")
            ∷ ("code", code)
            ∷ ("redirect_uri", some c.line_redirect_uri)
            ∷ ("client_id", some c.line_client_id)
            ∷ ("client_secret", some c.line_client_secret)
            ∷ [])))
        λ token. and_then (profile_by client "https://api.line.me/v2/profile" token) λ profile.
          and_then (Json.index "userId" profile) λ user_id.
            and_then (Json.index "displayName" profile) λ name.
              and_then (Json.index "pictureUrl" profile) λ picture. ok (record {
                email = Json.str (show x user_id +s "@line.com");
                name = name;
                image = picture;
              })

  unfoldable pub handle_line_callback : Client → Clock → Option String → Exec Server String
  unfolding line_profile
  handle_line_callback client t code = do p ← lift (line_profile client code); enter_by t "line" p

  abbrev empty_dict : Json
  empty_dict = Json.obj Json.end

  unfoldable pub kakao_profile : Client → Option String → Result Profile
  kakao_profile client code =
      and_then
        (token_of (
          client.post "https://kauth.kakao.com/oauth/token" (
            ("grant_type", some "authorization_code")
            ∷ ("client_id", some c.kakao_client_id)
            ∷ ("redirect_uri", some c.kakao_redirect_uri)
            ∷ ("code", code)
            ∷ [])))
        λ token. and_then (profile_by client "https://kapi.kakao.com/v2/user/me" token) λ profile.
          and_then (Json.get_or "kakao_account" empty_dict profile) λ account.
            and_then (Json.get "email" account) λ _. and_then (Json.index "id" profile) λ id.
              and_then (Json.get_or "email" (Json.str (show x id +s "@kakao.com")) account) λ email.
                and_then (Json.get_or "profile" empty_dict account) λ shown.
                  and_then (Json.get_or "nickname" (Json.str "Unknown") shown) λ name.
                    and_then (Json.get_or "profile_image_url" Json.null shown)
                      λ image. ok (record { email = email; name = name; image = image })

  unfoldable pub handle_kakao_callback : Client → Clock → Option String → Exec Server String
  unfolding kakao_profile
  handle_kakao_callback client t code = do
    p ← lift (kakao_profile client code)
    enter_by t "kakao" p

  unfoldable pub naver_profile : Client → Option String → Result Profile
  naver_profile client code =
      and_then
        (token_of (
          client.post "https://nid.naver.com/oauth2.0/token" (
            ("grant_type", some "authorization_code")
            ∷ ("client_id", some c.naver_client_id)
            ∷ ("client_secret", some c.naver_client_secret)
            ∷ ("code", code)
            ∷ ("state", some "xyz")
            ∷ [])))
        λ token. and_then (profile_by client "https://openapi.naver.com/v1/nid/me" token) λ answer.
          and_then (Json.index "response" answer) λ user_info.
            and_then (Json.index "email" user_info) λ email.
              and_then (Json.index "name" user_info) λ name.
                and_then (Json.index "profile_image" user_info)
                  λ image. ok (record { email = email; name = name; image = image })

  unfoldable pub handle_naver_callback : Client → Clock → Option String → Exec Server String
  unfolding naver_profile
  handle_naver_callback client t code = do
    p ← lift (naver_profile client code)
    enter_by t "naver" p
