-- ===== src/Auth/World.antt =====
-- What the handlers of accounts and sessions work on: the settings (server/app/core/config.py), the
-- libraries that sign tokens, hash passwords and check addresses, the clocks, and the stores.
use nalang_project.Prelude.{ℕ, ◌≤◌, ◌≡◌, String, Bool, true, Option, some, List, [], ◌∷◌}
use nalang_project.Json.{Json}
use nalang_project.Redis.{Redis}
use nalang_project.Models.{Db}
use nalang_project.Waiting.State.{Value}

pub record Settings : Type 0 where
  pub jwt_secret_key : String
  pub jwt_refresh_secret_key : String
  pub algorithm : String
  pub access_token_expire_minutes : ℕ
  pub refresh_token_expire_days : ℕ
  pub front_redirect_url : String
  pub google_client_id : String
  pub google_client_secret : String
  pub google_redirect_uri : String
  pub line_client_id : String
  pub line_client_secret : String
  pub line_redirect_uri : String
  pub kakao_client_id : String
  pub kakao_redirect_uri : String
  pub naver_client_id : String
  pub naver_client_secret : String
  pub naver_redirect_uri : String

-- The two claims that the code writes and reads; `exp` is in seconds.
pub record Claims : Type 0 where
  pub sub : Option String
  pub exp : ℕ

-- Third-party code.
pub record Libraries : Type 0 where
  -- jose: `jwt.encode(claims, key, algorithm)`, and `jwt.decode` at a time, `none` for JWTError
  pub encode : Claims → String → String → String
  pub decode : ℕ → String → String → List String → Option Claims
  -- passlib: `hash` and `verify`
  pub hash : String → String
  pub verify : String → Option String → Bool
  -- email-validator, as pydantic's `EmailStr` uses it: the address in its normal form
  pub email : String → Option String
  -- `urllib.parse.urlencode`, and `str` of a JSON value that is no text
  pub urlencode : List (String × String) → String
  pub repr : Json → String

-- What the documentation of these libraries says and the theorems use.
pub record IsLawful (x : Libraries) : Type 0 where
  -- a token for a subject, made with HS256 and not expired, is read back under its key
  pub decode-encode :
      (now exp : ℕ) (sub key : String)
      → now ≤ exp
      → let c : Claims = record { sub = some sub; exp = exp } in
        x.decode now (x.encode c key "HS256") key ("HS256" ∷ []) ≡ some c
  pub verify-hash : (password : String) → x.verify password (some (x.hash password)) ≡ true

-- `now` is the time in UTC; `local_now` is what `datetime.now()` shows.
pub record Clock : Type 0 where
  pub now : ℕ
  pub local_now : ℕ

pub record Server : Type 0 where
  pub db : Db
  pub redis : Redis Value
