-- ===== src/Auth/Login.antt =====
-- server/app/core/security.py, server/app/domains/auth/services/__init__.py, the dependency
-- `get_current_user` and the routes that are not about other providers.
use nalang_project.Prelude.{
  ℕ, ◌+◌, ◌*◌, String, Bool, true, false, Option, none, some, [], ◌∷◌, if◌then◌else◌, ◌==◌,
  string_eq,
}
use nalang_project.Text.{str, int}
use nalang_project.Redis
use nalang_project.Raise.{
  Exec, Result, ok, err, http, value_error, from_option, pure, raise, lift, gets, modify, raise_if,
  ◌>>=◌, ◌>>◌,
}
use nalang_project.Models.{User}
use nalang_project.Waiting.State.{Value, text}
use nalang_project.Auth.World.{Settings, Libraries, Claims, Clock, Server}
use nalang_project.Auth.Accounts.{
  RegisterRequest, is_some, get_user_by_email, get_user_by_id, create_user,
}

module _ (c : Settings) (x : Libraries) (t : Clock) where
  unfoldable pub access_claims : Option String → Claims
  access_claims sub = record { sub = sub; exp = t.local_now + c.access_token_expire_minutes * 60 }

  unfoldable pub refresh_claims : Option String → Claims
  refresh_claims sub = record { sub = sub; exp = t.local_now + c.refresh_token_expire_days * 86400 }

  unfoldable pub create_access_token : Option String → String
  create_access_token sub = x.encode (access_claims sub) c.jwt_secret_key c.algorithm

  unfoldable pub create_refresh_token : Option String → String
  create_refresh_token sub = x.encode (refresh_claims sub) c.jwt_refresh_secret_key c.algorithm

  -- `redis_client.set(refresh_token, str(user.id), ex=7 * 24 * 60 * 60)`
  unfoldable pub store_token : String → ℕ → Server → Server
  store_token token id s = record s { redis = Redis.set t.now token (text (str id)) 604800 s.redis }

  abbrev pub known_password : String → Option User → Bool
  known_password password none = false
  known_password password (some u) = x.verify password u.hashed_password

  unfoldable pub sign_in : User → Exec Server (String × String)
  sign_in u = do
    let refresh_token = create_refresh_token (some (str u.id))
    modify (store_token refresh_token u.id)
    pure (create_access_token (some (str u.id)), refresh_token)

  abbrev or_invalid : String → Option User → Exec Server (String × String)
  or_invalid password none = raise (http 400 "Invalid Credential")
  or_invalid password (some u) =
      if x.verify password u.hashed_password
      then sign_in u
      else raise (http 400 "Invalid Credential")

  unfoldable pub login_user : String → String → Exec Server (String × String)
  login_user email password = do found ← get_user_by_email email; or_invalid password found

  -- `stored_user_id != user_id`, negated
  abbrev pub same_user : Option Value → Option String → Bool
  same_user none none = true
  same_user (some (text s)) (some u) = s == u
  same_user _ _ = false

  unfoldable pub refresh_access_token : String → Exec Server (String × String)
  refresh_access_token token = do
    payload ← lift (
        from_option (http 401 "Unauthorized")
          (x.decode t.now token c.jwt_refresh_secret_key ("HS256" ∷ [])))
    stored ← gets (λ s. Redis.get t.now token s.redis)
    if same_user stored payload.sub
        then pure (create_access_token payload.sub, token)
        else raise (http 401 "Mismatch Refresh Token")

  unfoldable pub logout_user : String → Exec Server Unit
  logout_user token = modify (λ s. record s { redis = Redis.delete token s.redis })

  -- The route `/register`, after the request has been validated.
  unfoldable pub register_user : RegisterRequest → Exec Server (String × String × User)
  register_user r = do
    existing ← get_user_by_email r.email
    raise_if (is_some existing) (http 400 "Existing Email")
    user ← create_user x t r
    pure (create_access_token (some (str user.id)), create_refresh_token (some (str user.id)), user)

  abbrev credentials_exception : Result User
  credentials_exception = err (http 401 "Could not validate Credentials")

  abbrev pub or_unauthorized : Option User → Result User
  or_unauthorized none = credentials_exception
  or_unauthorized (some u) = ok u

  -- `get_current_user`
  unfoldable pub get_current_user : String → Exec Server User
  get_current_user token = do
    payload ← lift (
        from_option (http 401 "Could not validate Credentials")
          (x.decode t.now token c.jwt_secret_key ("HS256" ∷ [])))
    sub ← lift (from_option (http 401 "Could not validate Credentials") payload.sub)
    id ← lift (from_option value_error (int sub))
    found ← get_user_by_id id
    lift (or_unauthorized found)

  abbrev query_token : Option String → Result String
  query_token none = err (http 403 "Missing Token")
  query_token (some token) = if token == "" then err (http 403 "Missing Token") else ok token

  abbrev or_not_found : Option User → Result User
  or_not_found none = err (http 404 "User not Found")
  or_not_found (some u) = ok u

  -- `get_current_user_ws` of server/app/domains/call/services/ws_service.py: `int(None)` is a
  -- TypeError
  unfoldable pub get_current_user_ws : Option String → Exec Server User
  get_current_user_ws query = do
    token ← lift (query_token query)
    payload ← lift (
        from_option (http 403 "Invalid Token")
          (x.decode t.now token c.jwt_secret_key (c.algorithm ∷ [])))
    sub ← lift (from_option nalang_project.Raise.type_error payload.sub)
    id ← lift (from_option value_error (int sub))
    found ← get_user_by_id id
    lift (or_not_found found)
