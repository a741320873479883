-- ===== src/Auth/Sessions.antt =====
-- Tokens: who they stand for, for how long, and what a log-out ends.
use nalang_project.Prelude.{
  ℕ, ◌+◌, ◌*◌, ◌≤◌, ◌<◌, ◌≡◌, refl, ◌≢◌, ◌∙◌, String, true, false, Option, none, some, [], ◌∷◌,
  arith, if◌then◌else◌, ◌==◌, nat_eq, string_eq, ==_refl, ==_ne, pos,
}
use nalang_project.Text.{str}
use nalang_project.Text.RoundTrip.{int-str}
use nalang_project.Redis
use nalang_project.Redis.{get-set, get-delete}
use nalang_project.Raise.{ok, err, http}
use nalang_project.Models.{User}
use nalang_project.Waiting.State.{Value, text}
use nalang_project.Auth.World.{Settings, Libraries, IsLawful, Clock, Server}
use nalang_project.Auth.Accounts.{
  RegisterRequest, find_by_email, find_by_id, new_user, create_user, get_user_by_email,
  get_user_by_id,
}
use nalang_project.Auth.Login.{
  known_password, access_claims, refresh_claims, create_access_token, create_refresh_token,
  store_token, sign_in, login_user, refresh_access_token, logout_user, register_user,
  get_current_user,
}
use nalang_project.Auth.AccountLaws.{IsConsistent, create_user-fresh, find_by_id-append}

module _ (c : Settings) (x : Libraries) (law : IsLawful x) (alg : c.algorithm ≡ "HS256") where
  access_decodes :
      (t t' : Clock) (sub : String)
      → t'.now ≤ t.local_now + c.access_token_expire_minutes * 60
      → x.decode t'.now (create_access_token c x t (some sub)) c.jwt_secret_key ("HS256" ∷ [])
        ≡ some (access_claims c x t (some sub))
  unfolding create_access_token access_claims
  access_decodes t t' sub h = rw alg (law.decode-encode t'.now _ sub c.jwt_secret_key h)

  -- With lawful libraries and the algorithm HS256, an access token stands for its user, whose
  -- row is still there, until it expires.
  pub get_current_user-create_access_token :
      (t t' : Clock) (u : User) (s : Server)
      → t'.now ≤ t.local_now + c.access_token_expire_minutes * 60
      → find_by_id (pos u.id) s.db.users ≡ some u
      → get_current_user c x t' (create_access_token c x t (some (str u.id))) s ≡ (ok u, s)
  unfolding get_current_user get_user_by_id
  get_current_user-create_access_token t t' u s h known =
      rw (access_decodes t t' (str u.id) h) (unfold access_claims in rw (int-str u.id, known))

  refresh_decodes :
      (t t' : Clock) (sub : String)
      → t'.now ≤ t.local_now + c.refresh_token_expire_days * 86400
      → x.decode t'.now
          (create_refresh_token c x t (some sub))
          c.jwt_refresh_secret_key
          ("HS256" ∷ [])
        ≡ some (refresh_claims c x t (some sub))
  unfolding create_refresh_token refresh_claims
  refresh_decodes t t' sub h = rw alg (law.decode-encode t'.now _ sub c.jwt_refresh_secret_key h)

  -- What a refresh answers for a token that has not expired, by what Redis holds for it.
  refresh-stored :
      (t t' : Clock) (id : ℕ) (s : Server)
      → t'.now ≤ t.local_now + c.refresh_token_expire_days * 86400
      → (v : Option Value)
      → Redis.get t'.now (create_refresh_token c x t (some (str id))) s.redis ≡ v
      → v ≡ some (text (str id))
      → refresh_access_token c x t' (create_refresh_token c x t (some (str id))) s ≡ (
        ok (create_access_token c x t' (some (str id)), create_refresh_token c x t (some (str id))),
        s,
      )
  unfolding refresh_access_token
  refresh-stored t t' id s h v e known =
      rw (refresh_decodes t t' (str id) h, e, known)
        (unfold refresh_claims in rw (==_refl (str id)))

  pub refresh-forgotten :
      (t t' : Clock) (id : ℕ) (s : Server)
      → t'.now ≤ t.local_now + c.refresh_token_expire_days * 86400
      → Redis.get t'.now (create_refresh_token c x t (some (str id))) s.redis ≡ none
      → refresh_access_token c x t' (create_refresh_token c x t (some (str id))) s
        ≡ (err (http 401 "Mismatch Refresh Token"), s)
  unfolding refresh_access_token
  refresh-forgotten t t' id s h e =
      rw (refresh_decodes t t' (str id) h, e) (unfold refresh_claims in refl)

  pub login_ok :
      (t : Clock) (email password : String) (u : User) (s : Server)
      → find_by_email email s.db.users ≡ some u
      → x.verify password u.hashed_password ≡ true
      → login_user c x t email password s ≡ (
        ok (
          create_access_token c x t (some (str u.id)),
          create_refresh_token c x t (some (str u.id)),
        ),
        store_token c x t (create_refresh_token c x t (some (str u.id))) u.id s,
      )
  unfolding login_user get_user_by_email sign_in
  login_ok t email password u s h v = rw (h, v)

  stored_token :
      (t : Clock) (later id : ℕ) (token : String) (s : Server)
      → later < t.now + 604800
      → Redis.get later token (store_token c x t token id s).redis ≡ some (text (str id))
  unfolding store_token
  stored_token t later id token s h = rw (get-set, ==_refl token) (ground arith)

  stale_token :
      (t : Clock) (later id : ℕ) (token : String) (s : Server)
      → t.now + 604800 ≤ later
      → Redis.get later token (store_token c x t token id s).redis ≡ none
  unfolding store_token
  stale_token t later id token s h = rw (get-set, ==_refl token) (ground arith)

  -- With lawful libraries and the algorithm HS256: after a log-in of a known user with the right
  -- password, and for less than seven days, the refresh token, as long as it has not expired,
  -- gives a new access token, and that one stands for the same user until it expires.
  pub refresh-login :
      (t t' t'' : Clock) (email password : String) (u : User) (s : Server)
      → find_by_email email s.db.users ≡ some u
      → x.verify password u.hashed_password ≡ true
      → find_by_id (pos u.id) s.db.users ≡ some u
      → t'.now < t.now + 604800
      → t'.now ≤ t.local_now + c.refresh_token_expire_days * 86400
      → t''.now ≤ t'.local_now + c.access_token_expire_minutes * 60
      → let (_, s1) = login_user c x t email password s in
        let refresh_token = create_refresh_token c x t (some (str u.id)) in
        let access_token = create_access_token c x t' (some (str u.id)) in
        (refresh_access_token c x t' refresh_token s1 ≡ (ok (access_token, refresh_token), s1))
        × (get_current_user c x t'' access_token s1 ≡ (ok u, s1))
  refresh-login t t' t'' email password u s h v k in_week in_time fresh =
      rw (login_ok t email password u s h v) (
        refresh-stored t t' u.id _ in_time _ refl
            (stored_token t t'.now u.id (create_refresh_token c x t (some (str u.id))) s in_week),
        get_current_user-create_access_token t' t'' u _ fresh (unfold store_token in k),
      )

  -- With lawful libraries and the algorithm HS256, from the seventh day after the log-in on a
  -- refresh token that has not expired is refused.
  pub refresh-login_week :
      (t t' : Clock) (email password : String) (u : User) (s : Server)
      → find_by_email email s.db.users ≡ some u
      → x.verify password u.hashed_password ≡ true
      → t.now + 604800 ≤ t'.now
      → t'.now ≤ t.local_now + c.refresh_token_expire_days * 86400
      → let (_, s1) = login_user c x t email password s in
        refresh_access_token c x t' (create_refresh_token c x t (some (str u.id))) s1
        ≡ (err (http 401 "Mismatch Refresh Token"), s1)
  refresh-login_week t t' email password u s h v late in_time =
      rw (login_ok t email password u s h v) (
        refresh-forgotten t t' u.id _ in_time
          (stale_token t t'.now u.id (create_refresh_token c x t (some (str u.id))) s late))

  -- The answer to a refresh depends on the clock and on what Redis holds for the token.
  refresh-same :
      (t : Clock) (token : String) (s s1 : Server)
      → Redis.get t.now token s1.redis ≡ Redis.get t.now token s.redis
      → (refresh_access_token c x t token s1).0 ≡ (refresh_access_token c x t token s).0
  unfolding refresh_access_token
  refresh-same t token s s1 e = ground arith

  logged_out :
      (t : Clock) (token other : String) (now : ℕ) (s : Server)
      → Redis.get now other (logout_user c x t token s).1.redis
        ≡ (if token == other then none else Redis.get now other s.redis)
  unfolding logout_user
  logged_out t token other now s = get-delete now token other s.redis

  -- With lawful libraries and the algorithm HS256: after a log-out with a refresh token that has
  -- not expired, this token is refused, whatever Redis held for it; another refresh token of the
  -- same time is answered as it would have been.
  pub refresh-logout :
      (t t1 t' : Clock) (id other : ℕ) (s : Server)
      → t'.now ≤ t.local_now + c.refresh_token_expire_days * 86400
      → create_refresh_token c x t (some (str id)) ≢ create_refresh_token c x t (some (str other))
      → let token = create_refresh_token c x t (some (str id)) in
        let token2 = create_refresh_token c x t (some (str other)) in
        let s1 = (logout_user c x t1 token s).1 in
        (refresh_access_token c x t' token s1 ≡ (err (http 401 "Mismatch Refresh Token"), s1))
        × ((refresh_access_token c x t' token2 s1).0 ≡ (refresh_access_token c x t' token2 s).0)
  refresh-logout t t1 t' id other s in_time differ = (
    refresh-forgotten t t' id _ in_time (
        logged_out t1 (create_refresh_token c x t (some (str id))) _ t'.now s
        ∙ rw (==_refl (create_refresh_token c x t (some (str id))))),
    refresh-same t' (create_refresh_token c x t (some (str other))) s _ (
        logged_out t1 (create_refresh_token c x t (some (str id))) _ t'.now s
        ∙ rw (
            ==_ne (create_refresh_token c x t (some (str id)))
              (create_refresh_token c x t (some (str other))) differ)),
  )

  -- A wrong password and an unknown address get the same answer, and nothing changes.
  pub login_user-refused :
      (t : Clock) (email password : String) (s : Server)
      → known_password c x t password (find_by_email email s.db.users) ≡ false
      → login_user c x t email password s ≡ (err (http 400 "Invalid Credential"), s)
  unfolding login_user get_user_by_email
  login_user-refused t email password s h = ground (arith)

  pub register_ok :
      (t : Clock) (r : RegisterRequest) (s : Server)
      → find_by_email r.email s.db.users ≡ none
      → let u = new_user x t r s.db.next_user in
        register_user c x t r s ≡ (
          ok (
            create_access_token c x t (some (str u.id)),
            create_refresh_token c x t (some (str u.id)),
            u,
          ),
          (create_user x t r s).1,
        )
  unfolding register_user get_user_by_email
  register_ok t r s h = rw (h, create_user-fresh x t r s h)

  -- With lawful libraries, the algorithm HS256, a consistent table and an address that is new: a
  -- registered user is signed in by the access token of the answer, until it expires; but the
  -- refresh token of the answer is refused while it has not expired, unless Redis held it
  -- before.
  pub register_user-signs_in :
      (t t' : Clock) (r : RegisterRequest) (s : Server)
      → IsConsistent s.db
      → find_by_email r.email s.db.users ≡ none
      → t'.now ≤ t.local_now + c.access_token_expire_minutes * 60
      → t'.now ≤ t.local_now + c.refresh_token_expire_days * 86400
      → Redis.get t'.now (create_refresh_token c x t (some (str s.db.next_user))) s.redis ≡ none
      → let u = new_user x t r s.db.next_user in
        let access_token = create_access_token c x t (some (str s.db.next_user)) in
        let refresh_token = create_refresh_token c x t (some (str s.db.next_user)) in
        let (answer, s1) = register_user c x t r s in
        (answer ≡ ok (access_token, refresh_token, u))
        × (get_current_user c x t' access_token s1 ≡ (ok u, s1))
        × (refresh_access_token c x t' refresh_token s1
            ≡ (err (http 401 "Mismatch Refresh Token"), s1))
  unfolding new_user
  register_user-signs_in t t' r s ok_db h in_time in_time2 free =
      rw (register_ok t r s h, create_user-fresh x t r s h)
        (
          unfold new_user in refl,
          get_current_user-create_access_token t t' (new_user x t r s.db.next_user) _ in_time (
              find_by_id-append s.db.next_user s.db.users (new_user x t r s.db.next_user)
                ok_db.below (unfold new_user in refl)),
          refresh-forgotten t t' s.db.next_user _ in_time2 free,
        )
