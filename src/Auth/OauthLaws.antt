-- ===== src/Auth/OauthLaws.antt =====
-- Laws of the callbacks of the providers.
use nalang_project.Prelude.{◌≡◌, refl, String, Option, none, some, string_eq}
use nalang_project.Text.{str}
use nalang_project.Json.{Json}
use nalang_project.Raise.{ok}
use nalang_project.Models.{User}
use nalang_project.Auth.World.{Settings, Libraries, Clock, Server}
use nalang_project.Auth.Accounts.{
  RegisterRequest, find_by_email, new_user, create_user, get_user_by_email,
}
use nalang_project.Auth.Login.{create_access_token, create_refresh_token, store_token, sign_in}
use nalang_project.Auth.Oauth.{
  Client, to_request, redirect, sign_in_by, enter_by, naver_profile, handle_naver_callback,
}
use nalang_project.Auth.AccountLaws.{create_user-fresh, find_by_email-append}

module _ (c : Settings) (x : Libraries) where
  -- The tokens that a callback hands over at a time.
  abbrev pub tokens_of : Clock → User → String × String
  tokens_of t u =
      (create_access_token c x t (some (str u.id)), create_refresh_token c x t (some (str u.id)))

  abbrev pub signed_in : Clock → User → Server → Server
  signed_in t u s = store_token c x t (create_refresh_token c x t (some (str u.id))) u.id s

  sign_in_by_lem :
      (t : Clock) (u : User) (s : Server)
      → sign_in_by c x t u s ≡ (ok (redirect c x (tokens_of t u)), signed_in t u s)
  unfolding sign_in_by sign_in
  sign_in_by_lem t u s = refl

  enter_by-known :
      (t : Clock) (provider email : String) (name image : Json) (u : User) (s : Server)
      → find_by_email email s.db.users ≡ some u
      → enter_by c x t provider (record { email = Json.str email; name = name; image = image }) s
        ≡ (ok (redirect c x (tokens_of t u)), signed_in t u s)
  unfolding enter_by get_user_by_email
  enter_by-known t provider email name image u s h = rw h (sign_in_by_lem t u s)

  enter_by-new :
      (t : Clock) (provider email : String) (name image : Json) (r : RegisterRequest) (s : Server)
      → to_request x provider (record { email = Json.str email; name = name; image = image }) ≡ ok r
      → r.email ≡ email
      → find_by_email email s.db.users ≡ none
      → enter_by c x t provider (record { email = Json.str email; name = name; image = image }) s
        ≡ (
          ok (redirect c x (tokens_of t (new_user x t r s.db.next_user))),
          signed_in t (new_user x t r s.db.next_user) (create_user x t r s).1,
        )
  unfolding enter_by get_user_by_email
  enter_by-new t provider email name image r s q e h =
      rw (h, q, create_user-fresh x t r s (rw e h))
        (sign_in_by_lem t (new_user x t r s.db.next_user) _)

  made_account :
      (t : Clock) (email : String) (r : RegisterRequest) (s : Server)
      → r.email ≡ email
      → find_by_email email s.db.users ≡ none
      → find_by_email email
          (signed_in t (new_user x t r s.db.next_user) (create_user x t r s).1).db.users
        ≡ some (new_user x t r s.db.next_user)
  unfolding store_token
  made_account t email r s e h = rw (create_user-fresh x t r s (rw e h)) (
      find_by_email-append email s.db.users (new_user x t r s.db.next_user) h
        (unfold new_user in e))

  -- Two log-ins by Naver, one after the other, for which the provider reports the same user,
  -- with an address that is in its normal form and has no account yet, and a name that a
  -- registration accepts: the first makes an account with that address, the second signs in to
  -- the same account and changes no row, and each hands over tokens for it.
  pub handle_naver_callback-account :
      (client : Client) (t t' : Clock) (code code' : Option String) (email : String)
      (name image : Json) (r : RegisterRequest) (s : Server)
      → naver_profile c x client code
        ≡ ok (record { email = Json.str email; name = name; image = image })
      → naver_profile c x client code'
        ≡ ok (record { email = Json.str email; name = name; image = image })
      → to_request x "naver" (record { email = Json.str email; name = name; image = image }) ≡ ok r
      → r.email ≡ email
      → find_by_email email s.db.users ≡ none
      → let u = new_user x t r s.db.next_user in
        let (answer1, s1) = handle_naver_callback c x client t code s in
        let (answer2, s2) = handle_naver_callback c x client t' code' s1 in
        (answer1 ≡ ok (redirect c x (tokens_of t u)))
        × (find_by_email email s1.db.users ≡ some u)
        × (answer2 ≡ ok (redirect c x (tokens_of t' u)))
        × (s2.db ≡ s1.db)
  unfolding handle_naver_callback
  handle_naver_callback-account client t t' code code' email name image r s p p' q e h =
      let u : User = new_user x t r s.db.next_user in
      let s1 : Server = signed_in t u (create_user x t r s).1 in
      let made : find_by_email email s1.db.users ≡ some u = made_account t email r s e h in
      rw
        (
          p,
          p',
          enter_by-new t "naver" email name image r s q e h,
          enter_by-known t' "naver" email name image u s1 made,
        )
        (refl, made, refl, unfold store_token in refl)
