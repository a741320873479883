-- ===== src/App/Kept.antt =====
-- What every change of the database keeps is kept by the functions behind the routes.
pub mod Providers
pub mod Changes
pub mod Waiting
pub mod Bodies
pub mod Handlers
use nalang_project.Prelude.{
  negsuc, ◌≤ℤ◌, ℤ, leb_ℤ, ℕ, ◌+◌, ◌≡◌, refl, ◌∙◌, sym, ap, String, Bool, true, false, ◌&&◌, ◌||◌,
  Option, none, some, List, [], ◌∷◌, ◌++◌, pos, ℤ, subst, Bool-cases, Option-cases, inl, inr, arith,
  beq_ℤ, eq_of_parts, nat_beq_iff, leb_ℤ,
}
use nalang_project.Text.{int}
use nalang_project.Models.{User, CallHistory, Db}
use nalang_project.Raise.{
  Exec, Result, ok, err, http, value_error, from_option, lift, gets, continue, ◌>>=◌, ◌>>◌,
}
use nalang_project.Raise.Keeps.{Keeps, Keeps-continue, Keeps-bind, Keeps-then, Keeps-if}
use nalang_project.Auth.World.{Settings, Libraries, Claims, Clock, Server}
use nalang_project.Auth.Accounts.{
  is_some, RegisterRequest, find_by_email, find_by_id, new_user, create_user, get_user_by_email,
}
use nalang_project.Auth.AccountLaws.{create_user-fresh, create_user-taken}
use nalang_project.Auth.Validation.{IsValid}
use nalang_project.Auth.CurrentUser.{IsRead, find_by_id-IsBearer}
use nalang_project.Redis
use nalang_project.Redis.{Redis}
use nalang_project.Waiting.State.{Value}
use nalang_project.Auth.Login.{
  sign_in, store_token, login_user, register_user, refresh_access_token, same_user,
}
use nalang_project.Call.History.{
  CallHistoryCreate, has_user, has_users, fits_columns, create_call_history,
  create_call_history_with_check, update_audio_url, new_history,
}
use nalang_project.App.Stable.{HasLinks, IsStable}

duration_in_range :
    (n : ℤ)
    → leb_ℤ n (pos 0) ≡ false
    → leb_ℤ n (pos 2147483647) ≡ true
    → (pos 1 ≤ℤ n) × (n ≤ℤ pos 2147483647)
duration_in_range (pos n) e f = (ground arith, ground arith)
duration_in_range (negsuc n) e f = (ground arith, ground arith)

pub find_by_email-has_user :
    (email : String) (us : List User) (u : User)
    → find_by_email email us ≡ some u
    → is_some (find_by_id (pos u.id) us) ≡ true
unfolding find_by_email find_by_id
find_by_email-has_user email [] u h = cc
find_by_email-has_user email (v ∷ vs) u h = ground (arith, find_by_email-has_user email vs u)

module _ {x : Libraries} {P : Db → Redis Value → Type 0} (k : IsStable x P) where
  abbrev pub OnServer : Server → Type 0
  OnServer s = P s.db s.redis

  pub Keeps-create_user :
      (t : Clock) (r : RegisterRequest) → IsValid x r → Keeps OnServer (create_user x t r)
  Keeps-create_user t r v s h = elim (Option-cases (find_by_email r.email s.db.users)) [
    | inl e ↦ rw (create_user-fresh x t r s e) (
        k.insert_user (new_user x t r s.db.next_user) s.db s.redis (unfold new_user in e)
          (unfold new_user in refl) (unfold new_user in (v.address, v.name_long, v.name_short))
          (unfold new_user in (refl, refl, refl, refl, refl)) h)
    | inr (u, e) ↦ rw (create_user-taken x t r s e) (k.count_user s.db s.redis h)
  ]

  pub Keeps-create_call_history_with_check :
      (t : Clock) (r : CallHistoryCreate) → Keeps OnServer (create_call_history_with_check t r)
  unfolding create_call_history_with_check create_call_history
  Keeps-create_call_history_with_check t r s h = elim (Bool-cases (leb_ℤ r.duration_sec (pos 0))) [
    | inl e ↦ rw e h
    | inr e ↦ elim (Bool-cases (fits_columns r)) [
      | inr f ↦ rw (e, f) h
      | inl f ↦ elim (Bool-cases (has_users r s.db)) [
        | inr b ↦ rw (e, f, b) (k.count_history s.db s.redis h)
        | inl b ↦
            rw (e, f, b)
              (k.insert_history (new_history t r s.db.next_history) s.db s.redis
                (unfold new_history in refl) (unfold new_history in ground arith)
                (unfold new_history in ground arith)
                (unfold new_history in duration_in_range r.duration_sec e (ground arith)) h)
      ]
    ]
  ]

  -- What follows may use that the user of a token is a row.
  pub Keeps-read :
      {A : Type 0} (m : Exec Server User) (f : User → Exec Server A) (decoded : Option Claims)
      → ((s : Server) → IsRead decoded m s)
      → ((u : User) (s : Server)
          → find_by_id (pos u.id) s.db.users ≡ some u
          → OnServer s
          → OnServer (f u s).1)
      → Keeps OnServer (m >>= f)
  Keeps-read m f decoded read kf s h = elim (read s) [
    | inl (e, q) ↦ rw q h
    | inr (u, q, bearer) ↦ rw q (kf u s (find_by_id-IsBearer decoded s u bearer) h)
  ]

  -- Who signs in is a user.
  pub sign_in-keeps :
      (c : Settings) (t : Clock) (u : User) (s : Server)
      → has_user u.id s.db ≡ true
      → OnServer s
      → OnServer (sign_in c x t u s).1
  unfolding sign_in store_token
  sign_in-keeps c t u s known h = k.store_token t.now u.id _ s.db s.redis known h

  pub Keeps-login_user :
      (c : Settings) (t : Clock) (email password : String)
      → Keeps OnServer (login_user c x t email password)
  unfolding login_user get_user_by_email
  Keeps-login_user c t email password s h = elim (Option-cases (find_by_email email s.db.users)) [
    | inl e ↦ rw e h
    | inr (u, e) ↦ rw e (elim (Bool-cases (x.verify password u.hashed_password)) [
      | inl b ↦ rw b (sign_in-keeps c t u s (find_by_email-has_user email s.db.users u e) h)
      | inr b ↦ rw b h
    ])
  ]

  pub Keeps-register_user :
      (c : Settings) (t : Clock) (r : RegisterRequest)
      → IsValid x r
      → Keeps OnServer (register_user c x t r)
  unfolding register_user get_user_by_email
  Keeps-register_user c t r v s h = elim (Option-cases (find_by_email r.email s.db.users)) [
    | inl e ↦
        rw e (Keeps-bind OnServer (create_user x t r) _ (Keeps-create_user t r v) (λ u s h. h) s h)
    | inr (u, e) ↦ rw e h
  ]

  pub Keeps-refresh_access_token :
      (c : Settings) (t : Clock) (token : String)
      → Keeps OnServer (refresh_access_token c x t token)
  unfolding refresh_access_token
  Keeps-refresh_access_token c t token s h =
      elim (Option-cases (x.decode t.now token c.jwt_refresh_secret_key ("HS256" ∷ []))) [
        | inl e ↦ rw e h
        | inr (claims, e) ↦
            rw e (elim (Bool-cases (same_user c x t (Redis.get t.now token s.redis) claims.sub)) [
              | inl e ↦ rw e h
              | inr e ↦ rw e h
            ])
      ]
