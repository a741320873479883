-- ===== src/App/Flow.antt =====
-- A user registers, logs in with the password and asks for the profile.
use nalang_project.Prelude.{
  ◌+◌, ◌*◌, ◌≤◌, ◌≡◌, refl, String, Option, true, some, none, [], ◌∷◌, ◌++◌, pos, arith, Bool-cases,
  inl, inr, subst, ==_iff, ◌==◌, string_eq,
}
use nalang_project.Text.{str}
use nalang_project.Raise.{ok}
use nalang_project.Models.{User}
use nalang_project.Auth.World.{Settings, Libraries, IsLawful, Clock, Server}
use nalang_project.Auth.Accounts.{
  RegisterRequest, count, hashed, find_by_email, find_by_id, new_user,
}
use nalang_project.Auth.AccountLaws.{
  IsConsistent, create_user-fresh, find_by_email-append, find_by_id-append,
}
use nalang_project.Auth.Login.{create_access_token, create_refresh_token, store_token}
use nalang_project.Auth.Sessions.{register_ok, login_ok, get_current_user-create_access_token}
use nalang_project.Profile.View.{get_partner, get_full_user_with_relations, get_user_profile}
use nalang_project.Routes
use nalang_project.Routes.Table
use nalang_project.Auth.Validation.{HasLength, IsValid}
use nalang_project.App.{Services, handle, accepted}
use nalang_project.App.Kept.Bodies.{accepted-IsAccepted}

not_long : ¬ (8 ≤ count "")
not_long h = omega arith

hashed-verified :
    (x : Libraries) (p : String) → IsLawful x → 8 ≤ count p → x.verify p (hashed x (some p)) ≡ true
hashed-verified x p law long = elim (Bool-cases (p == "")) [
  | inl e ↦ absurd (not_long (subst (λ q. 8 ≤ count q) ((==_iff p "").0 e) long))
  | inr e ↦ rw e (law.verify-hash p)
]

module _ (c : Settings) (x : Libraries) (v : Services) (law : IsLawful x)
    (alg : c.algorithm ≡ "HS256") where
  -- With lawful libraries, the algorithm HS256 and a consistent table: of a request with a password
  -- that the validation accepts as `r`, whose address, in the normal form that `r` has, is new, the
  -- registration is followed by a log-in with this form of the address and the password, and the access
  -- token of the log-in, until it expires, shows a profile with the name, this form of the address and
  -- the picture of the registration and nothing else.
  pub register-login-get_me :
      (t t' t'' : Clock) (raw r : RegisterRequest) (p : String) (header : Option String)
      (s : Server)
      → accepted x Table.register_user (some raw) ≡ some r
      → IsConsistent s.db
      → find_by_email r.email s.db.users ≡ none
      → r.password ≡ some p
      → t''.now ≤ t'.local_now + c.access_token_expire_minutes * 60
      → let access = create_access_token c x t' (some (str s.db.next_user)) in
        let (_, s1) = handle c x v t Table.register_user r s in
        let (tokens, s2) =
          handle c x v t' Table.login (record { username = r.email; password = p }) s1 in
        let (profile, s3) =
          handle c x v t'' Table.get_me (record { token = access; input = header }) s2 in
        (tokens
          ≡ ok (record {
            access_token = access;
            refresh_token = create_refresh_token c x t' (some (str s.db.next_user));
            token_type = "bearer";
          }))
        × (profile
            ≡ ok (record {
              id = s.db.next_user;
              name = r.name;
              email = r.email;
              interests = [];
              languages = [];
              gender = none;
              image_path = r.profile_image;
            }))
        × (s3 ≡ s2)
  unfolding handle Routes.register Routes.login Routes.get_me new_user
  register-login-get_me t t' t'' raw r p header s valid_r ok_db h e in_time =
      let valid : IsValid x r = accepted-IsAccepted x Table.register_user (some raw) r valid_r in
      let long : 8 ≤ count p = subst HasLength e valid.password in
      let u : User = new_user x t r s.db.next_user in
      let s1 : Server = record s {
        db = record s.db { next_user = s.db.next_user + 1; users = s.db.users ++ u ∷ [] };
      } in
      let s2 : Server =
        store_token c x t' (create_refresh_token c x t' (some (str u.id))) u.id s1 in
      let found : find_by_email r.email s1.db.users ≡ some u =
        find_by_email-append r.email s.db.users u h refl in
      let known : find_by_id (pos s.db.next_user) s1.db.users ≡ some u =
        find_by_id-append s.db.next_user s.db.users u ok_db.below refl in
      let verified : x.verify p u.hashed_password ≡ true = rw e (hashed-verified x p law long) in
      let me =
        get_current_user-create_access_token c x law alg t' t'' u s2 in_time
          (unfold store_token in known) in
      rw
        (
          register_ok c x law alg t r s h,
          create_user-fresh x t r s h,
          login_ok c x law alg t' r.email p u s1 found verified,
        )
        (
          refl,
          rw me (
              unfold store_token get_partner get_full_user_with_relations get_user_profile in
              rw known refl),
          rw me refl,
        )
