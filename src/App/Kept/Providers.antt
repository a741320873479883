-- ===== src/App/Kept/Providers.antt =====
-- What every change of the database keeps is kept by the log-ins by other providers.
use nalang_project.Prelude.{
  ap, sym, subst, pos, true, List, [], ◌∷◌, ◌++◌, arith, Option-cases, inl, inr, ◌≡◌, refl, ◌∙◌,
  String, Option, none, some,
}
use nalang_project.Json.{Json}
use nalang_project.Models.{User, Db}
use nalang_project.Raise.{continue, Exec, Result, ok, err, and_then, lift, ◌>>=◌}
use nalang_project.Raise.Keeps.{Keeps-continue, Keeps, Keeps-bind}
use nalang_project.Auth.World.{Settings, Libraries, Clock, Server}
use nalang_project.Redis.{Redis}
use nalang_project.Waiting.State.{Value}
use nalang_project.Call.History.{has_user}
use nalang_project.Auth.AccountLaws.{create_user-fresh, create_user-taken}
use nalang_project.Auth.Accounts.{
  is_some, find_by_email, find_by_id, new_user, RegisterRequest, get_user_by_email, create_user,
}
use nalang_project.Auth.Login.{sign_in}
use nalang_project.Auth.Validation.{ok-injective, IsValid, validate-IsValid}
use nalang_project.Auth.Oauth.{
  Client, Profile, to_request, by_address, or_register, as_text, as_optional, sign_in_by, enter_by,
  google_profile, line_profile, kakao_profile, naver_profile, handle_google_callback,
  handle_line_callback, handle_kakao_callback, handle_naver_callback,
}
use nalang_project.App.Stable.{IsStable}
use nalang_project.App.Kept.{OnServer, find_by_email-has_user, Keeps-create_user, sign_in-keeps}

and_then_ok :
    {A B : Type 0} (r : Result A) (f : A → Result B) (b : B)
    → and_then r f ≡ ok b
    → (a : A) × (r ≡ ok a) × (f a ≡ ok b)
and_then_ok (ok a) f b e = (a, refl, e)
and_then_ok (err _) f b e = cc

-- What the providers report is validated, too.
to_request-IsValid :
    (x : Libraries) (provider : String) (p : Profile) (q : RegisterRequest)
    → to_request x provider p ≡ ok q
    → IsValid x q
unfolding to_request
to_request-IsValid x provider p q e =
    let (email, _, e1) = and_then_ok (as_text p.email) _ q e in
    let (name, _, e2) = and_then_ok (as_text p.name) _ q e1 in
    let (image, _, e3) = and_then_ok (as_optional p.image) _ q e2 in validate-IsValid x _ q e3

find_by_id-last :
    (us : List User) (u : User) → is_some (find_by_id (pos u.id) (us ++ u ∷ [])) ≡ true
unfolding find_by_id
find_by_id-last [] u = ground arith
find_by_id-last (v ∷ vs) u = ground (arith, find_by_id-last vs u)

create_user-has_user :
    (x : Libraries) (t : Clock) (r : RegisterRequest) (s : Server) (u : User)
    → (create_user x t r s).0 ≡ ok u
    → has_user u.id (create_user x t r s).1.db ≡ true
create_user-has_user x t r s u e = elim (Option-cases (find_by_email r.email s.db.users)) [
  | inl h ↦
      let made : new_user x t r s.db.next_user ≡ u =
        ok-injective (ap (λ a. a.0) (sym (create_user-fresh x t r s h)) ∙ e) in
      rw (create_user-fresh x t r s h) (
        subst
          (λ w.
            is_some (find_by_id (pos w.id) (s.db.users ++ new_user x t r s.db.next_user ∷ []))
            ≡ true)
          made (find_by_id-last s.db.users (new_user x t r s.db.next_user)))
  | inr (w, h) ↦ cc (rw (create_user-taken x t r s h) at e)
]

-- The property is kept, and what is returned is so.
abbrev Leads :
    {A : Type 0} → (Server → Type 0) → (A → Server → Type 0) → Exec Server A → Server → Type 0
Leads {A} P Q m s = P (m s).1 × ((a : A) → (m s).0 ≡ ok a → Q a (m s).1)

continue-Leads :
    {A B : Type 0} (P : Server → Type 0) (r : Result A) (f : A → Exec Server B) (s : Server)
    → P s
    → ((a : A) → r ≡ ok a → P (f a s).1)
    → P (continue r f s).1
continue-Leads P (ok a) f s h k = k a refl
continue-Leads P (err e) f s h k = h

bind-Leads :
    {A B : Type 0} (P : Server → Type 0) (Q : A → Server → Type 0) (m : Exec Server A)
    (f : A → Exec Server B) (s : Server)
    → Leads P Q m s
    → ((a : A) (s' : Server) → P s' → Q a s' → P (f a s').1)
    → P ((m >>= f) s).1
bind-Leads P Q m f s (h, q) k = continue-Leads P (m s).0 f (m s).1 h (λ a e. k a (m s).1 h (q a e))

-- A user that was found has a row.
abbrev IsRow : Option User → Server → Type 0
IsRow found s = (u : User) → found ≡ some u → has_user u.id s.db ≡ true

abbrev HasRow : User → Server → Type 0
HasRow u s = has_user u.id s.db ≡ true

module _ {x : Libraries} {P : Db → Redis Value → Type 0} (k : IsStable x P) where
  by_address-Leads :
      (address : Json) (s : Server) → OnServer k s → Leads (OnServer k) IsRow (by_address address) s
  unfolding get_user_by_email
  by_address-Leads (Json.str email) s h =
      (h, λ found e u q. find_by_email-has_user email s.db.users u (ok-injective e ∙ q))
  by_address-Leads Json.null s h = (h, λ found e u q. cc)
  by_address-Leads _ s h = (h, λ found e. cc)

  or_register-Leads :
      (t : Clock) (found : Option User) (r : Result RegisterRequest) (s : Server)
      → ((q : RegisterRequest) → r ≡ ok q → IsValid x q)
      → IsRow found s
      → OnServer k s
      → Leads (OnServer k) HasRow (or_register x t found r) s
  or_register-Leads t (some u) r s v row h =
      (h, λ w e. subst (λ w. HasRow w s) (ok-injective e) (row u refl))
  or_register-Leads t none (ok q) s v row h =
      (Keeps-create_user k t q (v q refl) s h, create_user-has_user x t q s)
  or_register-Leads t none (err e) s v row h = (h, λ w q. cc)

  module _ (c : Settings) (t : Clock) where
    sign_in_by-keeps :
        (u : User) (s : Server) → OnServer k s → HasRow u s → OnServer k (sign_in_by c x t u s).1
    unfolding sign_in_by
    sign_in_by-keeps u s h row =
        Keeps-continue (OnServer k) (sign_in c x t u s).0 _ (λ tokens s h. h) _
          (sign_in-keeps k c t u s row h)

    Keeps-enter_by :
        (provider : String) (p : Profile) → Keeps (OnServer k) (enter_by c x t provider p)
    unfolding enter_by
    Keeps-enter_by provider p s h =
        bind-Leads (OnServer k) IsRow (by_address p.email) _ s (by_address-Leads p.email s h)
          λ found s1 h1 row.
            bind-Leads (OnServer k) HasRow (or_register x t found (to_request x provider p)) _ s1
              (or_register-Leads t found (to_request x provider p) s1
                (to_request-IsValid x provider p) row h1)
              sign_in_by-keeps

    Keeps-lift :
        {A B : Type 0} (r : Result A) (f : A → Exec Server B)
        → ((a : A) → Keeps (OnServer k) (f a))
        → Keeps (OnServer k) (lift r >>= f)
    Keeps-lift r f kf = Keeps-bind (OnServer k) (lift r) f (λ s h. h) kf

    module _ (client : Client) (query : Option String) where
      pub Keeps-handle_google_callback :
          Keeps (OnServer k) (handle_google_callback c x client t query)
      unfolding handle_google_callback
      Keeps-handle_google_callback = Keeps-lift _ _ λ code.
          Keeps-lift (google_profile c x client code) _ λ p s h.
            bind-Leads (OnServer k) IsRow (by_address p.email) _ s (by_address-Leads p.email s h)
              λ found s1 h1 row.
                continue-Leads (OnServer k) (to_request x "google" p) _ s1 h1 λ user_data made.
                  bind-Leads (OnServer k) HasRow (or_register x t found (ok user_data)) _ s1
                    (or_register-Leads t found (ok user_data) s1
                      (λ q e. to_request-IsValid x "google" p q (made ∙ e)) row h1)
                    sign_in_by-keeps

      pub Keeps-handle_line_callback : Keeps (OnServer k) (handle_line_callback c x client t query)
      unfolding handle_line_callback
      Keeps-handle_line_callback =
          Keeps-lift (line_profile c x client query) _ (Keeps-enter_by "line")

      pub Keeps-handle_kakao_callback :
          Keeps (OnServer k) (handle_kakao_callback c x client t query)
      unfolding handle_kakao_callback
      Keeps-handle_kakao_callback =
          Keeps-lift (kakao_profile c x client query) _ (Keeps-enter_by "kakao")

      pub Keeps-handle_naver_callback :
          Keeps (OnServer k) (handle_naver_callback c x client t query)
      unfolding handle_naver_callback
      Keeps-handle_naver_callback =
          Keeps-lift (naver_profile c x client query) _ (Keeps-enter_by "naver")
