-- ===== src/Auth/CurrentUser.antt =====
-- The dependencies on the current user: get_current_user of server/app/domains/auth/deps.py and
-- get_current_user_ws of server/app/domains/call/services/ws_service.py.
use nalang_project.Prelude.{
  ◌≡◌, refl, sym, ◌⊎◌, inl, inr, String, Option, none, some, List, [], ◌∷◌, pos, ℤ, Bool-cases,
  Option-cases, beq_ℤ, eq_of_parts, nat_beq_iff, subst, ◌==◌, string_eq,
}
use nalang_project.Text.{int}
use nalang_project.Raise.{Error, Exec, ok, err, http, value_error, type_error}
use nalang_project.Models.{User}
use nalang_project.Auth.World.{Settings, Libraries, Claims, Clock, Server}
use nalang_project.Auth.Accounts.{find_by_id, get_user_by_id}
use nalang_project.Auth.Login.{get_current_user, get_current_user_ws}

pub some-injective : {A : Type 0} {a b : A} → some a ≡ some b → a ≡ b
some-injective h = cc

find_by_id-pos : (id : ℤ) (us : List User) (u : User) → find_by_id id us ≡ some u → pos u.id ≡ id
unfolding find_by_id
find_by_id-pos id [] u h = cc
find_by_id-pos id (v ∷ vs) u h = elim (Bool-cases (beq_ℤ (pos v.id) id)) [
  | inl e ↦
      let same : v ≡ u = some-injective (rw e at h) in
      subst (λ w. pos w.id ≡ id) same (eq_of_parts (pos v.id) id ((nat_beq_iff _ _).0 e))
  | inr e ↦ find_by_id-pos id vs u (rw e at h)
]

find_by_id-found :
    (id : ℤ) (us : List User) (u : User)
    → find_by_id id us ≡ some u
    → find_by_id (pos u.id) us ≡ some u
find_by_id-found id us u h =
    subst (λ i. find_by_id i us ≡ some u) (sym (find_by_id-pos id us u h)) h

-- The claims that were decoded name the number of the user, whose row is there.
abbrev pub IsBearer : Option Claims → Server → User → Type 0
IsBearer decoded s u =
    (claims : Claims) × (sub : String) × (id : ℤ) × (decoded ≡ some claims)
    × (claims.sub ≡ some sub)
    × (int sub ≡ some id)
    × (find_by_id id s.db.users ≡ some u)

-- Nothing is changed, and a user that comes back is the one of the claims.
abbrev pub IsRead : Option Claims → Exec Server User → Server → Type 0
IsRead decoded m s =
    ((e : Error) × (m s ≡ (err e, s))) ⊎ ((u : User) × (m s ≡ (ok u, s)) × IsBearer decoded s u)

pub find_by_id-IsBearer :
    (decoded : Option Claims) (s : Server) (u : User)
    → IsBearer decoded s u
    → find_by_id (pos u.id) s.db.users ≡ some u
find_by_id-IsBearer decoded s u (claims, sub, id, _, _, _, e) = find_by_id-found id s.db.users u e

module _ (c : Settings) (x : Libraries) (t : Clock) where
  pub get_current_user-IsRead :
      (token : String) (s : Server)
      → IsRead
          (x.decode t.now token c.jwt_secret_key ("HS256" ∷ []))
          (get_current_user c x t token)
          s
  unfolding get_current_user get_user_by_id
  get_current_user-IsRead token s =
      elim (Option-cases (x.decode t.now token c.jwt_secret_key ("HS256" ∷ []))) [
        | inl e ↦ inl (http 401 "Could not validate Credentials", rw e refl)
        | inr (claims, e) ↦ elim (Option-cases claims.sub) [
          | inl n ↦ inl (http 401 "Could not validate Credentials", rw (e, n) refl)
          | inr (sub, n) ↦ elim (Option-cases (int sub)) [
            | inl k ↦ inl (value_error, rw (e, n, k) refl)
            | inr (id, k) ↦ elim (Option-cases (find_by_id id s.db.users)) [
              | inl f ↦ inl (http 401 "Could not validate Credentials", rw (e, n, k, f) refl)
              | inr (u, f) ↦ inr (u, rw (e, n, k, f) refl, (claims, sub, id, e, n, k, f))
            ]
          ]
        ]
      ]

  -- What is decoded of the token in the query.
  abbrev pub decoded_query : Option String → Option Claims
  decoded_query none = none
  decoded_query (some token) = x.decode t.now token c.jwt_secret_key (c.algorithm ∷ [])

  pub get_current_user_ws-IsRead :
      (query : Option String) (s : Server)
      → IsRead (decoded_query query) (get_current_user_ws c x t query) s
  unfolding get_current_user_ws get_user_by_id
  get_current_user_ws-IsRead none s = inl (http 403 "Missing Token", refl)
  get_current_user_ws-IsRead (some token) s = elim (Bool-cases (token == "")) [
    | inl b ↦ inl (http 403 "Missing Token", rw b refl)
    | inr b ↦ elim (Option-cases (x.decode t.now token c.jwt_secret_key (c.algorithm ∷ []))) [
      | inl e ↦ inl (http 403 "Invalid Token", rw (b, e) refl)
      | inr (claims, e) ↦ elim (Option-cases claims.sub) [
        | inl n ↦ inl (type_error, rw (b, e, n) refl)
        | inr (sub, n) ↦ elim (Option-cases (int sub)) [
          | inl k ↦ inl (value_error, rw (b, e, n, k) refl)
          | inr (id, k) ↦ elim (Option-cases (find_by_id id s.db.users)) [
            | inl f ↦ inl (http 404 "User not Found", rw (b, e, n, k, f) refl)
            | inr (u, f) ↦ inr (u, rw (b, e, n, k, f) refl, (claims, sub, id, e, n, k, f))
          ]
        ]
      ]
    ]
  ]
