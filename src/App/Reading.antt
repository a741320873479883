-- ===== src/App/Reading.antt =====
-- Requests by GET.
use nalang_project.Prelude.{
  ◌≡◌, refl, subst, String, Bool, true, false, not, ◌&&◌, ◌||◌, Option, List, [], ◌∷◌, arith,
  Bool-cases, Option-cases, inl, inr,
}
use nalang_project.Models.{User}
use nalang_project.Raise.{Exec, ◌>>=◌}
use nalang_project.Auth.World.{Settings, Libraries, Claims, Clock, Server}
use nalang_project.Auth.Login.{get_current_user}
use nalang_project.Auth.CurrentUser.{IsRead, get_current_user-IsRead}
use nalang_project.Routes
use nalang_project.Routes.Table
use nalang_project.Routes.Table.{
  Method, Handler, Route, Answer, get, same, app_routes, answers, touches, search_routes, resolve,
  IsRouter,
}
use nalang_project.App.{accepted, Services, Input, handle, HttpRequest, respond_to, respond}

abbrev every : (Route → Bool) → List Route → Bool
every p [] = true
every p (r ∷ rs) = p r && every p rs

answers-same :
    (m : Method) (path : List String) (r : Route) → answers m path r ≡ true → same m r.method ≡ true
unfolding answers
answers-same m path r h = ground arith

reached-injective : {g h : Handler} → Table.reached g ≡ Table.reached h → g ≡ h
reached-injective e = cc

-- A handler that is reached stands in the list, under the method.
search_routes-every :
    (q : Handler → Bool) (m : Method) (path : List String) (partial : Bool) (rs : List Route)
    (h : Handler)
    → every (λ r. not (same m r.method) || q r.handler) rs ≡ true
    → search_routes m path partial rs ≡ Table.reached h
    → q h ≡ true
unfolding search_routes
search_routes-every q m path true [] h a e = cc
search_routes-every q m path false [] h a e = cc
search_routes-every q m path partial (r ∷ rs) h a e = elim (Bool-cases (answers m path r)) [
  | inl b ↦
      let same_method : same m r.method ≡ true = answers-same m path r b in
      let here : q r.handler ≡ true = ground arith in
      let same_handler : r.handler ≡ h = reached-injective (rw b at e) in
      subst (λ g. q g ≡ true) same_handler here
  | inr b ↦
      search_routes-every q m path (touches m path r || partial) rs h (ground arith) (rw b at e)
]

-- The log-ins by other providers come back by GET; they make accounts and sessions.
abbrev pub is_callback : Handler → Bool
is_callback Table.google_callback = true
is_callback Table.line_callback = true
is_callback Table.kakao_callback = true
is_callback Table.naver_callback = true
is_callback _ = false

abbrev is_reading : Handler → Bool
is_reading Table.health_check = true
is_reading Table.api_health_check = true
is_reading Table.google_login = true
is_reading Table.line_login = true
is_reading Table.kakao_login = true
is_reading Table.naver_login = true
is_reading Table.get_me = true
is_reading Table.get_partner = true
is_reading Table.get_interests = true
is_reading Table.get_languages = true
is_reading Table.get_genders = true
is_reading Table.room_test = true
is_reading Table.history_list = true
is_reading _ = false

get_routes :
    every
      (λ r. not (same get r.method) || (is_callback r.handler || is_reading r.handler))
      app_routes
    ≡ true
get_routes = refl

abbrev pub calls_back : Answer → Bool
calls_back (Table.reached h) = is_callback h
calls_back _ = false

get-reads :
    (path : List String) (h : Handler)
    → resolve get path ≡ Table.reached h
    → (is_callback h || is_reading h) ≡ true
unfolding resolve
get-reads path h e =
    search_routes-every (λ g. is_callback g || is_reading g) get path false app_routes h get_routes
      e

module _ (c : Settings) (x : Libraries) (v : Services) (t : Clock) where
  -- What reads the user and then only reads changes nothing.
  bind-reads :
      {A : Type 0} (m : Exec Server User) (f : User → Exec Server A) (decoded : Option Claims)
      (s : Server)
      → IsRead decoded m s
      → ((u : User) → (f u s).1 ≡ s)
      → ((m >>= f) s).1 ≡ s
  bind-reads m f decoded s (inl (_, q)) reads = rw q refl
  bind-reads m f decoded s (inr (u, q, _)) reads = rw q (reads u)

  handle-reads :
      (h : Handler) (i : Input h) (s : Server) → is_reading h ≡ true → (handle c x v t h i s).1 ≡ s
  unfolding handle Routes.get_me Routes.get_interests Routes.get_languages Routes.get_genders
      Routes.history_list
  handle-reads Table.health_check i s e = refl
  handle-reads Table.api_health_check i s e = refl
  handle-reads Table.google_login i s e = refl
  handle-reads Table.line_login i s e = refl
  handle-reads Table.kakao_login i s e = refl
  handle-reads Table.naver_login i s e = refl
  handle-reads Table.get_me i s e =
      bind-reads (get_current_user c x t i.token) _ _ s (get_current_user-IsRead c x t i.token s)
        (λ u. refl)
  handle-reads Table.get_partner i s e = refl
  handle-reads Table.get_interests i s e = refl
  handle-reads Table.get_languages i s e = refl
  handle-reads Table.get_genders i s e = refl
  handle-reads Table.room_test i s e = refl
  handle-reads Table.history_list i s e =
      bind-reads (get_current_user c x t i.token) _ _ s (get_current_user-IsRead c x t i.token s)
        (λ u. refl)
  handle-reads _ i s e = cc

  respond_to-reads :
      (r : HttpRequest) (a : Answer) (s : Server)
      → ((h : Handler) → a ≡ Table.reached h → is_reading h ≡ true)
      → (respond_to c x v t r a s).1 ≡ s
  respond_to-reads r Table.not_found s reads = refl
  respond_to-reads r Table.method_not_allowed s reads = refl
  respond_to-reads r (Table.reached h) s reads = elim (Option-cases (accepted x h (r.read h))) [
    | inl e ↦ rw e refl
    | inr (i, e) ↦ rw e (handle-reads h i s (reads h refl))
  ]

  -- With a router that answers by the first route that fits, a request by GET changes nothing, whatever its path, unless a provider calls back with it.
  pub respond-get :
      (r : HttpRequest) (s : Server)
      → IsRouter v.route
      → r.method ≡ get
      → calls_back (v.route get r.path) ≡ false
      → (respond c x v t r s).1 ≡ s
  unfolding respond
  respond-get r s router m e = rw m (
      respond_to-reads r (v.route get r.path) s λ h reached.
        let found = get-reads r.path h ((router get r.path h).0 reached) in
        let quiet : is_callback h ≡ false = rw reached at e in ground arith)
