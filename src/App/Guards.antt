-- ===== src/App/Guards.antt =====
-- Routes that ask for the current user.
use nalang_project.Prelude.{◌≡◌, refl, subst, ◌⊎◌, inl, inr, String, Option, none, some, [], ◌∷◌}
use nalang_project.Models.{User}
use nalang_project.Raise.{Error, Exec, err, ◌>>=◌}
use nalang_project.Auth.World.{Settings, Libraries, Claims, Clock, Server}
use nalang_project.Auth.CurrentUser.{
  IsBearer, IsRead, decoded_query, get_current_user-IsRead, get_current_user_ws-IsRead,
}
use nalang_project.Auth.Login.{get_current_user, get_current_user_ws}
use nalang_project.Routes
use nalang_project.Routes.Table
use nalang_project.Routes.Table.{Handler}
use nalang_project.App.{accepted, Services, Input, handle, HttpRequest, answered, respond}

-- What a request shows for its user: a bearer token, or for a web socket the token of its query.
pub data Credential : Type 0 where
  bearer : String → Credential
  query : Option String → Credential

abbrev pub credential : (h : Handler) → Input h → Option Credential
credential Table.get_me i = some (bearer i.token)
credential Table.save_profile i = some (bearer i.token)
credential Table.upload_profile_image i = some (bearer i.token)
credential Table.get_call_token i = some (bearer i.token)
credential Table.register_for_call_waiting i = some (bearer i.token)
credential Table.history_list i = some (bearer i.token)
credential Table.websocket_waiting i = some (query i.0)
credential Table.call_websocket i = some (query i.0)
credential _ i = none

abbrev pub decoded : Settings → Libraries → Clock → Credential → Option Claims
decoded c x t (bearer token) = x.decode t.now token c.jwt_secret_key ("HS256" ∷ [])
decoded c x t (query token) = decoded_query c x t token

module _ (c : Settings) (x : Libraries) (v : Services) (t : Clock) where
  -- The handler works for the user of the claims, or raises and changes nothing.
  abbrev Guarded : {A : Type 0} → Option Claims → Exec Server A → Server → Type 0
  Guarded claims m s = ((u : User) × IsBearer claims s u) ⊎ ((e : Error) × (m s ≡ (err e, s)))

  Guarded-bind :
      {A : Type 0} (claims : Option Claims) (m : Exec Server User) (f : User → Exec Server A)
      (s : Server)
      → IsRead claims m s
      → Guarded claims (m >>= f) s
  Guarded-bind claims m f s (inl (e, q)) = inr (e, rw q refl)
  Guarded-bind claims m f s (inr (u, _, b)) = inl (u, b)

  Guarded-bearer :
      {A : Type 0} (token : String) (f : User → Exec Server A) (s : Server)
      → Guarded (decoded c x t (bearer token)) (get_current_user c x t token >>= f) s
  Guarded-bearer token f s =
      Guarded-bind (decoded c x t (bearer token)) (get_current_user c x t token) f s
        (get_current_user-IsRead c x t token s)

  Guarded-query :
      {A : Type 0} (token : Option String) (f : User → Exec Server A) (s : Server)
      → Guarded (decoded c x t (query token)) (get_current_user_ws c x t token >>= f) s
  Guarded-query token f s =
      Guarded-bind (decoded c x t (query token)) (get_current_user_ws c x t token) f s
        (get_current_user_ws-IsRead c x t token s)

  abbrev GuardedBy : {A : Type 0} → Option Credential → Exec Server A → Server → Type 0
  GuardedBy none m s = Unit
  GuardedBy (some shown) m s = Guarded (decoded c x t shown) m s

  handle-GuardedBy :
      (h : Handler) (i : Input h) (s : Server) → GuardedBy (credential h i) (handle c x v t h i) s
  unfolding handle Routes.get_me Routes.save_profile Routes.save_profile_image Routes.get_call_token
      Routes.register_for_call_waiting Routes.history_list
  handle-GuardedBy Table.get_me i s = Guarded-bearer i.token _ s
  handle-GuardedBy Table.save_profile i s = Guarded-bearer i.token _ s
  handle-GuardedBy Table.upload_profile_image i s = Guarded-bearer i.token _ s
  handle-GuardedBy Table.get_call_token i s = Guarded-bearer i.token _ s
  handle-GuardedBy Table.register_for_call_waiting i s = Guarded-bearer i.token _ s
  handle-GuardedBy Table.history_list i s = Guarded-bearer i.token _ s
  handle-GuardedBy Table.websocket_waiting i s = Guarded-query i.0 _ s
  handle-GuardedBy Table.call_websocket i s = Guarded-query i.0 _ s
  handle-GuardedBy _ i s = tt

  -- A request that reaches a route for users: what it shows was decoded and names a user whose row is
  -- there, or the answer is an error and nothing has changed.
  pub respond-IsBearer :
      (r : HttpRequest) (s : Server) (h : Handler) (i : Input h) (shown : Credential)
      → v.route r.method r.path ≡ Table.reached h
      → accepted x h (r.read h) ≡ some i
      → credential h i ≡ some shown
      → ((u : User) × IsBearer (decoded c x t shown) s u)
        ⊎ ((e : Error) × (respond c x v t r s ≡ (answered h (err e), s)))
  unfolding respond
  respond-IsBearer r s h i shown reached read e =
      let guarded : Guarded (decoded c x t shown) (handle c x v t h i) s =
        subst (λ o. GuardedBy o (handle c x v t h i) s) e (handle-GuardedBy h i s) in
      elim guarded [ inl b ↦ inl b | inr (error, q) ↦ inr (error, rw (reached, read, q) refl) ]
