-- ===== src/Waiting/RouteLaws.antt =====
-- How a connection to `/ws/waiting` ends.
use nalang_project.Prelude.{ℕ, ◌≡◌, refl, ◌⊎◌, inl, inr, String, Option, List, [], ◌∷◌}
use nalang_project.Json.{Json}
use nalang_project.Raise.{Error, Result, ok, err, lift}
use nalang_project.Raise.Keeps.{Keeps, Keeps-bind, Keeps-then}
use nalang_project.Models.{User}
use nalang_project.Auth.World.{Settings, Libraries, Clock, Server}
use nalang_project.Auth.CurrentUser.{IsBearer, decoded_query, get_current_user_ws-IsRead}
use nalang_project.Waiting.State.{Lobby, World}
use nalang_project.Waiting.Connect.{handle_connect}
use nalang_project.Waiting.Receive.{handle_receive_event}
use nalang_project.Waiting.Closing.{IsGone, handle_disconnect-IsGone, close_lem}
use nalang_project.Waiting.Invariant.{IsWell, handle_connect-IsWell}
use nalang_project.Waiting.Preserved.{handle_receive_event-IsWell, close-IsWell}
use nalang_project.Waiting.Route.{receive_all, finish, Connection, serve, websocket_waiting}

finish-IsGone :
    (w : World) (u : ℕ) (r : Result (Unit {0})) (l : Lobby) → IsGone u (finish w u (r, l)).1
finish-IsGone w u (ok _) l = rw (close_lem w u _ l) (handle_disconnect-IsGone w u l)
finish-IsGone w u (err e) l = rw (close_lem w u _ l) (handle_disconnect-IsGone w u l)

finish-IsWell :
    (w : World) (u : ℕ) (r : Result (Unit {0})) (l : Lobby)
    → IsWell l
    → IsWell (finish w u (r, l)).1
finish-IsWell w u (ok _) l h = close-IsWell w u _ l h
finish-IsWell w u (err e) l h = close-IsWell w u _ l h

receive_all-IsWell :
    (u : ℕ) (texts : List (World × Result Json)) → Keeps IsWell (receive_all u texts)
unfolding receive_all
receive_all-IsWell u [] l h = h
receive_all-IsWell u ((w, text) ∷ rest) l h =
    let later = receive_all-IsWell u rest in
    Keeps-bind IsWell (lift text) _ (λ l h. h)
      (λ msg.
        Keeps-then IsWell (handle_receive_event w u msg) (receive_all u rest)
          (handle_receive_event-IsWell w u msg) later)
      l h

serve-IsWell : (n : Connection) (user : User) → Keeps IsWell (serve n user)
unfolding serve
serve-IsWell n user l h = finish-IsWell n.closed user.id _ _ (
    Keeps-then IsWell (handle_connect n.opened n.socket user n.filters)
      (receive_all user.id n.texts) (handle_connect-IsWell n.opened n.socket user n.filters)
      (receive_all-IsWell user.id n.texts) l h)

serve-IsGone : (n : Connection) (user : User) (l : Lobby) → IsGone user.id (serve n user l).1
unfolding serve
serve-IsGone n user l = finish-IsGone n.closed user.id _ _

-- A connection to a lobby that keeps its invariant, with whatever texts and however it ends, by the
-- client or by an exception, keeps it, if no handler of another connection runs in between, so that
-- the loop over the rooms finds them unchanged. Then either it is refused and changes nothing, or its token was
-- decoded and names a user whose row is there, and at the end this user waits no more, is in no room
-- and has not entered.
pub websocket_waiting-IsGone :
    (c : Settings) (x : Libraries) (t : Clock) (query : Option String) (n : Connection) (s : Server)
    (l : Lobby)
    → IsWell l
    → let (answer, l') = websocket_waiting c x t query n s l in
      IsWell l'
      × (((e : Error) × (answer ≡ err e) × (l' ≡ l))
          ⊎ ((u : User) × IsBearer (decoded_query c x t query) s u × IsGone u.id l'))
unfolding websocket_waiting
websocket_waiting-IsGone c x t query n s l h = elim (get_current_user_ws-IsRead c x t query s) [
  | inl (e, q) ↦ rw q (h, inl (e, refl, refl))
  | inr (u, q, b) ↦ rw q (serve-IsWell n u l h, inr (u, b, serve-IsGone n u l))
]
