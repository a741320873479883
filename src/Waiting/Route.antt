-- ===== src/Waiting/Route.antt =====
-- The route `/ws/waiting` of server/app/domains/call/routes_ws.py as one function: the dependency on
-- the user, the calls of the handlers, and the clauses that clean up.
use nalang_project.Prelude.{ℕ, String, false, Option, List, [], ◌∷◌, if◌then◌else◌}
use nalang_project.Json.{Json}
use nalang_project.Raise.{Result, ok, err, Exec, pure, lift, ◌>>=◌, ◌>>◌}
use nalang_project.Models.{User}
use nalang_project.Auth.World.{Settings, Libraries, Clock, Server}
use nalang_project.Auth.Login.{get_current_user_ws}
use nalang_project.Waiting.Filter.{Filters}
use nalang_project.Waiting.State.{Socket, Lobby, World}
use nalang_project.Waiting.Connect.{handle_connect}
use nalang_project.Waiting.Receive.{handle_receive_event}
use nalang_project.Waiting.Session.{close, is_disconnect}

-- `async for msg in websocket.iter_json()`, until the client disconnects; a text that is no JSON
-- raises.
unfoldable pub receive_all : ℕ → List (World × Result Json) → Exec Lobby Unit
receive_all user_id [] = pure tt
receive_all user_id ((w, text) ∷ rest) = do
  msg ← lift text
  handle_receive_event w user_id msg
  receive_all user_id rest

-- `except WebSocketDisconnect` and `finally`
abbrev pub finish : World → ℕ → Result (Unit {0}) × Lobby → Result (Unit {0}) × Lobby
finish w user_id (ok _, l) = (ok tt, close w user_id false l)
finish w user_id (err e, l) =
    (if is_disconnect e then ok tt else err e, close w user_id (is_disconnect e) l)

-- What a client sends, and the world at the time of each call and at the end.
pub record Connection : Type 0 where
  pub socket : Socket
  pub filters : Filters
  pub opened : World
  pub texts : List (World × Result Json)
  pub closed : World

unfoldable pub serve : Connection → User → Exec Lobby Unit
unfolding receive_all
serve n user l =
    finish n.closed user.id
      ((handle_connect n.opened n.socket user n.filters >> receive_all user.id n.texts) l)

-- Without its user the web socket is refused before it is accepted.
abbrev pub serve_user : Connection → Result User → Lobby → Result (Unit {0}) × Lobby
serve_user n (err e) l = (err e, l)
serve_user n (ok user) l = serve n user l

-- The life of a connection with no handler of another one in between; Waiting.Turns has the handlers of
-- several connections in turns.
unfoldable pub websocket_waiting :
    Settings
    → Libraries
    → Clock
    → Option String
    → Connection
    → Server
    → Lobby
    → Result (Unit {0}) × Lobby
unfolding serve
websocket_waiting c x t query n s l = serve_user n (get_current_user_ws c x t query s).0 l
