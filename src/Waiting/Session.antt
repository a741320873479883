-- ===== src/Waiting/Session.antt =====
-- `websocket_waiting` of server/app/domains/call/routes_ws.py: the calls of one connection, and the
-- sequences of calls that the connections of all users make.
use nalang_project.Prelude.{ℕ, Bool, true, false, List, [], ◌∷◌, if◌then◌else◌}
use nalang_project.Json.{Json}
use nalang_project.Raise.{Result, ok, err, Error, send_error}
use nalang_project.Models.{User}
use nalang_project.Waiting.Filter.{Filters}
use nalang_project.Waiting.State.{Socket, Lobby, World}
use nalang_project.Waiting.Connect.{handle_connect}
use nalang_project.Waiting.Receive.{handle_receive_event}
use nalang_project.Waiting.Disconnect.{handle_disconnect}

-- The end of a connection: the `except WebSocketDisconnect` clause, if that was raised, and then the
-- `finally` clause.
unfoldable pub close : World → ℕ → Bool → Lobby → Lobby
close w user_id disconnected l =
    handle_disconnect w user_id (if disconnected then handle_disconnect w user_id l else l)

-- `send_json` on a closed socket raises WebSocketDisconnect; other errors only pass `finally`.
abbrev pub is_disconnect : Error → Bool
is_disconnect send_error = true
is_disconnect _ = false

-- A call that raises ends the connection of its user.
abbrev pub or_close {ℓ} : {A : Type ℓ} → World → ℕ → Result A × Lobby → Lobby
or_close w user_id (ok _, l) = l
or_close w user_id (err e, l) = close w user_id (is_disconnect e) l

pub data Event : Type 0 where
  connects : Socket → User → Filters → Event
  receives : ℕ → Json → Event
  -- the connection ends, by an exception or not
  leaves : ℕ → Bool → Event

unfoldable pub step : World → Event → Lobby → Lobby
step w (connects sock user filters) l = or_close w user.id (handle_connect w sock user filters l)
step w (receives user_id msg) l = or_close w user_id (handle_receive_event w user_id msg l)
step w (leaves user_id disconnected) l = close w user_id disconnected l

unfoldable pub run : List (World × Event) → Lobby → Lobby
run [] l = l
run ((w, e) ∷ es) l = run es (step w e l)
