-- ===== src/Waiting/Alone.antt =====
-- A handler whose coroutine is not interrupted: the steps of Waiting.Tasks lead to the end that the
-- whole handlers of Waiting.Connect, Waiting.Receive and Waiting.Disconnect have.
use nalang_project.Prelude.{ℕ, nat_eq, string_eq}
use nalang_project.Dict.{HasDistinctKeys}
use nalang_project.Json.{Json}
use nalang_project.Models.{User}
use nalang_project.Waiting.Filter.{Filters}
use nalang_project.Waiting.State.{Socket, Lobby, World}
use nalang_project.Waiting.Connect.{handle_connect}
use nalang_project.Waiting.Receive.{handle_receive_event}
use nalang_project.Waiting.Tasks.{storing, receiving, finished, leaving}
use nalang_project.Waiting.Reaching.{Reaches, ended, handle_connect-Reaches}
use nalang_project.Waiting.Answering.{handle_receive_event-Reaches}
use nalang_project.Waiting.Disconnect.{handle_disconnect}
use nalang_project.Waiting.Departed.{handle_disconnect-Reaches}

-- Not interrupted, a coroutine ends as the whole handler does, with the same error, or none, and with
-- the same lobby: one that connects a user as `handle_connect`, one that answers a message as
-- `handle_receive_event`, and, where every room's name stands once, one that disconnects a user as
-- `handle_disconnect`.
pub handlers-Reach :
    (w : World) (sock : Socket) (user : User) (f : Filters) (user_id : ℕ) (msg : Json) (l : Lobby)
    → HasDistinctKeys l.matching_candidates
    → Reaches w (ended (handle_connect w sock user f l)) (storing sock user f, l)
      × Reaches w (ended (handle_receive_event w user_id msg l)) (receiving user_id msg, l)
      × Reaches w (finished, handle_disconnect w user_id l) (leaving user_id, l)
handlers-Reach w sock user f user_id msg l h = (
  handle_connect-Reaches w sock user f l,
  handle_receive_event-Reaches w user_id msg l,
  handle_disconnect-Reaches w user_id l h,
)
