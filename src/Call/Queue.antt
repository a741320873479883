-- ===== src/Call/Queue.antt =====
-- The queue of callers in Redis: `register_for_call_queue` of
-- server/app/domains/call/services/livekit_service.py, and `call_websocket` of
-- server/app/domains/call/routes_ws.py.
use nalang_project.Prelude.{ℕ, String, List, [], ◌∷◌, if◌then◌else◌, ◌==◌, string_eq}
use nalang_project.Text.{◌+s◌, str}
use nalang_project.Redis
use nalang_project.Redis.{Redis}
use nalang_project.Waiting.State.{Value, text}

-- f"call:waiting:{user_id}"
unfoldable pub waiting_key : ℕ → String
waiting_key user_id = "call:waiting:" +s str user_id

unfoldable pub start_waiting : ℕ → ℕ → Redis Value → Redis Value
start_waiting now user_id r = Redis.set now (waiting_key user_id) (text "waiting") 600 r

unfoldable pub register_for_call_queue : ℕ → ℕ → Redis Value → String × Redis Value
unfolding start_waiting
register_for_call_queue now user_id r =
    if Redis.exists now (waiting_key user_id) r
    then ("already_waiting", r)
    else ("waiting", start_waiting now user_id r)

abbrev pub reply : String → String
reply message = if message == "cancel" then "Cancel complete" else "수신:" +s message

-- The loop over the texts that the socket receives, until it is disconnected.
unfoldable pub call_loop : ℕ → List String → Redis Value → List String × Redis Value
call_loop user_id [] r = ([], Redis.delete (waiting_key user_id) r)
call_loop user_id (message ∷ rest) r =
    let (replies, last) =
      call_loop user_id rest
        (if message == "cancel" then Redis.delete (waiting_key user_id) r else r) in
    (reply message ∷ replies, last)

unfoldable pub call_websocket : ℕ → ℕ → List String → Redis Value → List String × Redis Value
unfolding start_waiting call_loop
call_websocket now user_id messages r = call_loop user_id messages (start_waiting now user_id r)
