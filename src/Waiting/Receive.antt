-- ===== src/Waiting/Receive.antt =====
-- `handle_receive_event` of server/app/domains/call/services/ws_service.py.
use nalang_project.Prelude.{
  ℕ, String, Option, none, some, List, [], ◌∷◌, ◌++◌, length, if◌then◌else◌, ◌==◌, nat_eq,
  string_eq, nat_beq,
}
use nalang_project.Dict.{lookup, insert, erase}
use nalang_project.Json
use nalang_project.Json.{Json, is_text}
use nalang_project.Raise.{Exec, type_error, pure, raise, lift, gets, modify, ◌>>=◌, ◌>>◌}
use nalang_project.Waiting.State.{
  Socket, MatchCandidate, Lobby, World, Message, matched, rejected, send,
}
use nalang_project.Waiting.Disconnect.{member}

-- `s.add(a)`
abbrev pub add : ℕ → List ℕ → List ℕ
add a xs = if member a xs then xs else xs ++ a ∷ []

unfoldable pub enter : ℕ → Lobby → Lobby
enter user_id l = record l { entered_users = add user_id l.entered_users }

unfoldable pub send_all : World → Message → List Socket → Exec Lobby Unit
send_all w m [] = pure tt
send_all w m (sock ∷ socks) = do send w sock m; send_all w m socks

unfoldable pub close_room : String → Lobby → Lobby
close_room room l = record l { matching_candidates = erase room l.matching_candidates }

unfoldable pub accept : World → ℕ → String → MatchCandidate → Exec Lobby Unit
unfolding send_all close_room
accept w user_id room c =
    let c' = record c { accepted = add user_id c.accepted } in
    do
      modify (λ l. record l { matching_candidates = insert room c' l.matching_candidates })
      if nat_beq (length c'.accepted) 2
          then (do send_all w (matched room) c.sockets; modify (close_room room))
          else pure tt

-- `for idx, uid in enumerate(user_ids)`, with the socket at the same place; a partner that can be
-- told is put back into the queue.
unfoldable pub requeue_partners : World → ℕ → List ℕ → List Socket → Lobby → Lobby
requeue_partners w user_id (uid ∷ uids) (sock ∷ socks) l = requeue_partners w user_id uids socks (
    if uid == user_id
    then l
    else if w.online sock
    then record l {
      sent = l.sent ++ (sock, rejected) ∷ [];
      waiting_users = insert uid sock l.waiting_users;
    }
    else l)
requeue_partners w user_id _ _ l = l

unfoldable pub reject : World → ℕ → String → MatchCandidate → Lobby → Lobby
unfolding requeue_partners close_room
reject w user_id room c l = close_room room (requeue_partners w user_id c.user_ids c.sockets l)

abbrev pub dispatch : World → ℕ → Json → String → Option MatchCandidate → Exec Lobby Unit
dispatch w user_id event room none = pure tt
dispatch w user_id event room (some c) =
    if is_text "entered" event
    then modify (enter user_id)
    else if is_text "accept" event
    then accept w user_id room c
    else if is_text "rejected" event
    then modify (reject w user_id room c)
    else pure tt

-- `room in matching_candidates`: a list or a dict cannot be hashed, other values are no key
abbrev pub in_room : World → ℕ → Json → Json → Exec Lobby Unit
in_room w user_id event (Json.str room) = do
  found ← gets (λ l. lookup room l.matching_candidates)
  dispatch w user_id event room found
in_room w user_id event (Json.arr _) = raise type_error
in_room w user_id event (Json.obj _) = raise type_error
in_room w user_id event _ = pure tt

unfoldable pub handle_receive_event : World → ℕ → Json → Exec Lobby Unit
unfolding enter accept reject
handle_receive_event w user_id msg = do
  event ← lift (Json.get "event" msg)
  room ← lift (Json.get "room" msg)
  in_room w user_id event room
