-- ===== src/Waiting/Tasks.antt =====
-- The handlers of server/app/domains/call/services/ws_service.py one `await` at a time: where a
-- coroutine stands, with its local variables, and what it does up to its next `await`. A
-- loop over a dictionary that another coroutine makes longer or shorter raises RuntimeError; a room
-- that it has come to is not visited again.
use nalang_project.Prelude.{
  ℕ, zero, suc, String, Bool, true, false, Option, none, some, List, [], ◌∷◌, ◌++◌, length, any,
  not, ◌&&◌, if◌then◌else◌, nat_beq, ◌==◌, nat_eq, string_eq,
}
use nalang_project.Dict.{Dict, lookup, insert, erase, contains}
use nalang_project.Redis
use nalang_project.Json
use nalang_project.Json.{Json, is_text}
use nalang_project.Raise.{Error, Result, ok, err, key_error, type_error, runtime_error}
use nalang_project.Models.{User}
use nalang_project.Waiting.Filter.{Filters}
use nalang_project.Waiting.State.{
  Socket, MatchCandidate, Value, match_proposal, matched, rejected, disconnected, Lobby, World,
  user_key, send, try_send, delete_profile,
}
use nalang_project.Waiting.Connect.{
  user_data_of, store_profile, suits, room_name, open_room, enqueue,
}
use nalang_project.Waiting.Receive.{add, enter, close_room}
use nalang_project.Waiting.Disconnect.{member, discard}

pub data Task : Type 0 where
  -- `handle_connect`: before and after `await redis_client.set(...)`
  storing : Socket → User → Filters → Task
  stored : Socket → User → Filters → Task
  -- before and after `await redis_client.get(other_key)`, with the rest of the loop's list
  asking : Socket → User → Filters → ℕ → Dict ℕ Socket → Task
  answered : Socket → User → Filters → ℕ → Dict ℕ Socket → Option Value → Task
  -- before the two proposals are sent, and before the two profiles are deleted
  telling : Socket → Socket → ℕ → ℕ → String → Task
  telling_partner : Socket → ℕ → ℕ → String → Task
  deleting : ℕ → ℕ → Task
  deleting_partner : ℕ → Task
  -- `handle_receive_event`: its start, the sockets still to be told of a match, and before and after
  -- a partner is told of a rejection, with what is left of the loop
  receiving : ℕ → Json → Task
  announcing : String → List Socket → Task
  turning_down : ℕ → String → ℕ → Socket → List ℕ → List Socket → Task
  turned_down : ℕ → String → ℕ → Socket → Bool → List ℕ → List Socket → Task
  -- `handle_disconnect`: its start, and before and after the user's profile is deleted
  leaving : ℕ → Task
  forgetting : ℕ → Task
  forgotten : ℕ → Task
  -- the loop over the rooms, with their number at its start, those it has come to and `to_remove`:
  -- the sockets of a room still to be told, and after its last `await`
  notifying : ℕ → ℕ → List String → List String → String → List Socket → Task
  notified : ℕ → ℕ → List String → List String → Task
  finished : Task
  failed : Error → Task

-- The loop over the waiting users, up to the next question to Redis or to its end.
unfoldable pub look : Socket → User → Filters → Dict ℕ Socket → Lobby → Task × Lobby
look sock user filters [] l = (finished, enqueue user.id sock l)
look sock user filters ((other_id, other_ws) ∷ others) l =
    let rest = look sock user filters others l in
    if other_id == user.id then rest else (asking sock user filters other_id others, l)

-- `waiting_users.pop(matched_user_id)`: KeyError where the user no longer waits
abbrev pub pop_partner : World → Socket → ℕ → ℕ → Option Socket → Lobby → Task × Lobby
pop_partner w sock id other none l = (failed key_error, l)
pop_partner w sock id other (some ws) l =
    (telling sock ws id other (room_name w id other), open_room w sock ws id other l)

-- `if matched_user_id:` is false for 0
abbrev pub take_partner : World → Socket → ℕ → ℕ → Lobby → Task × Lobby
take_partner w sock id zero l = (finished, enqueue id sock l)
take_partner w sock id (suc k) l = pop_partner w sock id (suc k) (lookup (suc k) l.waiting_users) l

abbrev pub decide : World → Socket → User → ℕ → Result Bool → Task × Lobby → Lobby → Task × Lobby
decide w sock user other (ok true) rest l = take_partner w sock user.id other l
decide w sock user other (ok false) rest l = rest
decide w sock user other (err e) rest l = (failed e, l)

abbrev pub consider :
    World → Socket → User → Filters → ℕ → Option Value → Task × Lobby → Lobby → Task × Lobby
consider w sock user filters other none rest l = rest
consider w sock user filters other (some v) rest l =
    decide w sock user other (suits w (user_data_of user) filters v) rest l

-- The next step of a coroutine whose `await` has an answer, or an exception.
abbrev pub after_send : Result (Unit {0}) × Lobby → Task → Task × Lobby
after_send (ok _, l) next = (next, l)
after_send (err e, l) next = (failed e, l)

-- `del matching_candidates[room]`: KeyError where it is no longer there
unfoldable pub del_room : String → Lobby → Task × Lobby
unfolding close_room
del_room room l =
    if contains room l.matching_candidates
    then (finished, close_room room l)
    else (failed key_error, l)

-- The loop over the two users of a rejected room, up to the next message or to its end.
unfoldable pub next_partner : ℕ → String → List ℕ → List Socket → Lobby → Task × Lobby
unfolding del_room
next_partner user_id room (uid ∷ uids) (sock ∷ socks) l =
    let rest = next_partner user_id room uids socks l in
    if uid == user_id then rest else (turning_down user_id room uid sock uids socks, l)
next_partner user_id room _ _ l = del_room room l

unfoldable pub start_accept : ℕ → String → MatchCandidate → Lobby → Task × Lobby
start_accept user_id room c l =
    let c' = record c { accepted = add user_id c.accepted } in
    (
      if nat_beq (length c'.accepted) 2 then announcing room c.sockets else finished,
      record l { matching_candidates = insert room c' l.matching_candidates },
    )

abbrev pub start_dispatch : ℕ → Json → String → Option MatchCandidate → Lobby → Task × Lobby
start_dispatch user_id event room none l = (finished, l)
start_dispatch user_id event room (some c) l =
    if is_text "entered" event
    then (finished, enter user_id l)
    else if is_text "accept" event
    then start_accept user_id room c l
    else if is_text "rejected" event
    then next_partner user_id room c.user_ids c.sockets l
    else (finished, l)

abbrev pub start_in_room : ℕ → Result Json → Result Json → Lobby → Task × Lobby
start_in_room user_id (err e) room l = (failed e, l)
start_in_room user_id (ok event) (err e) l = (failed e, l)
start_in_room user_id (ok event) (ok (Json.str room)) l =
    start_dispatch user_id event room (lookup room l.matching_candidates) l
start_in_room user_id (ok event) (ok (Json.arr _)) l = (failed type_error, l)
start_in_room user_id (ok event) (ok (Json.obj _)) l = (failed type_error, l)
start_in_room user_id (ok event) (ok _) l = (finished, l)

abbrev pub mem_text : String → List String → Bool
mem_text room rooms = any (λ r. r == room) rooms

-- `for r in to_remove: del matching_candidates[r]`, and then the end of the handler
unfoldable pub remove_all : ℕ → List String → Lobby → Task × Lobby
remove_all user_id [] l = (finished, record l { entered_users = discard user_id l.entered_users })
remove_all user_id (room ∷ rooms) l =
    let rest = remove_all user_id rooms (close_room room l) in
    if contains room l.matching_candidates then rest else (failed key_error, l)

-- The loop over `matching_candidates.items()`, up to the next message or to the end of the handler.
unfoldable pub scan_rooms :
    ℕ → ℕ → List String → List String → Dict String MatchCandidate → Lobby → Task × Lobby
unfolding remove_all
scan_rooms user_id size visited to_remove [] l = remove_all user_id to_remove l
scan_rooms user_id size visited to_remove ((room, c) ∷ rooms) l =
    let is_old = mem_text room visited in
    let seen = if is_old then visited else visited ++ room ∷ [] in
    let ours = not is_old && member user_id c.user_ids in
    let entered = member user_id l.entered_users in
    let removed = if ours then to_remove ++ room ∷ [] else to_remove in
    let rest = scan_rooms user_id size seen removed rooms l in
    if ours && not entered then (notifying user_id size seen to_remove room c.sockets, l) else rest

unfoldable pub start_rooms : ℕ → Lobby → Task × Lobby
unfolding scan_rooms
start_rooms user_id l =
    scan_rooms user_id (length l.matching_candidates) [] [] l.matching_candidates l

unfoldable pub next_room : ℕ → ℕ → List String → List String → Lobby → Task × Lobby
unfolding scan_rooms
next_room user_id size visited to_remove l =
    if nat_beq (length l.matching_candidates) size
    then scan_rooms user_id size visited to_remove l.matching_candidates l
    else (failed runtime_error, l)

unfoldable pub start_leaving : ℕ → Lobby → Task × Lobby
unfolding start_rooms
start_leaving user_id l =
    if contains user_id l.waiting_users
    then (forgetting user_id, record l { waiting_users = erase user_id l.waiting_users })
    else start_rooms user_id l

-- One step of a coroutine: the effect that it waits for, or its code up to the next `await`.
unfoldable pub advance : World → Task → Lobby → Task × Lobby
unfolding look next_partner del_room start_leaving start_rooms next_room
advance w (storing sock user filters) l =
    (stored sock user filters, store_profile w (user_data_of user) filters l)
advance w (stored sock user filters) l = look sock user filters l.waiting_users l
advance w (asking sock user filters other others) l =
    (answered sock user filters other others (Redis.get w.now (user_key other) l.redis), l)
advance w (answered sock user filters other others v) l =
    consider w sock user filters other v (look sock user filters others l) l
advance w (telling ws1 ws2 user1_id user2_id room) l =
    after_send (send w ws1 (match_proposal room user2_id) l)
      (telling_partner ws2 user1_id user2_id room)
advance w (telling_partner ws2 user1_id user2_id room) l =
    after_send (send w ws2 (match_proposal room user1_id) l) (deleting user1_id user2_id)
advance w (deleting user1_id user2_id) l = (deleting_partner user2_id, delete_profile user1_id l)
advance w (deleting_partner user2_id) l = (finished, delete_profile user2_id l)
advance w (receiving user_id msg) l =
    start_in_room user_id (Json.get "event" msg) (Json.get "room" msg) l
advance w (announcing room []) l = del_room room l
advance w (announcing room (sock ∷ socks)) l =
    after_send (send w sock (matched room) l) (announcing room socks)
advance w (turning_down user_id room uid sock uids socks) l =
    if w.online sock
    then (
      turned_down user_id room uid sock true uids socks,
      record l { sent = l.sent ++ (sock, rejected) ∷ [] },
    )
    else (turned_down user_id room uid sock false uids socks, l)
advance w (turned_down user_id room uid sock told uids socks) l =
    next_partner user_id room uids socks (if told then enqueue uid sock l else l)
advance w (leaving user_id) l = start_leaving user_id l
advance w (forgetting user_id) l = (forgotten user_id, delete_profile user_id l)
advance w (forgotten user_id) l = start_rooms user_id l
advance w (notifying user_id size visited to_remove room []) l =
    (notified user_id size visited (to_remove ++ room ∷ []), delete_profile user_id l)
advance w (notifying user_id size visited to_remove room (sock ∷ socks)) l =
    (notifying user_id size visited to_remove room socks, try_send w sock disconnected l)
advance w (notified user_id size visited to_remove) l = next_room user_id size visited to_remove l
advance w finished l = (finished, l)
advance w (failed e) l = (failed e, l)
