-- ===== src/Waiting/Connect.antt =====
-- `handle_connect` of server/app/domains/call/services/ws_service.py.
use nalang_project.Prelude.{
  ℕ, zero, suc, String, Bool, true, false, Option, none, some, List, [], ◌∷◌, if◌then◌else◌, ◌==◌,
  nat_eq, string_eq,
}
use nalang_project.Text.{◌+s◌, str}
use nalang_project.Calendar.{DateTime, str_datetime}
use nalang_project.Dict.{Dict, insert, erase, lookup}
use nalang_project.Redis
use nalang_project.Redis.{Redis}
use nalang_project.Raise.{Exec, Result, ok, err, value_error, lift, gets, modify, ◌>>=◌, ◌>>◌}
use nalang_project.Models.{User}
use nalang_project.Waiting.Filter.{UserData, Filters, is_match, both}
use nalang_project.Waiting.State.{
  Socket, Value, text, profile, match_proposal, Lobby, World, user_key, send, delete_profile,
}

abbrev first : List ℕ → Option ℕ
first [] = none
first (g ∷ _) = some g

abbrev printed : Option DateTime → Option String
printed none = none
printed (some t) = some (str_datetime t)

unfoldable pub user_data_of : User → UserData
user_data_of user = record {
  id = user.id;
  gender_id = first user.gender_links;
  languages = user.language_links;
  birth_date = printed user.birth_date;
}

-- Whether the two users pass each other's filters; text that is no profile is no JSON object.
unfoldable pub suits : World → UserData → Filters → Value → Result Bool
suits w mine filters (text s) = err value_error
suits w mine filters (profile other_data other_filters) =
    both (is_match w.today other_data filters) (is_match w.today mine other_filters)

abbrev pub or_next : Result Bool → ℕ → Result (Option ℕ) → Result (Option ℕ)
or_next (ok true) id rest = ok (some id)
or_next (ok false) id rest = rest
or_next (err e) id rest = err e

abbrev pub or_skip :
    World → UserData → Filters → ℕ → Option Value → Result (Option ℕ) → Result (Option ℕ)
or_skip w mine filters id none rest = rest
or_skip w mine filters id (some v) rest = or_next (suits w mine filters v) id rest

-- The loop over `list(waiting_users.items())`.
unfoldable pub find_match :
    World → Redis Value → UserData → Filters → Dict ℕ Socket → Result (Option ℕ)
find_match w redis mine filters [] = ok none
find_match w redis mine filters ((other_id, other_ws) ∷ others) =
    let rest = find_match w redis mine filters others in
    if other_id == mine.id
    then rest
    else or_skip w mine filters other_id (Redis.get w.now (user_key other_id) redis) rest

-- f"room_{user1_id}_{user2_id}_{uuid.uuid4().hex[:6]}"
unfoldable pub room_name : World → ℕ → ℕ → String
room_name w user1_id user2_id = "room_" +s str user1_id +s "_" +s str user2_id +s "_" +s w.suffix

abbrev pub socket_of : Option Socket → Socket
socket_of none = 0
socket_of (some s) = s

-- The matched user leaves the queue, and the room is recorded with nobody having accepted.
unfoldable pub open_room : World → Socket → Socket → ℕ → ℕ → Lobby → Lobby
open_room w ws1 ws2 user1_id user2_id l = record l {
  waiting_users = erase user2_id l.waiting_users;
  matching_candidates =
      insert (room_name w user1_id user2_id)
        (record { user_ids = user1_id ∷ user2_id ∷ []; sockets = ws1 ∷ ws2 ∷ []; accepted = [] })
        l.matching_candidates;
}

-- Both are told of the room, and their profiles are deleted from Redis.
unfoldable pub announce : World → Socket → Socket → ℕ → ℕ → Exec Lobby Unit
unfolding delete_profile
announce w ws1 ws2 user1_id user2_id = do
  let room = room_name w user1_id user2_id
  send w ws1 (match_proposal room user2_id)
  send w ws2 (match_proposal room user1_id)
  modify (delete_profile user1_id)
  modify (delete_profile user2_id)

unfoldable pub propose : World → Socket → ℕ → ℕ → Exec Lobby Unit
propose w ws1 user1_id user2_id = do
  ws2 ← gets (λ l. socket_of (lookup user2_id l.waiting_users))
  modify (open_room w ws1 ws2 user1_id user2_id)
  announce w ws1 ws2 user1_id user2_id

unfoldable pub enqueue : ℕ → Socket → Lobby → Lobby
enqueue id sock l = record l { waiting_users = insert id sock l.waiting_users }

-- `if matched_user_id:` is false for `None` and for 0
unfoldable pub settle : World → Socket → ℕ → Option ℕ → Exec Lobby Unit
settle w sock id none = modify (enqueue id sock)
settle w sock id (some zero) = modify (enqueue id sock)
settle w sock id (some (suc other)) = propose w sock id (suc other)

unfoldable pub store_profile : World → UserData → Filters → Lobby → Lobby
store_profile w mine filters l = record l {
  redis = Redis.set w.now (user_key mine.id) (profile mine filters) 600 l.redis;
}

unfoldable pub handle_connect : World → Socket → User → Filters → Exec Lobby Unit
handle_connect w sock user filters = do
  let mine = user_data_of user
  modify (store_profile w mine filters)
  found ← gets (λ l. find_match w l.redis mine filters l.waiting_users)
  matched_user_id ← lift found
  settle w sock user.id matched_user_id
