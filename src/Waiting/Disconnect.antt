-- ===== src/Waiting/Disconnect.antt =====
-- `handle_disconnect` of server/app/domains/call/services/ws_service.py.
use nalang_project.Prelude.{
  ℕ, String, Bool, not, ◌&&◌, List, [], ◌∷◌, any, keep, if◌then◌else◌, ◌==◌, nat_eq, string_eq,
}
use nalang_project.Dict.{Dict, contains, erase}
use nalang_project.Waiting.State.{
  Socket, MatchCandidate, Lobby, World, Message, disconnected, try_send, delete_profile,
}

abbrev pub member : ℕ → List ℕ → Bool
member a xs = any (λ x. x == a) xs

unfoldable pub leave_queue : ℕ → Lobby → Lobby
unfolding delete_profile
leave_queue user_id l =
    if contains user_id l.waiting_users
    then delete_profile user_id (record l { waiting_users = erase user_id l.waiting_users })
    else l

-- `for sock in data["sockets"]`
unfoldable pub notify_all : World → Message → List Socket → Lobby → Lobby
unfolding try_send
notify_all w m [] l = l
notify_all w m (sock ∷ socks) l = notify_all w m socks (try_send w sock m l)

-- The first loop over `matching_candidates.items()`, for its effects ...
unfoldable pub notify_rooms : World → ℕ → Dict String MatchCandidate → Lobby → Lobby
unfolding notify_all
notify_rooms w user_id [] l = l
notify_rooms w user_id ((room, c) ∷ rooms) l = notify_rooms w user_id rooms (
    if member user_id c.user_ids && not (member user_id l.entered_users)
    then delete_profile user_id (notify_all w disconnected c.sockets l)
    else l)

-- ... and for the names that it collects in `to_remove`.
unfoldable pub rooms_of : ℕ → Dict String MatchCandidate → List String
rooms_of user_id [] = []
rooms_of user_id ((room, c) ∷ rooms) =
    let rest = rooms_of user_id rooms in if member user_id c.user_ids then room ∷ rest else rest

-- `for r in to_remove: del matching_candidates[r]`
unfoldable pub remove_rooms : List String → Dict String MatchCandidate → Dict String MatchCandidate
remove_rooms [] d = d
remove_rooms (r ∷ rs) d = remove_rooms rs (erase r d)

-- `entered_users.discard(user_id)`
unfoldable pub discard : ℕ → List ℕ → List ℕ
discard a xs = keep (λ x. not (x == a)) xs

unfoldable pub drop_rooms : World → ℕ → Lobby → Lobby
drop_rooms w user_id l =
    let rooms = l.matching_candidates in
    let told = notify_rooms w user_id rooms l in
    record told { matching_candidates = remove_rooms (rooms_of user_id rooms) rooms }

-- The handler as a whole, with nothing in between its `await`s. Then the loop over the rooms cannot raise
-- RuntimeError, and `del` finds its rooms; Waiting.Tasks has the handler that others interrupt.
unfoldable pub handle_disconnect : World → ℕ → Lobby → Lobby
handle_disconnect w user_id l =
    let gone = drop_rooms w user_id (leave_queue user_id l) in
    record gone { entered_users = discard user_id gone.entered_users }
