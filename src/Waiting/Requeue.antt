-- ===== src/Waiting/Requeue.antt =====
-- Laws of `handle_connect` and of the message "rejected" (server/app/domains/call/services/ws_service.py).
use nalang_project.Prelude.{
  suc, ℕ, String, ◌≡◌, refl, ◌≢◌, ◌∙◌, true, Option, none, some, [], ◌∷◌, ◌++◌, arith,
  if◌then◌else◌, ◌==◌, nat_eq, string_eq, ==_refl, ==_ne,
}
use nalang_project.Text.Keys.{==-prefix}
use nalang_project.Dict.{lookup, insert, erase, lookup-insert, lookup-erase}
use nalang_project.Json
use nalang_project.Json.{Json}
use nalang_project.Redis
use nalang_project.Redis.{Redis, redis_laws, get-set, get-delete}
use nalang_project.Raise.{ok}
use nalang_project.Models.{User}
use nalang_project.Waiting.Filter.{UserData, Filters}
use nalang_project.Waiting.State.{
  Socket, MatchCandidate, Value, Lobby, World, match_proposal, rejected, user_key, send,
  delete_profile,
}
use nalang_project.Waiting.Connect.{
  user_data_of, store_profile, find_match, propose, open_room, announce, room_name, handle_connect,
  settle,
}
use nalang_project.Waiting.Matching.{find_match-Found}
use nalang_project.Waiting.Receive.{reject, handle_receive_event}

pub user_key-== : (a b : ℕ) → (user_key a == user_key b) ≡ (a == b)
unfolding user_key
user_key-== a b = ==-prefix "call:user:" a b

-- Whether a profile can be read for a user, and when.
abbrev pub profile_of : ℕ → ℕ → Lobby → Option Value
profile_of now id l = Redis.get now (user_key id) l.redis

pub profile_of-store_profile :
    (w : World) (mine : UserData) (f : Filters) (l : Lobby) (later id : ℕ)
    → mine.id ≢ id
    → profile_of later id (store_profile w mine f l) ≡ profile_of later id l
unfolding store_profile
profile_of-store_profile w mine f l later id ne = rw (get-set, user_key-==, ==_ne mine.id id ne)

pub profile_of-delete_profile :
    (a b now : ℕ) (l : Lobby)
    → profile_of now b (delete_profile a l) ≡ (if a == b then none else profile_of now b l)
unfolding delete_profile
profile_of-delete_profile a b now l = rw (get-delete, user_key-==)

-- A user without a profile is never found, whoever connects.
pub find_match-no_profile :
    (w : World) (mine : UserData) (f : Filters) (l : Lobby) (id : ℕ)
    → profile_of w.now id l ≡ none
    → find_match w l.redis mine f l.waiting_users ≢ ok (some id)
find_match-no_profile w mine f l id h e =
    let found = find_match-Found w l.redis mine f l.waiting_users id e in
    cc (found.suits_both.known, h)

-- `announce` with both sockets open: two messages, and no profile is left.
pub announce_online :
    (w : World) (ws1 ws2 : Socket) (a b : ℕ) (l : Lobby)
    → w.online ws1 ≡ true
    → w.online ws2 ≡ true
    → announce w ws1 ws2 a b l ≡ (
      ok tt,
      delete_profile b (
          delete_profile a (record l {
            sent =
                (l.sent ++ (ws1, match_proposal (room_name w a b) b) ∷ [])
                ++ (ws2, match_proposal (room_name w a b) a) ∷ [];
          })),
    )
unfolding announce send
announce_online w ws1 ws2 a b l h1 h2 = rw (h1, h2)

-- `{"event": event, "room": room}`
abbrev pub message : String → String → Json
message event room =
    Json.obj (Json.field "event" (Json.str event) (Json.field "room" (Json.str room) Json.end))

abbrev pub candidate : ℕ → ℕ → Socket → Socket → MatchCandidate
candidate a b ws1 ws2 = record { user_ids = a ∷ b ∷ []; sockets = ws1 ∷ ws2 ∷ []; accepted = [] }

-- A rejection by the first of the two: the room is closed, and the second waits again.
pub handle_receive_event-rejected :
    (w : World) (room : String) (a b : ℕ) (s1 s2 : Socket) (l : Lobby)
    → b ≢ a
    → w.online s2 ≡ true
    → lookup room l.matching_candidates ≡ some (candidate a b s1 s2)
    → handle_receive_event w a (message "rejected" room) l ≡ (
      ok tt,
      record l {
        waiting_users = insert b s2 l.waiting_users;
        matching_candidates = erase room l.matching_candidates;
        sent = l.sent ++ (s2, rejected) ∷ [];
      },
    )
unfolding handle_receive_event Json.get reject
handle_receive_event-rejected w room a b s1 s2 l ne on h = rw (h, ==_refl a, ==_ne b a ne, on)

module _ (w : World) (sock : Socket) (user : User) (f : Filters) (l : Lobby) (k : ℕ) (ws : Socket)
    (found : find_match w
        (store_profile w (user_data_of user) f l).redis
        (user_data_of user)
        f
        l.waiting_users
      ≡ ok (some (suc k)))
    (waits : lookup (suc k) l.waiting_users ≡ some ws) (open1 : w.online sock ≡ true)
    (open2 : w.online ws ≡ true) where
  partner-ne : suc k ≢ user.id
  unfolding user_data_of
  partner-ne =
      (find_match-Found w _ (user_data_of user) f l.waiting_users (suc k) found).suits_both.other

  proposed : Lobby
  proposed =
      let opened = open_room w sock ws user.id (suc k) (store_profile w (user_data_of user) f l) in
      delete_profile (suc k) (
        delete_profile user.id (record opened {
          sent =
              (opened.sent ++ (sock, match_proposal (room_name w user.id (suc k)) (suc k)) ∷ [])
              ++ (ws, match_proposal (room_name w user.id (suc k)) user.id) ∷ [];
        }))

  proposes :
      propose w sock user.id (suc k) (store_profile w (user_data_of user) f l) ≡ (ok tt, proposed)
  unfolding propose proposed store_profile
  proposes = rw waits (
      announce_online w sock ws user.id (suc k)
        (open_room w sock ws user.id (suc k) (store_profile w (user_data_of user) f l)) open1 open2)

  handle_connect-proposed : handle_connect w sock user f l ≡ (ok tt, proposed)
  unfolding handle_connect settle store_profile
  handle_connect-proposed = rw found proposes

  waiting-proposed :
      (v : ℕ)
      → lookup v proposed.waiting_users ≡ (if suc k == v then none else lookup v l.waiting_users)
  unfolding proposed delete_profile open_room store_profile
  waiting-proposed v = lookup-erase (suc k) v l.waiting_users

  room-proposed :
      lookup (room_name w user.id (suc k)) proposed.matching_candidates
      ≡ some (candidate user.id (suc k) sock ws)
  unfolding proposed delete_profile open_room
  room-proposed = rw (lookup-insert, ==_refl)

  sent-proposed :
      proposed.sent
      ≡ (l.sent ++ (sock, match_proposal (room_name w user.id (suc k)) (suc k)) ∷ [])
        ++ (ws, match_proposal (room_name w user.id (suc k)) user.id) ∷ []
  unfolding proposed delete_profile open_room store_profile
  sent-proposed = refl

  profile1-proposed : (now : ℕ) → profile_of now user.id proposed ≡ none
  unfolding proposed
  profile1-proposed now = rw (
    profile_of-delete_profile,
    ==_ne (suc k) user.id partner-ne,
    profile_of-delete_profile,
    ==_refl user.id,
  )

  profile2-proposed : (now : ℕ) → profile_of now (suc k) proposed ≡ none
  unfolding proposed
  profile2-proposed now = rw (profile_of-delete_profile, ==_refl (suc k))

  -- When the connecting user finds a partner and both sockets are open, the partner leaves the queue,
  -- the two share a new room, each is told of the other, and afterwards both profiles are gone.
  pub handle_connect-match :
      (now : ℕ)
      → let l' = (handle_connect w sock user f l).1 in
        let room = room_name w user.id (suc k) in
        ((handle_connect w sock user f l).0 ≡ ok tt)
        × (lookup (suc k) l'.waiting_users ≡ none)
        × (lookup room l'.matching_candidates ≡ some (candidate user.id (suc k) sock ws))
        × (l'.sent
            ≡ (l.sent ++ (sock, match_proposal room (suc k)) ∷ [])
              ++ (ws, match_proposal room user.id) ∷ [])
        × (profile_of now user.id l' ≡ none)
        × (profile_of now (suc k) l' ≡ none)
  handle_connect-match now = rw handle_connect-proposed (
    refl,
    waiting-proposed (suc k) ∙ ground arith,
    room-proposed,
    sent-proposed,
    profile1-proposed now,
    profile2-proposed now,
  )

  after_rejection : Lobby
  after_rejection = record proposed {
    waiting_users = insert (suc k) ws proposed.waiting_users;
    matching_candidates = erase (room_name w user.id (suc k)) proposed.matching_candidates;
    sent = proposed.sent ++ (ws, rejected) ∷ [];
  }

  profile-after_rejection : (now : ℕ) → profile_of now (suc k) after_rejection ≡ none
  unfolding after_rejection
  profile-after_rejection now = profile2-proposed now

  rejects :
      (w2 : World)
      → w2.online ws ≡ true
      → handle_receive_event w2 user.id (message "rejected" (room_name w user.id (suc k))) proposed
        ≡ (ok tt, after_rejection)
  unfolding after_rejection
  rejects w2 on =
      handle_receive_event-rejected w2 (room_name w user.id (suc k)) user.id (suc k) sock ws
        proposed partner-ne on room-proposed

  waits_again : lookup (suc k) after_rejection.waiting_users ≡ some ws
  unfolding after_rejection
  waits_again = lookup-insert (suc k) (suc k) ws proposed.waiting_users ∙ rw (==_refl (suc k))

  room_closed : lookup (room_name w user.id (suc k)) after_rejection.matching_candidates ≡ none
  unfolding after_rejection
  room_closed = rw (lookup-erase, ==_refl)

  -- When the connecting user then rejects the proposal, the partner, if its socket is open, waits
  -- again; but its profile is gone, so no other user who connects later is matched with it.
  pub rejected_partner-unmatched :
      (w2 w3 : World) (user3 : User) (f3 : Filters)
      → w2.online ws ≡ true
      → user3.id ≢ suc k
      → let room = room_name w user.id (suc k) in
        let l1 = (handle_connect w sock user f l).1 in
        let l2 = (handle_receive_event w2 user.id (message "rejected" room) l1).1 in
        let l3 = store_profile w3 (user_data_of user3) f3 l2 in
        (lookup (suc k) l2.waiting_users ≡ some ws)
        × (lookup room l2.matching_candidates ≡ none)
        × (find_match w3 l3.redis (user_data_of user3) f3 l3.waiting_users ≢ ok (some (suc k)))
  rejected_partner-unmatched w2 w3 user3 f3 on ne =
      rw (handle_connect-proposed, rejects w2 on)
        (
          waits_again,
          room_closed,
          find_match-no_profile w3 (user_data_of user3) f3
              (store_profile w3 (user_data_of user3) f3 after_rejection) (suc k)
              (profile_of-store_profile w3 (user_data_of user3) f3 after_rejection w3.now (suc k)
                  (unfold user_data_of in ne)
                ∙ profile-after_rejection w3.now),
        )
