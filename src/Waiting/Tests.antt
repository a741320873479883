-- ===== src/Waiting/Tests.antt =====
-- A lobby with four users, and the runs of its handlers.
mod Turns
use nalang_project.Prelude.{
  ◌↔◌, ℕ, suc, String, ◌≡◌, refl, ◌≢◌, true, false, none, some, [], ◌∷◌, ◌++◌, All, arith, nat_eq,
  string_eq, ◌==◌, subst,
}
use nalang_project.Text.{int, str}
use nalang_project.Calendar.{DateTime}
use nalang_project.Dict.{Dict, lookup}
use nalang_project.Redis
use nalang_project.Redis.{Redis, Entry}
use nalang_project.Raise.{ok, err, value_error}
use nalang_project.Models.{User}
use nalang_project.Waiting.Filter.{
  UserData, Filters, is_match, gender_passes, language_passes, age_passes,
}
use nalang_project.Waiting.State.{
  Socket, Value, profile, Lobby, World, match_proposal, matched, user_key, empty,
}
use nalang_project.Waiting.Connect.{
  user_data_of, store_profile, find_match, room_name, handle_connect, suits,
}
use nalang_project.Waiting.Receive.{handle_receive_event}
use nalang_project.Waiting.Disconnect.{handle_disconnect}
use nalang_project.Waiting.Session.{step, run, connects, receives}
use nalang_project.Waiting.Invariant.{IsWell}
use nalang_project.Waiting.Leaving.{without_user, rooms-handle_disconnect}
use nalang_project.Waiting.Closing.{IsGone, handle_disconnect-IsGone, handle_disconnect_idem}
use nalang_project.Waiting.Matching.{Found, Suits, Passed, unknown, find_match_iff}
use nalang_project.Waiting.Preserved.{run-empty-IsWell}
use nalang_project.Waiting.Requeue.{
  message, candidate, profile_of, handle_connect-match, rejected_partner-unmatched,
}
use nalang_project.Waiting.Accepting.{accept_twice-matched}
use nalang_project.Waiting.Blocking.{is_match-birth_date, handle_connect-blocked}

abbrev no_filters : Filters
no_filters = record { gender_id = none; language_id = none; min_age = none; max_age = none }

abbrev women : Filters
women = record no_filters { gender_id = some "2" }

abbrev broken : Filters
broken = record no_filters { gender_id = some "any" }

abbrev adults : Filters
adults = record no_filters { min_age = some "20" }

abbrev user : ℕ → ℕ → User
user id gender = record {
  id = id;
  email = "a@b.kr";
  hashed_password = none;
  name = "Ann";
  profile_image = none;
  provider = none;
  birth_date = none;
  created_at = 0;
  interest_links = [];
  language_links = 1 ∷ [];
  gender_links = gender ∷ [];
}

abbrev born : DateTime
born = record {
  date = record { year = 2000; month = 3; day = 1 };
  hour = 0;
  minute = 0;
  second = 0;
  microsecond = 0;
}

abbrev ann : UserData
ann = record { id = 1; gender_id = some 2; languages = 1 ∷ []; birth_date = none }

abbrev bob : UserData
bob = record { id = 2; gender_id = some 1; languages = 1 ∷ []; birth_date = none }

abbrev world : World
world = record {
  now = 10;
  today = record { year = 2025; month = 7; day = 1 };
  suffix = "0a1b2c";
  online = λ s. true;
}

-- Ann (1) and Bob (2) wait, and so does a user (7) whose profile has expired.
abbrev redis_of : Filters → Redis Value
redis_of f =
    (user_key 1, record { value = profile ann f; expires = 600 })
    ∷ (user_key 2, record { value = profile bob women; expires = 601 })
    ∷ []

abbrev queue : Dict ℕ Socket
queue = (7, 107) ∷ (1, 101) ∷ (2, 102) ∷ []

abbrev lobby : Lobby
lobby = record {
  waiting_users = queue;
  matching_candidates = [];
  entered_users = [];
  redis = redis_of no_filters;
  sent = [];
}

abbrev paired : Lobby
paired = record lobby {
  matching_candidates = ("r", candidate 8 9 108 109) ∷ ("q", candidate 5 6 105 106) ∷ [];
}

finds_ann :
    find_match world (redis_of no_filters) (user_data_of (user 3 1)) no_filters queue ≡ ok (some 1)
unfolding find_match suits is_match gender_passes language_passes age_passes Redis.get user_data_of
    user_key str
finds_ann = refl

Suits-ann : Suits world (redis_of no_filters) (user_data_of (user 3 1)) no_filters 1
unfolding is_match gender_passes language_passes age_passes Redis.get user_data_of user_key str
Suits-ann = record {
  other = omega arith;
  other_data = ann;
  other_filters = no_filters;
  known = refl;
  mine_admits = refl;
  other_admits = refl;
}

Passed-7 : Passed world (redis_of no_filters) (user_data_of (user 3 1)) no_filters 7
unfolding Redis.get user_key str
Passed-7 = unknown refl

find_match_iff_example :
    (find_match world (redis_of no_filters) (user_data_of (user 3 1)) no_filters queue
      ≡ ok (some 1))
    ↔ Found world (redis_of no_filters) (user_data_of (user 3 1)) no_filters queue 1
find_match_iff_example =
    find_match_iff world (redis_of no_filters) (user_data_of (user 3 1)) no_filters queue 1

finds_ann_stored :
    find_match world
      (store_profile world (user_data_of (user 3 1)) no_filters lobby).redis
      (user_data_of (user 3 1))
      no_filters
      lobby.waiting_users
    ≡ ok (some (suc 0))
unfolding find_match suits is_match gender_passes language_passes age_passes Redis.get Redis.set
    user_data_of store_profile user_key str
finds_ann_stored = refl

handle_connect-match_example :
    let l' = (handle_connect world 103 (user 3 1) no_filters lobby).1 in
    let room = room_name world 3 1 in
    ((handle_connect world 103 (user 3 1) no_filters lobby).0 ≡ ok tt)
    × (lookup 1 l'.waiting_users ≡ none)
    × (lookup room l'.matching_candidates ≡ some (candidate 3 1 103 101))
    × (l'.sent ≡ ([] ++ (103, match_proposal room 1) ∷ []) ++ (101, match_proposal room 3) ∷ [])
    × (profile_of 11 3 l' ≡ none)
    × (profile_of 11 1 l' ≡ none)
handle_connect-match_example =
    handle_connect-match world 103 (user 3 1) no_filters lobby 0 101 finds_ann_stored refl refl refl
      11

rejected_partner-unmatched_example :
    let room = room_name world 3 1 in
    let l1 = (handle_connect world 103 (user 3 1) no_filters lobby).1 in
    let l2 = (handle_receive_event world 3 (message "rejected" room) l1).1 in
    let l3 = store_profile world (user_data_of (user 4 1)) no_filters l2 in
    (lookup 1 l2.waiting_users ≡ some 101)
    × (lookup room l2.matching_candidates ≡ none)
    × (find_match world l3.redis (user_data_of (user 4 1)) no_filters l3.waiting_users
        ≢ ok (some 1))
rejected_partner-unmatched_example =
    rejected_partner-unmatched world 103 (user 3 1) no_filters lobby 0 101 finds_ann_stored refl
      refl refl world world (user 4 1) no_filters refl (omega arith)

abbrev room_q : String
room_q = "q"

abbrev room_r : String
room_r = "r"

q_ne_r : room_q ≢ room_r
q_ne_r e =
    let same : (room_q == room_r) ≡ true = subst (λ s. (room_q == s) ≡ true) e refl in
    let differ : (room_q == room_r) ≡ false = refl in cc (same, differ)

accept_twice-matched_example :
    let l1 = (handle_receive_event world 3 (message "accept" "r") paired).1 in
    let l2 = (handle_receive_event world 9 (message "accept" "r") l1).1 in
    (l1.sent ≡ [])
    × (l2.sent ≡ ([] ++ (108, matched "r") ∷ []) ++ (109, matched "r") ∷ [])
    × (lookup "r" l2.matching_candidates ≡ none)
    × (lookup "q" l2.matching_candidates ≡ lookup "q" paired.matching_candidates)
accept_twice-matched_example =
    accept_twice-matched world world 3 9 "r" "q" 8 9 108 109 paired (omega arith) q_ne_r refl refl
      refl

rooms-handle_disconnect_example :
    lookup "q" (handle_disconnect world 8 paired).matching_candidates
    ≡ without_user 8 (lookup "q" paired.matching_candidates)
rooms-handle_disconnect_example = rooms-handle_disconnect world 8 paired (refl, (refl, tt)) "q"

run-empty-IsWell_example : IsWell (
    run
      ((world, connects 101 (user 1 2) no_filters)
        ∷ (world, connects 102 (user 2 1) women)
        ∷ (world, receives 1 (message "accept" "r"))
        ∷ [])
      empty)
run-empty-IsWell_example = run-empty-IsWell (
    (world, connects 101 (user 1 2) no_filters)
    ∷ (world, connects 102 (user 2 1) women)
    ∷ (world, receives 1 (message "accept" "r"))
    ∷ [])

abbrev blocked : Lobby
blocked = record lobby { waiting_users = (1, 101) ∷ []; redis = redis_of broken }

admits_ann : is_match world.today ann no_filters ≡ ok true
unfolding is_match gender_passes language_passes age_passes
admits_ann = refl

knows_ann : profile_of 10 1 blocked ≡ some (profile ann broken)
unfolding Redis.get user_key str
knows_ann = refl

not_int : int "any" ≡ none
unfolding int
not_int = refl

handle_connect-blocked_example :
    ((handle_connect world 103 (user 3 1) no_filters blocked).0 ≡ err value_error)
    × IsGone 3 (step world (connects 103 (user 3 1) no_filters) blocked)
    × (lookup 1 (step world (connects 103 (user 3 1) no_filters) blocked).waiting_users ≡ some 101)
handle_connect-blocked_example =
    handle_connect-blocked world 103 (user 3 1) no_filters blocked 1 101 [] ann broken refl
      (omega arith) knows_ann admits_ann refl not_int
