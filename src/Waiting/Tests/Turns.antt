-- ===== src/Waiting/Tests/Turns.antt =====
-- Runs of coroutines, on the lobby of Waiting.Tests.
use nalang_project.Prelude.{string_eq, ◌≡◌, refl, true, false, none, some, [], ◌∷◌, arith, nat_eq}
use nalang_project.Text.{str, int}
use nalang_project.Dict.{lookup, insert, erase}
use nalang_project.Redis
use nalang_project.Raise.{ok, key_error}
use nalang_project.Waiting.Filter.{Filters, is_match, gender_passes, language_passes, age_passes}
use nalang_project.Waiting.State.{profile, Lobby, user_key, empty}
use nalang_project.Waiting.Connect.{user_data_of, room_name, handle_connect, suits}
use nalang_project.Waiting.Receive.{handle_receive_event}
use nalang_project.Waiting.Disconnect.{handle_disconnect}
use nalang_project.Waiting.Invariant.{IsWell}
use nalang_project.Waiting.Requeue.{message, profile_of}
use nalang_project.Waiting.Tasks.{storing, telling, receiving, leaving, finished, failed}
use nalang_project.Waiting.Turns.{connects, receives, leaves, runs, run_turns}
use nalang_project.Waiting.Interleaved.{run_turns-IsWell}
use nalang_project.Waiting.Reaching.{Reaches, ended}
use nalang_project.Waiting.Alone.{handlers-Reach}
use nalang_project.Waiting.Races.{in_turns, in_turns-key_error, in_turns-missed}
use nalang_project.Waiting.Tests.{no_filters, women, user, ann, world, lobby, paired}

run_turns-IsWell_example :
    IsWell
      (run_turns
        (connects 101 (user 1 2) no_filters
          ∷ connects 102 (user 2 1) women
          ∷ runs world 0
          ∷ runs world 1
          ∷ runs world 1
          ∷ runs world 0
          ∷ runs world 0
          ∷ receives 1 (message "accept" "r")
          ∷ leaves 2
          ∷ runs world 3
          ∷ runs world 2
          ∷ [])
        (record { tasks = []; lobby = empty })).lobby
run_turns-IsWell_example = run_turns-IsWell (
    connects 101 (user 1 2) no_filters
    ∷ connects 102 (user 2 1) women
    ∷ runs world 0
    ∷ runs world 1
    ∷ runs world 1
    ∷ runs world 0
    ∷ runs world 0
    ∷ receives 1 (message "accept" "r")
    ∷ leaves 2
    ∷ runs world 3
    ∷ runs world 2
    ∷ [])

handlers-Reach_example :
    Reaches world
      (ended (handle_connect world 103 (user 3 1) no_filters paired))
      (storing 103 (user 3 1) no_filters, paired)
    × Reaches world
        (ended (handle_receive_event world 8 (message "rejected" "r") paired))
        (receiving 8 (message "rejected" "r"), paired)
    × Reaches world (finished, handle_disconnect world 8 paired) (leaving 8, paired)
handlers-Reach_example =
    handlers-Reach world 103 (user 3 1) no_filters 8 (message "rejected" "r") paired
      (refl, (refl, tt))

abbrev ann_waits : Lobby
ann_waits = record lobby { waiting_users = (1, 101) ∷ [] }

ann_known : profile_of 10 1 ann_waits ≡ some (profile ann no_filters)
unfolding Redis.get user_key str
ann_known = refl

ann_for_third : suits world (user_data_of (user 3 1)) no_filters (profile ann no_filters) ≡ ok true
unfolding suits is_match gender_passes language_passes age_passes user_data_of
ann_for_third = refl

ann_for_fourth : suits world (user_data_of (user 4 1)) no_filters (profile ann no_filters) ≡ ok true
unfolding suits is_match gender_passes language_passes age_passes user_data_of
ann_for_fourth = refl

in_turns-key_error_example :
    let p =
      run_turns
        (in_turns world 103 (user 3 1) no_filters 104 (user 4 1) no_filters)
        (record { tasks = []; lobby = ann_waits }) in
    (p.tasks ≡ telling 103 101 3 1 (room_name world 3 1) ∷ failed key_error ∷ [])
    × (lookup 4 p.lobby.waiting_users ≡ none)
    × (p.lobby.waiting_users ≡ erase 1 ann_waits.waiting_users)
    × (p.lobby.matching_candidates
        ≡ insert
            (room_name world 3 1)
            (record { user_ids = 3 ∷ 1 ∷ []; sockets = 103 ∷ 101 ∷ []; accepted = [] })
            ann_waits.matching_candidates)
in_turns-key_error_example =
    in_turns-key_error world 103 (user 3 1) no_filters 104 (user 4 1) no_filters ann_waits 0 101 []
      (profile ann no_filters) refl (omega arith) (omega arith) refl ann_known ann_for_third
      ann_for_fourth

abbrev men : Filters
men = record no_filters { gender_id = some "1" }

-- Both ask for a man, which Ann is not, and they suit each other.
not_for_third : suits world (user_data_of (user 3 1)) men (profile ann no_filters) ≡ ok false
unfolding suits is_match gender_passes language_passes age_passes user_data_of int
not_for_third = refl

not_for_fourth : suits world (user_data_of (user 4 1)) men (profile ann no_filters) ≡ ok false
unfolding suits is_match gender_passes language_passes age_passes user_data_of int
not_for_fourth = refl

third_for_fourth :
    suits world (user_data_of (user 4 1)) men (profile (user_data_of (user 3 1)) men) ≡ ok true
unfolding suits is_match gender_passes language_passes age_passes user_data_of int
third_for_fourth = refl

in_turns-missed_example :
    let p =
      run_turns
        (in_turns world 103 (user 3 1) men 104 (user 4 1) men)
        (record { tasks = []; lobby = ann_waits }) in
    (p.tasks ≡ finished ∷ finished ∷ [])
    × (p.lobby.waiting_users ≡ insert 4 104 (insert 3 103 ((1, 101) ∷ [])))
    × (p.lobby.matching_candidates ≡ ann_waits.matching_candidates)
in_turns-missed_example =
    in_turns-missed world 103 (user 3 1) men 104 (user 4 1) men ann_waits 1 101
      (profile ann no_filters) refl (omega arith) (omega arith) ann_known not_for_third
      not_for_fourth
