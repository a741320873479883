-- ===== src/Waiting/Interleaved.antt =====
-- The lobby's invariant under every interleaving of the handlers' coroutines at their `await`s.
use nalang_project.Json
use nalang_project.Prelude.{ℕ, zero, suc, List, [], ◌∷◌, All, All-append, nat_eq, string_eq}
use nalang_project.Json.{Json, is_text}
use nalang_project.Waiting.State.{Lobby, World, match_proposal, matched, disconnected, empty}
use nalang_project.Waiting.Connect.{user_data_of}
use nalang_project.Waiting.Invariant.{
  IsWell, IsWell-SameLists, delete_profile-IsWell, store_profile-IsWell,
}
use nalang_project.Waiting.Tasks.{
  Task, storing, stored, asking, answered, telling, telling_partner, deleting, deleting_partner,
  receiving, announcing, turning_down, turned_down, leaving, forgetting, forgotten, notifying,
  notified, finished, failed, look, advance,
}
use nalang_project.Waiting.Turns.{
  Pool, turn, Turn, connects, receives, leaves, runs, take_turn, run_turns,
}
use nalang_project.Waiting.Leaving.{try_send-SameLists}
use nalang_project.Waiting.Steps.{
  IsGood, AreWell, look-AreWell, consider-AreWell, send-AreWell, del_room-AreWell,
  next_partner-AreWell, start_in_room-AreWell, told_or_not, requeued-IsWell,
}
use nalang_project.Waiting.LeavingSteps.{
  start_rooms-AreWell, next_room-AreWell, start_leaving-AreWell,
}

advance-AreWell : (w : World) (t : Task) (l : Lobby) → IsGood t → IsWell l → AreWell (advance w t l)
unfolding advance
advance-AreWell w (storing sock user f) l g h =
    (tt, store_profile-IsWell w (user_data_of user) f l h)
advance-AreWell w (stored sock user f) l g h = look-AreWell sock user f l.waiting_users l h
advance-AreWell w (asking sock user f other others) l g h = (g, h)
advance-AreWell w (answered sock user f other others v) l g h =
    consider-AreWell w sock user f other v (look sock user f others l) l g
      (look-AreWell sock user f others l h) h
advance-AreWell w (telling ws1 ws2 a b room) l g h =
    send-AreWell w ws1 (match_proposal room b) (telling_partner ws2 a b room) l tt h
advance-AreWell w (telling_partner ws2 a b room) l g h =
    send-AreWell w ws2 (match_proposal room a) (deleting a b) l tt h
advance-AreWell w (deleting a b) l g h = (tt, delete_profile-IsWell a l h)
advance-AreWell w (deleting_partner b) l g h = (tt, delete_profile-IsWell b l h)
advance-AreWell w (receiving u msg) l g h =
    start_in_room-AreWell u (Json.get "event" msg) (Json.get "room" msg) l h
advance-AreWell w (announcing room []) l g h = del_room-AreWell room l h
advance-AreWell w (announcing room (s ∷ ss)) l g h =
    send-AreWell w s (matched room) (announcing room ss) l tt h
advance-AreWell w (turning_down u room v s us ss) l g h =
    told_or_not (w.online s) u room v s us ss l h
advance-AreWell w (turned_down u room v s told us ss) l g h =
    next_partner-AreWell u room us ss _ (requeued-IsWell told v s l h)
advance-AreWell w (leaving u) l g h = start_leaving-AreWell u l h
advance-AreWell w (forgetting u) l g h = (tt, delete_profile-IsWell u l h)
advance-AreWell w (forgotten u) l g h = start_rooms-AreWell u l h
advance-AreWell w (notifying u n vis rs room []) l g h = (tt, delete_profile-IsWell u l h)
advance-AreWell w (notifying u n vis rs room (s ∷ ss)) l g h =
    (tt, IsWell-SameLists (try_send-SameLists w s disconnected l) h)
advance-AreWell w (notified u n vis rs) l g h = next_room-AreWell u n vis rs l h
advance-AreWell w finished l g h = (tt, h)
advance-AreWell w (failed e) l g h = (tt, h)

turn-AreWell :
    (w : World) (i : ℕ) (ts : List Task) (l : Lobby)
    → All IsGood ts
    → IsWell l
    → All IsGood (turn w i ts l).0 × IsWell (turn w i ts l).1
unfolding turn
turn-AreWell w i [] l g h = (tt, h)
turn-AreWell w zero (t ∷ ts) l g h = let k = advance-AreWell w t l g.0 h in ((k.0, g.1), k.1)
turn-AreWell w (suc i) (t ∷ ts) l g h = let k = turn-AreWell w i ts l g.1 h in ((g.0, k.0), k.1)

abbrev PoolIsWell : Pool → Type 0
PoolIsWell p = All IsGood p.tasks × IsWell p.lobby

take_turn-PoolIsWell : (t : Turn) (p : Pool) → PoolIsWell p → PoolIsWell (take_turn t p)
unfolding take_turn
take_turn-PoolIsWell (connects sock user f) p (g, h) = (All-append IsGood p.tasks _ g (tt, tt), h)
take_turn-PoolIsWell (receives u msg) p (g, h) = (All-append IsGood p.tasks _ g (tt, tt), h)
take_turn-PoolIsWell (leaves u) p (g, h) = (All-append IsGood p.tasks _ g (tt, tt), h)
take_turn-PoolIsWell (runs w i) p (g, h) = turn-AreWell w i p.tasks p.lobby g h

run_turns-PoolIsWell : (ts : List Turn) (p : Pool) → PoolIsWell p → PoolIsWell (run_turns ts p)
unfolding run_turns
run_turns-PoolIsWell [] p h = h
run_turns-PoolIsWell (t ∷ ts) p h =
    run_turns-PoolIsWell ts (take_turn t p) (take_turn-PoolIsWell t p h)

-- From the empty lobby, every interleaving of connections, messages and disconnections at their
-- `await`s leads to a lobby in which no user waits twice, no room's name stands twice, every room is
-- for two different users with a socket each, and no user is counted twice among those who accepted
-- or entered.
pub run_turns-IsWell :
    (ts : List Turn) → IsWell (run_turns ts (record { tasks = []; lobby = empty })).lobby
run_turns-IsWell ts =
    (run_turns-PoolIsWell ts (record { tasks = []; lobby = empty })
      (tt, record { queue_keys = tt; room_keys = tt; pairs = tt; entered_set = tt })).1
