-- ===== src/Waiting/LeavingSteps.antt =====
-- The lobby's invariant and the steps of Waiting.Tasks for `handle_disconnect`.
use nalang_project.Prelude.{
  ℕ, String, Bool, true, false, List, [], ◌∷◌, if◌then◌else◌, nat_beq, nat_eq, string_eq,
  Bool-cases, inl, inr, not, ◌&&◌, length,
}
use nalang_project.Dict.{Dict, contains}
use nalang_project.Waiting.State.{MatchCandidate, Lobby}
use nalang_project.Waiting.Invariant.{IsWell, close_room-IsWell, unqueue-IsWell}
use nalang_project.Waiting.Preserved.{discard-IsSetOf}
use nalang_project.Waiting.Tasks.{
  Task, mem_text, remove_all, scan_rooms, start_rooms, next_room, start_leaving,
}
use nalang_project.Waiting.Receive.{close_room}
use nalang_project.Waiting.Disconnect.{member}
use nalang_project.Waiting.Steps.{AreWell}

remove_all-AreWell : (u : ℕ) (rs : List String) (l : Lobby) → IsWell l → AreWell (remove_all u rs l)
unfolding remove_all
remove_all-AreWell u [] l h = (
  tt,
  record {
    queue_keys = h.queue_keys;
    room_keys = h.room_keys;
    pairs = h.pairs;
    entered_set = discard-IsSetOf u l.entered_users h.entered_set;
  },
)
remove_all-AreWell u (room ∷ rs) l h = elim (Bool-cases (contains room l.matching_candidates)) [
  | inl e ↦ rw e (remove_all-AreWell u rs (close_room room l) (close_room-IsWell room l h))
  | inr e ↦ rw e (tt, h)
]

either-AreWell :
    (b : Bool) (x y : Task × Lobby) → AreWell x → AreWell y → AreWell (if b then x else y)
either-AreWell true x y h k = h
either-AreWell false x y h k = k

scan_rooms-AreWell :
    (u n : ℕ) (d : Dict String MatchCandidate) (vis rs : List String) (l : Lobby)
    → IsWell l
    → AreWell (scan_rooms u n vis rs d l)
unfolding scan_rooms
scan_rooms-AreWell u n [] vis rs l h = remove_all-AreWell u rs l h
scan_rooms-AreWell u n ((room, c) ∷ d) vis rs l h =
    either-AreWell
      (not (mem_text room vis) && member u c.user_ids && not (member u l.entered_users)) _ _ (tt, h)
      (scan_rooms-AreWell u n d _ _ l h)

pub start_rooms-AreWell : (u : ℕ) (l : Lobby) → IsWell l → AreWell (start_rooms u l)
unfolding start_rooms
start_rooms-AreWell u l h = scan_rooms-AreWell u _ l.matching_candidates [] [] l h

pub next_room-AreWell :
    (u n : ℕ) (vis rs : List String) (l : Lobby) → IsWell l → AreWell (next_room u n vis rs l)
unfolding next_room
next_room-AreWell u n vis rs l h =
    either-AreWell (nat_beq (length l.matching_candidates) n) _ _
      (scan_rooms-AreWell u n l.matching_candidates vis rs l h) (tt, h)

pub start_leaving-AreWell : (u : ℕ) (l : Lobby) → IsWell l → AreWell (start_leaving u l)
unfolding start_leaving
start_leaving-AreWell u l h =
    either-AreWell (contains u l.waiting_users) _ _ (tt, unqueue-IsWell u l h)
      (start_rooms-AreWell u l h)
