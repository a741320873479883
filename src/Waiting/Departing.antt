-- ===== src/Waiting/Departing.antt =====
-- A coroutine that is not interrupted: the steps of Waiting.Tasks for `handle_disconnect`.
use nalang_project.Prelude.{
  ℕ, String, ◌≡◌, refl, ap, Bool, true, false, ◌||◌, none, some, List, [], ◌∷◌, ◌++◌, map, All,
  arith, if◌then◌else◌, ◌==◌, nat_eq, string_eq, ==_refl, ==_iff,
}
use nalang_project.Dict.{Dict, lookup, contains, is_some, erase, lookup-erase, HasDistinctKeys}
use nalang_project.Waiting.State.{
  Socket, MatchCandidate, Lobby, World, disconnected, try_send, delete_profile,
}
use nalang_project.Waiting.Receive.{close_room}
use nalang_project.Waiting.Leaving.{rooms_of-absent}
use nalang_project.Waiting.Disconnect.{member, notify_all, rooms_of, remove_rooms, discard}
use nalang_project.Waiting.Tasks.{
  Task, notifying, notified, finished, mem_text, remove_all, scan_rooms, advance,
}
use nalang_project.Waiting.Reaching.{Reaches, next}

-- The names of a dictionary's entries.
abbrev pub names : Dict String MatchCandidate → List String
names d = map (λ e. e.0) d

abbrev AreNew : List String → Type 0
AreNew [] = Unit
AreNew (r ∷ rs) = (mem_text r rs ≡ false) × AreNew rs

-- The end of the handler, from the lobby after the loop.
abbrev pub ended_with : ℕ → List String → Lobby → Lobby
ended_with u rs l = record l {
  matching_candidates = remove_rooms rs l.matching_candidates;
  entered_users = discard u l.entered_users;
}

kept_others :
    (r : String) (rs : List String) (d : Dict String MatchCandidate)
    → mem_text r rs ≡ false
    → All (λ s. contains s d ≡ true) rs
    → All (λ s. contains s (erase r d) ≡ true) rs
kept_others r [] d n h = tt
kept_others r (s ∷ rs) d n h =
    ground (arith, lookup-erase r s d, ==_iff r s, ==_iff s r, kept_others r rs d)

pub remove_all_lem :
    (u : ℕ) (rs : List String) (l : Lobby)
    → AreNew rs
    → All (λ r. contains r l.matching_candidates ≡ true) rs
    → remove_all u rs l ≡ (finished, ended_with u rs l)
unfolding remove_all remove_rooms close_room
remove_all_lem u [] l n h = refl
remove_all_lem u (r ∷ rs) l n h =
    rw h.0
      (remove_all_lem u rs (close_room r l) n.1 (kept_others r rs l.matching_candidates n.0 h.1))

pub rooms_of-AreNew :
    (u : ℕ) (d : Dict String MatchCandidate) → HasDistinctKeys d → AreNew (rooms_of u d)
unfolding rooms_of
rooms_of-AreNew u [] h = tt
rooms_of-AreNew u ((k, c) ∷ d) h =
    ground (arith, rooms_of-AreNew u d h.1, rooms_of-absent u d k h.0)

pub rooms_of_known :
    (u : ℕ) (d e : Dict String MatchCandidate)
    → ((r : String) → contains r d ≡ true → contains r e ≡ true)
    → All (λ r. contains r e ≡ true) (rooms_of u d)
unfolding rooms_of
rooms_of_known u [] e h = tt
rooms_of_known u ((k, c) ∷ d) e h =
    both (member u c.user_ids) (h k (rw (==_refl k) refl))
      (rooms_of_known u d e (λ j x. h j (later (k == j) j x)))
  where
    later :
        (b : Bool) (j : String)
        → contains j d ≡ true
        → is_some (if b then some c else lookup j d) ≡ true
    later true j x = refl
    later false j x = x

    both :
        (b : Bool)
        → contains k e ≡ true
        → All (λ r. contains r e ≡ true) (rooms_of u d)
        → All (λ r. contains r e ≡ true) (if b then k ∷ rooms_of u d else rooms_of u d)
    both true x xs = (x, xs)
    both false x xs = xs

pub notifying-Reaches :
    (w : World) (q : Task × Lobby) (u size : ℕ) (vis rs : List String) (room : String)
    (ss : List Socket) (l : Lobby)
    → Reaches w q
        (notified u size vis (rs ++ room ∷ []), delete_profile u (notify_all w disconnected ss l))
    → Reaches w q (notifying u size vis rs room ss, l)
unfolding advance notify_all
notifying-Reaches w q u size vis rs room [] l h = next _ l h
notifying-Reaches w q u size vis rs room (s ∷ ss) l h =
    next _ l (notifying-Reaches w q u size vis rs room ss (try_send w s disconnected l) h)

-- Rooms that the loop has come to are passed.
pub scan_rooms-old :
    (u size : ℕ) (vis rs : List String) (pre rest : Dict String MatchCandidate) (l : Lobby)
    → All (λ r. mem_text r vis ≡ true) (names pre)
    → scan_rooms u size vis rs (pre ++ rest) l ≡ scan_rooms u size vis rs rest l
unfolding scan_rooms
scan_rooms-old u size vis rs [] rest l h = refl
scan_rooms-old u size vis rs ((r, c) ∷ pre) rest l h =
    rw h.0 (scan_rooms-old u size vis rs pre rest l h.1)

pub names_old :
    (d e : Dict String MatchCandidate)
    → ((r : String) → mem_text r (names d) ≡ true → mem_text r (names e) ≡ true)
    → All (λ r. mem_text r (names e) ≡ true) (names d)
names_old [] e h = tt
names_old ((k, c) ∷ d) e h =
    (h k (rw (==_refl k) refl), names_old d e (λ j x. h j (later (k == j) _ x)))
  where
    later : (b x : Bool) → x ≡ true → (b || x) ≡ true
    later true x e = refl
    later false x e = e

pub name_new :
    (pre rest : Dict String MatchCandidate) (room : String) (c : MatchCandidate)
    → HasDistinctKeys (pre ++ (room, c) ∷ rest)
    → mem_text room (names pre) ≡ false
name_new [] rest room c h = refl
name_new ((k, e) ∷ pre) rest room c h = rw (differs pre h.0) (name_new pre rest room c h.1)
  where
    differs :
        (pre : Dict String MatchCandidate)
        → lookup k (pre ++ (room, c) ∷ rest) ≡ none
        → (k == room) ≡ false
    differs [] h = ground (arith, ==_iff room k, ==_iff k room)
    differs ((j, e) ∷ pre) h = ground (arith, differs pre)

pub names-snoc :
    (pre : Dict String MatchCandidate) (room : String) (c : MatchCandidate)
    → names (pre ++ (room, c) ∷ []) ≡ names pre ++ room ∷ []
names-snoc [] room c = refl
names-snoc ((k, e) ∷ pre) room c = ap (λ rs. k ∷ rs) (names-snoc pre room c)

pub rooms_of-snoc :
    (u : ℕ) (pre : Dict String MatchCandidate) (room : String) (c : MatchCandidate)
    → rooms_of u (pre ++ (room, c) ∷ [])
      ≡ (if member u c.user_ids then rooms_of u pre ++ room ∷ [] else rooms_of u pre)
unfolding rooms_of
rooms_of-snoc u [] room c = refl
rooms_of-snoc u ((k, e) ∷ pre) room c = ground (arith, rooms_of-snoc u pre room c)
