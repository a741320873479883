-- ===== src/Waiting/Closing.antt =====
-- Laws of `handle_disconnect`, which is called twice when a connection breaks.
use nalang_project.Prelude.{
  ℕ, String, ◌≡◌, refl, ◌∙◌, Bool, true, false, none, List, [], ◌∷◌, any, All, arith, ◌==◌, nat_eq,
  string_eq, ==_refl, ==_iff,
}
use nalang_project.Dict.{Dict, lookup, erase}
use nalang_project.Waiting.State.{MatchCandidate, Lobby, World}
use nalang_project.Waiting.Disconnect.{
  member, leave_queue, notify_rooms, rooms_of, remove_rooms, discard, drop_rooms, handle_disconnect,
}
use nalang_project.Waiting.Session.{close}
use nalang_project.Waiting.Leaving.{waiting-handle_disconnect, entered-handle_disconnect}

abbrev has_text : String → List String → Bool
has_text r rs = any (λ s. s == r) rs

-- Every room with the user in it is on the list `rs`.
abbrev Covered : ℕ → List String → Dict String MatchCandidate → Type 0
Covered u rs d = All (λ e. member u e.1.user_ids ≡ true → has_text e.0 rs ≡ true) d

Covered-erase :
    (u : ℕ) (r : String) (rs : List String) (d : Dict String MatchCandidate)
    → Covered u (r ∷ rs) d
    → Covered u rs (erase r d)
Covered-erase u r rs [] h = tt
Covered-erase u r rs ((k, c) ∷ d) h =
    ground (arith, Covered-erase u r rs d h.1, ==_iff k r, ==_iff r k)

rooms_of-Covered : (u : ℕ) (d : Dict String MatchCandidate) → Covered u [] d → rooms_of u d ≡ []
unfolding rooms_of
rooms_of-Covered u [] h = refl
rooms_of-Covered u ((k, c) ∷ d) h = ground (arith, rooms_of-Covered u d h.1)

rooms_of-remove_rooms :
    (u : ℕ) (rs : List String) (d : Dict String MatchCandidate)
    → Covered u rs d
    → rooms_of u (remove_rooms rs d) ≡ []
unfolding remove_rooms
rooms_of-remove_rooms u [] d h = rooms_of-Covered u d h
rooms_of-remove_rooms u (r ∷ rs) d h =
    rooms_of-remove_rooms u rs (erase r d) (Covered-erase u r rs d h)

Covered-rooms_of :
    (u : ℕ) (rs : List String) (d : Dict String MatchCandidate)
    → ((r : String) → has_text r (rooms_of u d) ≡ true → has_text r rs ≡ true)
    → Covered u rs d
unfolding rooms_of
Covered-rooms_of u rs [] h = tt
Covered-rooms_of u rs ((k, c) ∷ d) h =
    (λ m. h k (ground (arith, ==_refl k)), Covered-rooms_of u rs d (λ r t. h r (ground arith)))

-- No room is left with the user in it.
pub rooms_of-drop_rooms :
    (w : World) (u : ℕ) (l : Lobby) → rooms_of u (drop_rooms w u l).matching_candidates ≡ []
unfolding drop_rooms
rooms_of-drop_rooms w u l =
    rooms_of-remove_rooms u (rooms_of u l.matching_candidates) l.matching_candidates
      (Covered-rooms_of u (rooms_of u l.matching_candidates) l.matching_candidates (λ r t. t))

notify_rooms-none :
    (w : World) (u : ℕ) (d : Dict String MatchCandidate) (l : Lobby)
    → rooms_of u d ≡ []
    → notify_rooms w u d l ≡ l
unfolding notify_rooms rooms_of
notify_rooms-none w u [] l h = refl
notify_rooms-none w u ((k, c) ∷ d) l h = ground (arith, notify_rooms-none w u d l)

discard-absent : (u : ℕ) (xs : List ℕ) → member u xs ≡ false → discard u xs ≡ xs
unfolding discard
discard-absent u [] h = refl
discard-absent u (x ∷ xs) h = ground (arith, discard-absent u xs)

-- A user who is nowhere in the lobby.
pub record IsGone (u : ℕ) (l : Lobby) : Type 0 where
  pub waiting : lookup u l.waiting_users ≡ none
  pub rooms : rooms_of u l.matching_candidates ≡ []
  pub entered : member u l.entered_users ≡ false

leave_queue_same : (u : ℕ) (l : Lobby) → lookup u l.waiting_users ≡ none → leave_queue u l ≡ l
unfolding leave_queue
leave_queue_same u l h = ground arith

drop_rooms_same :
    (w : World) (u : ℕ) (l : Lobby) → rooms_of u l.matching_candidates ≡ [] → drop_rooms w u l ≡ l
unfolding drop_rooms remove_rooms
drop_rooms_same w u l h = ground (arith, notify_rooms-none w u l.matching_candidates l h)

handle_disconnect-gone : (w : World) (u : ℕ) (l : Lobby) → IsGone u l → handle_disconnect w u l ≡ l
unfolding handle_disconnect
handle_disconnect-gone w u l g = cc (
  leave_queue_same u l g.waiting,
  drop_rooms_same w u l g.rooms,
  discard-absent u l.entered_users g.entered,
)

-- After `handle_disconnect` the user is in no queue, in no room and has not entered.
pub handle_disconnect-IsGone : (w : World) (u : ℕ) (l : Lobby) → IsGone u (handle_disconnect w u l)
handle_disconnect-IsGone w u l = record {
  waiting = waiting-handle_disconnect w u l u ∙ ground arith;
  rooms = unfold handle_disconnect in rooms_of-drop_rooms w u (leave_queue u l);
  entered = entered-handle_disconnect w u l u ∙ ground arith;
}

-- A second call, whatever has happened to the sockets since, sends nothing and changes nothing.
pub handle_disconnect_idem :
    (w w' : World) (u : ℕ) (l : Lobby)
    → handle_disconnect w' u (handle_disconnect w u l) ≡ handle_disconnect w u l
handle_disconnect_idem w w' u l =
    handle_disconnect-gone w' u (handle_disconnect w u l) (handle_disconnect-IsGone w u l)

pub close_lem : (w : World) (u : ℕ) (b : Bool) (l : Lobby) → close w u b l ≡ handle_disconnect w u l
unfolding close
close_lem w u true l = handle_disconnect_idem w w u l
close_lem w u false l = refl
