-- ===== src/Waiting/Leaving.antt =====
-- What `handle_disconnect` does to the lists of the lobby, for the user and for all others.
use nalang_project.Prelude.{
  ℕ, String, ◌≡◌, refl, Bool, false, Option, none, some, List, [], ◌∷◌, any, arith, if◌then◌else◌,
  ◌==◌, nat_eq, string_eq, nat_beq_iff, ==_iff,
}
use nalang_project.Dict.{Dict, lookup, erase, lookup-erase, HasDistinctKeys, erase-HasDistinctKeys}
use nalang_project.Waiting.State.{
  Socket, MatchCandidate, Lobby, World, Message, try_send, delete_profile,
}
use nalang_project.Waiting.Disconnect.{
  member, leave_queue, notify_all, notify_rooms, rooms_of, remove_rooms, discard, drop_rooms,
  handle_disconnect,
}

-- Only messages and Redis differ.
pub record SameLists (a b : Lobby) : Type 0 where
  pub waiting : a.waiting_users ≡ b.waiting_users
  pub rooms : a.matching_candidates ≡ b.matching_candidates
  pub entered : a.entered_users ≡ b.entered_users

pub SameLists-trans : {a b c : Lobby} → SameLists a b → SameLists b c → SameLists a c
SameLists-trans p q = ground arith

pub try_send-SameLists :
    (w : World) (s : Socket) (m : Message) (l : Lobby) → SameLists (try_send w s m l) l
unfolding try_send
try_send-SameLists w s m l = ground arith

pub notify_all-SameLists :
    (w : World) (m : Message) (ss : List Socket) (l : Lobby) → SameLists (notify_all w m ss l) l
unfolding notify_all
notify_all-SameLists w m [] l = record { waiting = refl; rooms = refl; entered = refl }
notify_all-SameLists w m (s ∷ ss) l =
    SameLists-trans (notify_all-SameLists w m ss (try_send w s m l)) (try_send-SameLists w s m l)

notify_room-SameLists :
    (w : World) (u : ℕ) (m : Message) (b : Bool) (ss : List Socket) (l : Lobby)
    → SameLists (if b then delete_profile u (notify_all w m ss l) else l) l
unfolding delete_profile
notify_room-SameLists w u m b ss l = ground (arith, notify_all-SameLists w m ss l)

pub notify_rooms-SameLists :
    (w : World) (u : ℕ) (d : Dict String MatchCandidate) (l : Lobby)
    → SameLists (notify_rooms w u d l) l
unfolding notify_rooms
notify_rooms-SameLists w u [] l = record { waiting = refl; rooms = refl; entered = refl }
notify_rooms-SameLists w u ((r, c) ∷ d) l =
    SameLists-trans (notify_rooms-SameLists w u d _) (notify_room-SameLists w u _ _ c.sockets l)

-- ---- the rooms

abbrev mem_text : String → List String → Bool
mem_text r rs = any (λ s. s == r) rs

lookup-remove_rooms :
    (rs : List String) (d : Dict String MatchCandidate) (r : String)
    → lookup r (remove_rooms rs d) ≡ (if mem_text r rs then none else lookup r d)
unfolding remove_rooms
lookup-remove_rooms [] d r = refl
lookup-remove_rooms (k ∷ rs) d r =
    rw (lookup-remove_rooms rs (erase k d) r, lookup-erase k r d) (ground arith)

abbrev pub without_user : ℕ → Option MatchCandidate → Option MatchCandidate
without_user u none = none
without_user u (some c) = if member u c.user_ids then none else some c

pub rooms_of-absent :
    (u : ℕ) (d : Dict String MatchCandidate) (r : String)
    → lookup r d ≡ none
    → mem_text r (rooms_of u d) ≡ false
unfolding rooms_of
rooms_of-absent u [] r h = refl
rooms_of-absent u ((k, c) ∷ d) r h = ground (arith, rooms_of-absent u d r)

lookup-rooms_of :
    (u : ℕ) (d : Dict String MatchCandidate) (r : String)
    → HasDistinctKeys d
    → (if mem_text r (rooms_of u d) then none else lookup r d) ≡ without_user u (lookup r d)
unfolding rooms_of
lookup-rooms_of u [] r h = refl
lookup-rooms_of u ((k, c) ∷ d) r h =
    ground (arith, lookup-rooms_of u d r h.1, ==_iff k r, rooms_of-absent u d r)

remove_rooms-HasDistinctKeys :
    (rs : List String) (d : Dict String MatchCandidate)
    → HasDistinctKeys d
    → HasDistinctKeys (remove_rooms rs d)
unfolding remove_rooms
remove_rooms-HasDistinctKeys [] d h = h
remove_rooms-HasDistinctKeys (k ∷ rs) d h =
    remove_rooms-HasDistinctKeys rs (erase k d) (erase-HasDistinctKeys k d h)

pub member-discard :
    (u v : ℕ) (xs : List ℕ) → member v (discard u xs) ≡ (if u == v then false else member v xs)
unfolding discard
member-discard u v [] = ground arith
member-discard u v (x ∷ xs) = ground (arith, member-discard u v xs)

lookup-leave_queue :
    (u v : ℕ) (l : Lobby)
    → lookup v (leave_queue u l).waiting_users ≡ (if u == v then none else lookup v l.waiting_users)
unfolding leave_queue delete_profile
lookup-leave_queue u v l = ground (arith, lookup-erase u v l.waiting_users, nat_beq_iff u v)

leave_queue_rooms :
    (u : ℕ) (l : Lobby) → (leave_queue u l).matching_candidates ≡ l.matching_candidates
unfolding leave_queue delete_profile
leave_queue_rooms u l = ground arith

leave_queue_entered : (u : ℕ) (l : Lobby) → (leave_queue u l).entered_users ≡ l.entered_users
unfolding leave_queue delete_profile
leave_queue_entered u l = ground arith

module _ (w : World) (u : ℕ) (l : Lobby) where
  -- The queue loses the user, and nobody else.
  pub waiting-handle_disconnect :
      (v : ℕ)
      → lookup v (handle_disconnect w u l).waiting_users
        ≡ (if u == v then none else lookup v l.waiting_users)
  unfolding handle_disconnect drop_rooms
  waiting-handle_disconnect v =
      rw
        ((notify_rooms-SameLists w u (leave_queue u l).matching_candidates
          (leave_queue u l)).waiting)
        (lookup-leave_queue u v l)

  -- If every room's name stands once, the user's rooms are gone after `handle_disconnect`, and every
  -- other room is as it was, with its candidates and those who accepted.
  pub rooms-handle_disconnect :
      HasDistinctKeys l.matching_candidates
      → (r : String)
      → lookup r (handle_disconnect w u l).matching_candidates
        ≡ without_user u (lookup r l.matching_candidates)
  unfolding handle_disconnect drop_rooms
  rooms-handle_disconnect h r =
      rw (leave_queue_rooms u l, lookup-remove_rooms) (lookup-rooms_of u l.matching_candidates r h)

  pub entered-handle_disconnect :
      (v : ℕ)
      → member v (handle_disconnect w u l).entered_users
        ≡ (if u == v then false else member v l.entered_users)
  unfolding handle_disconnect drop_rooms
  entered-handle_disconnect v =
      rw
        (
          (notify_rooms-SameLists w u (leave_queue u l).matching_candidates
              (leave_queue u l)).entered,
          leave_queue_entered u l,
        )
        (member-discard u v l.entered_users)

  pub keys-handle_disconnect :
      HasDistinctKeys l.matching_candidates
      → HasDistinctKeys (handle_disconnect w u l).matching_candidates
  unfolding handle_disconnect drop_rooms
  keys-handle_disconnect h =
      rw (leave_queue_rooms u l)
        (remove_rooms-HasDistinctKeys (rooms_of u l.matching_candidates) l.matching_candidates h)
