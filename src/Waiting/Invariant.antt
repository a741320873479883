-- ===== src/Waiting/Invariant.antt =====
-- The invariant of the lobby, and `handle_connect`.
use nalang_project.Prelude.{
  ℕ, zero, suc, String, ◌≡◌, refl, ◌≢◌, true, false, Option, none, some, List, [], ◌∷◌, ◌++◌, All,
  arith, if◌then◌else◌, ◌==◌, nat_eq, string_eq, ==_iff,
}
use nalang_project.Dict.{
  HasDistinctKeys, insert-HasDistinctKeys, erase-HasDistinctKeys, All-insert, All-erase, insert,
  erase,
}
use nalang_project.Raise.{Result, ok, err, continue}
use nalang_project.Raise.Keeps.{Keeps, Keeps-then}
use nalang_project.Models.{User}
use nalang_project.Waiting.Filter.{Filters, UserData}
use nalang_project.Waiting.State.{
  Socket, MatchCandidate, Lobby, World, Message, send, delete_profile,
}
use nalang_project.Waiting.Connect.{
  handle_connect, settle, propose, enqueue, store_profile, find_match, user_data_of, room_name,
  open_room, announce,
}
use nalang_project.Waiting.Matching.{find_match-Found}
use nalang_project.Waiting.Disconnect.{member}
use nalang_project.Waiting.Receive.{add, close_room}
use nalang_project.Waiting.Leaving.{SameLists}

-- Two different users, a socket for each, and nobody counted twice among those who accepted.
pub record IsPair (c : MatchCandidate) : Type 0 where
  pub user1 : ℕ
  pub user2 : ℕ
  pub ws1 : Socket
  pub ws2 : Socket
  pub ids : c.user_ids ≡ user1 ∷ user2 ∷ []
  pub socks : c.sockets ≡ ws1 ∷ ws2 ∷ []
  pub distinct : user1 ≢ user2

abbrev pub IsSetOf : List ℕ → Type 0
IsSetOf [] = Unit
IsSetOf (x ∷ xs) = (member x xs ≡ false) × IsSetOf xs

abbrev pub IsCandidate : MatchCandidate → Type 0
IsCandidate c = IsPair c × IsSetOf c.accepted

pub record IsWell (l : Lobby) : Type 0 where
  pub queue_keys : HasDistinctKeys l.waiting_users
  pub room_keys : HasDistinctKeys l.matching_candidates
  pub pairs : All (λ e. IsCandidate e.1) l.matching_candidates
  pub entered_set : IsSetOf l.entered_users

pub IsWell-SameLists : {a b : Lobby} → SameLists a b → IsWell b → IsWell a
IsWell-SameLists {a} {b} p h = record {
  queue_keys = rw p.waiting h.queue_keys;
  room_keys = rw p.rooms h.room_keys;
  pairs = rw p.rooms h.pairs;
  entered_set = rw p.entered h.entered_set;
}

member-add :
    (a b : ℕ) (xs : List ℕ) → member b (xs ++ a ∷ []) ≡ (if a == b then true else member b xs)
member-add a b [] = ground arith
member-add a b (x ∷ xs) = ground (arith, member-add a b xs)

IsSetOf-snoc : (a : ℕ) (xs : List ℕ) → member a xs ≡ false → IsSetOf xs → IsSetOf (xs ++ a ∷ [])
IsSetOf-snoc a [] m h = (refl, tt)
IsSetOf-snoc a (x ∷ xs) m h = ground (arith, IsSetOf-snoc a xs, member-add a x xs, ==_iff a x)

pub add-IsSetOf : (a : ℕ) (xs : List ℕ) → IsSetOf xs → IsSetOf (add a xs)
add-IsSetOf a xs h = ground (arith, IsSetOf-snoc a xs)

pub send-IsWell : (w : World) (s : Socket) (m : Message) → Keeps IsWell (send w s m)
unfolding send
send-IsWell w s m l h = IsWell-SameLists (ground arith) h

pub delete_profile-IsWell : (u : ℕ) (l : Lobby) → IsWell l → IsWell (delete_profile u l)
unfolding delete_profile
delete_profile-IsWell u l h = IsWell-SameLists (ground arith) h

pub enqueue-IsWell : (u : ℕ) (sock : Socket) (l : Lobby) → IsWell l → IsWell (enqueue u sock l)
unfolding enqueue
enqueue-IsWell u sock l h = record {
  queue_keys = insert-HasDistinctKeys u sock l.waiting_users h.queue_keys;
  room_keys = h.room_keys;
  pairs = h.pairs;
  entered_set = h.entered_set;
}

pub insert_room-IsWell :
    (room : String) (c : MatchCandidate) (l : Lobby)
    → IsCandidate c
    → IsWell l
    → IsWell (record l { matching_candidates = insert room c l.matching_candidates })
insert_room-IsWell room c l good h = record {
  queue_keys = h.queue_keys;
  room_keys = insert-HasDistinctKeys room c l.matching_candidates h.room_keys;
  pairs = All-insert IsCandidate room c l.matching_candidates good h.pairs;
  entered_set = h.entered_set;
}

pub close_room-IsWell : (room : String) (l : Lobby) → IsWell l → IsWell (close_room room l)
unfolding close_room
close_room-IsWell room l h = record {
  queue_keys = h.queue_keys;
  room_keys = erase-HasDistinctKeys room l.matching_candidates h.room_keys;
  pairs = All-erase IsCandidate room l.matching_candidates h.pairs;
  entered_set = h.entered_set;
}

pub unqueue-IsWell :
    (u : ℕ) (l : Lobby) → IsWell l → IsWell (record l { waiting_users = erase u l.waiting_users })
unqueue-IsWell u l h = record {
  queue_keys = erase-HasDistinctKeys u l.waiting_users h.queue_keys;
  room_keys = h.room_keys;
  pairs = h.pairs;
  entered_set = h.entered_set;
}

pub open_room-IsWell :
    (w : World) (ws1 ws2 : Socket) (a b : ℕ) (l : Lobby)
    → a ≢ b
    → IsWell l
    → IsWell (open_room w ws1 ws2 a b l)
unfolding open_room
open_room-IsWell w ws1 ws2 a b l ne h = record {
  queue_keys = erase-HasDistinctKeys b l.waiting_users h.queue_keys;
  room_keys = insert-HasDistinctKeys (room_name w a b) _ l.matching_candidates h.room_keys;
  pairs =
      All-insert IsCandidate (room_name w a b) _ l.matching_candidates
        (
          record {
            user1 = a;
            user2 = b;
            ws1 = ws1;
            ws2 = ws2;
            ids = refl;
            socks = refl;
            distinct = ne;
          },
          tt,
        )
        h.pairs;
  entered_set = h.entered_set;
}

announce-IsWell : (w : World) (ws1 ws2 : Socket) (a b : ℕ) → Keeps IsWell (announce w ws1 ws2 a b)
unfolding announce
announce-IsWell w ws1 ws2 a b = Keeps-then IsWell (send w ws1 _) _ (send-IsWell w ws1 _) (
    Keeps-then IsWell (send w ws2 _) _ (send-IsWell w ws2 _)
      (λ l h. delete_profile-IsWell b _ (delete_profile-IsWell a l h)))

propose-IsWell : (w : World) (ws : Socket) (a b : ℕ) → a ≢ b → Keeps IsWell (propose w ws a b)
unfolding propose
propose-IsWell w ws a b ne l h = announce-IsWell w ws _ a b _ (open_room-IsWell w ws _ a b l ne h)

settle-IsWell :
    (w : World) (sock : Socket) (u : ℕ) (found : Option ℕ)
    → ((k : ℕ) → found ≡ some k → u ≢ k)
    → Keeps IsWell (settle w sock u found)
unfolding settle
settle-IsWell w sock u none ne l h = enqueue-IsWell u sock l h
settle-IsWell w sock u (some zero) ne l h = enqueue-IsWell u sock l h
settle-IsWell w sock u (some (suc k)) ne l h = propose-IsWell w sock u (suc k) (ne (suc k) refl) l h

pub store_profile-IsWell :
    (w : World) (mine : UserData) (f : Filters) (l : Lobby)
    → IsWell l
    → IsWell (store_profile w mine f l)
unfolding store_profile
store_profile-IsWell w mine f l h = IsWell-SameLists (ground arith) h

-- A connecting user joins the queue or a room with somebody else.
pub handle_connect-IsWell :
    (w : World) (sock : Socket) (user : User) (f : Filters)
    → Keeps IsWell (handle_connect w sock user f)
unfolding handle_connect
handle_connect-IsWell w sock user f l h = go (find_match w l1.redis mine f l1.waiting_users) refl
  where
    mine : UserData
    mine = user_data_of user

    l1 : Lobby
    l1 = store_profile w mine f l

    go :
        (r : Result (Option ℕ))
        → find_match w l1.redis mine f l1.waiting_users ≡ r
        → IsWell (continue r (settle w sock user.id) l1).1
    go (ok found) e =
        settle-IsWell w sock user.id found
          (λ k p q.
            (find_match-Found w l1.redis mine f l1.waiting_users k (rw (← p) e)).suits_both.other
              (rw (← q) (unfold user_data_of in refl)))
          l1 (store_profile-IsWell w mine f l h)
    go (err x) e = store_profile-IsWell w mine f l h
