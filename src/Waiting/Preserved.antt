-- ===== src/Waiting/Preserved.antt =====
-- The lobby's invariant and the calls of the connections, errors and broken connections included.
use nalang_project.Prelude.{
  ℕ, String, ◌≡◌, refl, Bool, true, false, Option, none, some, List, [], ◌∷◌, ◌++◌, arith,
  if◌then◌else◌, ◌==◌, nat_eq, string_eq, length, nat_beq, Bool-cases, inl, inr, All,
}
use nalang_project.Dict.{
  Dict, HasDistinctKeys, insert-HasDistinctKeys, erase-HasDistinctKeys, All-erase, All-lookup,
  lookup, contains, insert,
}
use nalang_project.Json
use nalang_project.Json.{Json, is_text}
use nalang_project.Raise.{Result, ok, err, pure, modify, ◌>>◌}
use nalang_project.Raise.Keeps.{Keeps, Keeps-continue, Keeps-then, Keeps-if}
use nalang_project.Waiting.State.{
  Socket, MatchCandidate, Lobby, World, Message, matched, rejected, empty,
}
use nalang_project.Waiting.Disconnect.{
  handle_disconnect, drop_rooms, leave_queue, remove_rooms, rooms_of, discard,
}
use nalang_project.Waiting.Receive.{
  add, accept, reject, enter, close_room, send_all, requeue_partners, handle_receive_event,
  dispatch, in_room,
}
use nalang_project.Waiting.Session.{Event, connects, receives, leaves, step, run, close, or_close}
use nalang_project.Waiting.Leaving.{notify_rooms-SameLists, member-discard}
use nalang_project.Waiting.Closing.{close_lem}
use nalang_project.Waiting.Invariant.{
  IsWell, IsCandidate, IsSetOf, add-IsSetOf, send-IsWell, delete_profile-IsWell, unqueue-IsWell,
  close_room-IsWell, insert_room-IsWell, handle_connect-IsWell,
}

send_all-IsWell : (w : World) (m : Message) (ss : List Socket) → Keeps IsWell (send_all w m ss)
unfolding send_all
send_all-IsWell w m [] l h = h
send_all-IsWell w m (s ∷ ss) l h =
    Keeps-continue IsWell _ (λ _. send_all w m ss) (λ _. send_all-IsWell w m ss) _
      (send-IsWell w s m l h)

pub accepted_by-IsCandidate :
    (u : ℕ) (c : MatchCandidate)
    → IsCandidate c
    → IsCandidate (record c { accepted = add u c.accepted })
accepted_by-IsCandidate u c (p, s) = (
  record {
    user1 = p.user1;
    user2 = p.user2;
    ws1 = p.ws1;
    ws2 = p.ws2;
    ids = p.ids;
    socks = p.socks;
    distinct = p.distinct;
  },
  add-IsSetOf u c.accepted s,
)

accept-IsWell :
    (w : World) (u : ℕ) (room : String) (c : MatchCandidate)
    → IsCandidate c
    → Keeps IsWell (accept w u room c)
unfolding accept
accept-IsWell w u room c good l h =
    Keeps-if IsWell (nat_beq (length (add u c.accepted)) 2)
      (send_all w (matched room) c.sockets >> modify (close_room room)) (pure tt)
      (Keeps-then IsWell (send_all w (matched room) c.sockets) (modify (close_room room))
        (send_all-IsWell w (matched room) c.sockets) (close_room-IsWell room))
      (λ _ k. k) _
      (insert_room-IsWell room (record c { accepted = add u c.accepted }) l
        (accepted_by-IsCandidate u c good) h)

requeue_partners-IsWell :
    (w : World) (u : ℕ) (us : List ℕ) (ss : List Socket) (l : Lobby)
    → IsWell l
    → IsWell (requeue_partners w u us ss l)
unfolding requeue_partners
requeue_partners-IsWell w u [] ss l h = h
requeue_partners-IsWell w u (v ∷ us) [] l h = h
requeue_partners-IsWell w u (v ∷ us) (s ∷ ss) l h =
    requeue_partners-IsWell w u us ss _ (one (v == u) (w.online s))
  where
    one :
        (a b : Bool)
        → IsWell (
            if a
            then l
            else if b
            then record l {
              sent = l.sent ++ (s, rejected) ∷ [];
              waiting_users = insert v s l.waiting_users;
            }
            else l)
    one true b = h
    one false false = h
    one false true = record {
      queue_keys = insert-HasDistinctKeys v s l.waiting_users h.queue_keys;
      room_keys = h.room_keys;
      pairs = h.pairs;
      entered_set = h.entered_set;
    }

reject-IsWell :
    (w : World) (u : ℕ) (room : String) (c : MatchCandidate) (l : Lobby)
    → IsWell l
    → IsWell (reject w u room c l)
unfolding reject
reject-IsWell w u room c l h =
    close_room-IsWell room _ (requeue_partners-IsWell w u c.user_ids c.sockets l h)

pub enter-IsWell : (u : ℕ) (l : Lobby) → IsWell l → IsWell (enter u l)
unfolding enter
enter-IsWell u l h = record {
  queue_keys = h.queue_keys;
  room_keys = h.room_keys;
  pairs = h.pairs;
  entered_set = add-IsSetOf u l.entered_users h.entered_set;
}

dispatch-IsWell :
    (w : World) (u : ℕ) (event : Json) (room : String) (l : Lobby)
    → IsWell l
    → (o : Option MatchCandidate) → lookup room l.matching_candidates ≡ o
    → IsWell (dispatch w u event room o l).1
dispatch-IsWell w u event room l h none e = h
dispatch-IsWell w u event room l h (some c) e =
    Keeps-if IsWell (is_text "entered" event) (modify (enter u)) _ (enter-IsWell u)
      (Keeps-if IsWell (is_text "accept" event) (accept w u room c) _
        (accept-IsWell w u room c (All-lookup IsCandidate room c l.matching_candidates h.pairs e))
        (Keeps-if IsWell (is_text "rejected" event) (modify (reject w u room c)) (pure tt)
          (reject-IsWell w u room c) (λ _ k. k)))
      l h

in_room-IsWell : (w : World) (u : ℕ) (event room : Json) → Keeps IsWell (in_room w u event room)
in_room-IsWell w u event (Json.str room) l h = dispatch-IsWell w u event room l h _ refl
in_room-IsWell w u event _ l h = h

-- A message keeps the invariant, also one that raises.
pub handle_receive_event-IsWell :
    (w : World) (u : ℕ) (msg : Json) → Keeps IsWell (handle_receive_event w u msg)
unfolding handle_receive_event
handle_receive_event-IsWell w u msg l h =
    Keeps-continue IsWell (Json.get "event" msg) _
      (λ event l' h'.
        Keeps-continue IsWell (Json.get "room" msg) _ (λ room. in_room-IsWell w u event room) l' h')
      l h

leave_queue-IsWell : (u : ℕ) (l : Lobby) → IsWell l → IsWell (leave_queue u l)
unfolding leave_queue
leave_queue-IsWell u l h = elim (Bool-cases (contains u l.waiting_users)) [
  | inl e ↦ rw e (delete_profile-IsWell u _ (unqueue-IsWell u l h))
  | inr e ↦ rw e h
]

remove_rooms-IsWell :
    (rs : List String) (d : Dict String MatchCandidate)
    → HasDistinctKeys d × All (λ e. IsCandidate e.1) d
    → HasDistinctKeys (remove_rooms rs d) × All (λ e. IsCandidate e.1) (remove_rooms rs d)
unfolding remove_rooms
remove_rooms-IsWell [] d h = h
remove_rooms-IsWell (r ∷ rs) d h =
    remove_rooms-IsWell rs _ (erase-HasDistinctKeys r d h.0, All-erase IsCandidate r d h.1)

pub discard-IsSetOf : (u : ℕ) (xs : List ℕ) → IsSetOf xs → IsSetOf (discard u xs)
unfolding discard
discard-IsSetOf u [] h = tt
discard-IsSetOf u (x ∷ xs) h = ground (arith, discard-IsSetOf u xs h.1, member-discard u x xs)

drop_rooms-IsWell : (w : World) (u : ℕ) (l : Lobby) → IsWell l → IsWell (drop_rooms w u l)
unfolding drop_rooms
drop_rooms-IsWell w u l h =
    let same = notify_rooms-SameLists w u l.matching_candidates l in
    let kept = remove_rooms-IsWell (rooms_of u l.matching_candidates) _ (h.room_keys, h.pairs) in
    record {
      queue_keys = rw same.waiting h.queue_keys;
      room_keys = kept.0;
      pairs = kept.1;
      entered_set = rw same.entered h.entered_set;
    }

-- The end of a connection keeps the invariant.
pub handle_disconnect-IsWell :
    (w : World) (u : ℕ) (l : Lobby) → IsWell l → IsWell (handle_disconnect w u l)
unfolding handle_disconnect
handle_disconnect-IsWell w u l h =
    let d = drop_rooms-IsWell w u _ (leave_queue-IsWell u l h) in
    record {
      queue_keys = d.queue_keys;
      room_keys = d.room_keys;
      pairs = d.pairs;
      entered_set = discard-IsSetOf u _ d.entered_set;
    }

pub close-IsWell : (w : World) (u : ℕ) (b : Bool) (l : Lobby) → IsWell l → IsWell (close w u b l)
close-IsWell w u b l h = rw (close_lem w u b l) (handle_disconnect-IsWell w u l h)

or_close-IsWell :
    {A : Type 0} (w : World) (u : ℕ) (r : Result A) (l : Lobby)
    → IsWell l
    → IsWell (or_close w u (r, l))
or_close-IsWell w u (ok a) l h = h
or_close-IsWell w u (err e) l h = close-IsWell w u _ l h

-- One call of one connection keeps the invariant.
pub step-IsWell : (w : World) (e : Event) (l : Lobby) → IsWell l → IsWell (step w e l)
unfolding step
step-IsWell w (connects sock user f) l h =
    or_close-IsWell w user.id _ _ (handle_connect-IsWell w sock user f l h)
step-IsWell w (receives u msg) l h =
    or_close-IsWell w u _ _ (handle_receive_event-IsWell w u msg l h)
step-IsWell w (leaves u b) l h = close-IsWell w u b l h

run-IsWell : (es : List (World × Event)) (l : Lobby) → IsWell l → IsWell (run es l)
unfolding run
run-IsWell [] l h = h
run-IsWell ((w, e) ∷ es) l h = run-IsWell es (step w e l) (step-IsWell w e l h)

-- From the empty lobby every history of connections leads to a lobby in which no user waits twice,
-- no room's name stands twice, every room is for two different users with a socket each, and no
-- user is counted twice among those who accepted or entered.
pub run-empty-IsWell : (es : List (World × Event)) → IsWell (run es empty)
run-empty-IsWell es =
    run-IsWell es empty (record { queue_keys = tt; room_keys = tt; pairs = tt; entered_set = tt })
