-- ===== src/Waiting/Steps.antt =====
-- The lobby's invariant and the steps of Waiting.Tasks for `handle_connect` and
-- `handle_receive_event`.
use nalang_project.Prelude.{
  ℕ, zero, suc, String, ◌≡◌, refl, sym, ◌≢◌, Bool, true, false, Option, none, some, List, [], ◌∷◌,
  ◌++◌, arith, if◌then◌else◌, nat_beq, ◌==◌, nat_eq, string_eq, ==_iff, Bool-cases, inl, inr,
}
use nalang_project.Dict.{Dict, lookup, contains, All-lookup}
use nalang_project.Json.{Json, is_text}
use nalang_project.Raise.{Result, ok, err}
use nalang_project.Models.{User}
use nalang_project.Waiting.Filter.{Filters}
use nalang_project.Waiting.State.{
  Socket, MatchCandidate, Value, Lobby, World, Message, rejected, send,
}
use nalang_project.Waiting.Connect.{user_data_of, suits}
use nalang_project.Waiting.Invariant.{
  IsWell, IsCandidate, IsWell-SameLists, send-IsWell, enqueue-IsWell, close_room-IsWell,
  insert_room-IsWell, open_room-IsWell,
}
use nalang_project.Waiting.Preserved.{accepted_by-IsCandidate, enter-IsWell}
use nalang_project.Waiting.Tasks.{
  Task, asking, answered, announcing, turned_down, finished, look, pop_partner, take_partner,
  decide, consider, after_send, del_room, next_partner, start_accept, start_dispatch, start_in_room,
}
use nalang_project.Waiting.Receive.{close_room}

-- A coroutine never considers its own user as a partner.
abbrev pub IsGood : Task → Type 0
IsGood (asking sock user filters other others) = other ≢ user.id
IsGood (answered sock user filters other others v) = other ≢ user.id
IsGood _ = Unit

abbrev pub AreWell : Task × Lobby → Type 0
AreWell (t, l) = IsGood t × IsWell l

pub look-AreWell :
    (sock : Socket) (user : User) (f : Filters) (q : Dict ℕ Socket) (l : Lobby)
    → IsWell l
    → AreWell (look sock user f q l)
unfolding look
look-AreWell sock user f [] l h = (tt, enqueue-IsWell user.id sock l h)
look-AreWell sock user f ((id, ws) ∷ q) l h = elim (Bool-cases (id == user.id)) [
  | inl e ↦ rw e (look-AreWell sock user f q l h)
  | inr e ↦ rw e ((λ p. cc (e, (==_iff id user.id).1 p)), h)
]

pop_partner-AreWell :
    (w : World) (sock : Socket) (id other : ℕ) (o : Option Socket) (l : Lobby)
    → id ≢ other
    → IsWell l
    → AreWell (pop_partner w sock id other o l)
pop_partner-AreWell w sock id other none l ne h = (tt, h)
pop_partner-AreWell w sock id other (some ws) l ne h =
    (tt, open_room-IsWell w sock ws id other l ne h)

take_partner-AreWell :
    (w : World) (sock : Socket) (id other : ℕ) (l : Lobby)
    → other ≢ id
    → IsWell l
    → AreWell (take_partner w sock id other l)
take_partner-AreWell w sock id zero l ne h = (tt, enqueue-IsWell id sock l h)
take_partner-AreWell w sock id (suc k) l ne h =
    pop_partner-AreWell w sock id (suc k) (lookup (suc k) l.waiting_users) l (λ e. ne (sym e)) h

decide-AreWell :
    (w : World) (sock : Socket) (user : User) (other : ℕ) (r : Result Bool) (rest : Task × Lobby)
    (l : Lobby)
    → other ≢ user.id
    → AreWell rest
    → IsWell l
    → AreWell (decide w sock user other r rest l)
decide-AreWell w sock user other (ok true) rest l ne k h =
    take_partner-AreWell w sock user.id other l ne h
decide-AreWell w sock user other (ok false) rest l ne k h = k
decide-AreWell w sock user other (err e) rest l ne k h = (tt, h)

pub consider-AreWell :
    (w : World) (sock : Socket) (user : User) (f : Filters) (other : ℕ) (v : Option Value)
    (rest : Task × Lobby) (l : Lobby)
    → other ≢ user.id
    → AreWell rest
    → IsWell l
    → AreWell (consider w sock user f other v rest l)
consider-AreWell w sock user f other none rest l ne k h = k
consider-AreWell w sock user f other (some v) rest l ne k h =
    decide-AreWell w sock user other (suits w (user_data_of user) f v) rest l ne k h

pub send-AreWell :
    (w : World) (sock : Socket) (m : Message) (next : Task) (l : Lobby)
    → IsGood next
    → IsWell l
    → AreWell (after_send (send w sock m l) next)
send-AreWell w sock m next l g h = either (send w sock m l) (send-IsWell w sock m l h)
  where
    either : (r : Result (Unit {0}) × Lobby) → IsWell r.1 → AreWell (after_send r next)
    either (ok _, l') k = (g, k)
    either (err e, l') k = (tt, k)

pub del_room-AreWell : (room : String) (l : Lobby) → IsWell l → AreWell (del_room room l)
unfolding del_room
del_room-AreWell room l h = elim (Bool-cases (contains room l.matching_candidates)) [
  | inl e ↦ rw e (tt, close_room-IsWell room l h)
  | inr e ↦ rw e (tt, h)
]

pub next_partner-AreWell :
    (u : ℕ) (room : String) (us : List ℕ) (ss : List Socket) (l : Lobby)
    → IsWell l
    → AreWell (next_partner u room us ss l)
unfolding next_partner
next_partner-AreWell u room [] ss l h = del_room-AreWell room l h
next_partner-AreWell u room (v ∷ us) [] l h = del_room-AreWell room l h
next_partner-AreWell u room (v ∷ us) (s ∷ ss) l h = elim (Bool-cases (v == u)) [
  | inl e ↦ rw e (next_partner-AreWell u room us ss l h)
  | inr e ↦ rw e (tt, h)
]

start_accept-AreWell :
    (u : ℕ) (room : String) (c : MatchCandidate) (l : Lobby)
    → IsCandidate c
    → IsWell l
    → AreWell (start_accept u room c l)
unfolding start_accept
start_accept-AreWell u room c l good h = (
  announced_or_done (nat_beq _ 2),
  insert_room-IsWell room _ l (accepted_by-IsCandidate u c good) h,
)
  where
    announced_or_done : (b : Bool) → IsGood (if b then announcing room c.sockets else finished)
    announced_or_done true = tt
    announced_or_done false = tt

start_dispatch-AreWell :
    (u : ℕ) (event : Json) (room : String) (o : Option MatchCandidate) (l : Lobby)
    → lookup room l.matching_candidates ≡ o
    → IsWell l
    → AreWell (start_dispatch u event room o l)
start_dispatch-AreWell u event room none l e h = (tt, h)
start_dispatch-AreWell u event room (some c) l e h =
    chosen (is_text "entered" event) (is_text "accept" event) (is_text "rejected" event)
  where
    chosen :
        (a b r : Bool)
        → AreWell (
            if a
            then (finished, nalang_project.Waiting.Receive.enter u l)
            else if b
            then start_accept u room c l
            else if r
            then next_partner u room c.user_ids c.sockets l
            else (finished, l))
    chosen true b r = (tt, enter-IsWell u l h)
    chosen false true r =
        start_accept-AreWell u room c l
          (All-lookup IsCandidate room c l.matching_candidates h.pairs e) h
    chosen false false true = next_partner-AreWell u room c.user_ids c.sockets l h
    chosen false false false = (tt, h)

pub start_in_room-AreWell :
    (u : ℕ) (event room : Result Json) (l : Lobby)
    → IsWell l
    → AreWell (start_in_room u event room l)
start_in_room-AreWell u (err e) room l h = (tt, h)
start_in_room-AreWell u (ok event) (err e) l h = (tt, h)
start_in_room-AreWell u (ok event) (ok (Json.str room)) l h =
    start_dispatch-AreWell u event room (lookup room l.matching_candidates) l refl h
start_in_room-AreWell u (ok event) (ok _) l h = (tt, h)

pub told_or_not :
    (b : Bool) (u : ℕ) (room : String) (v : ℕ) (s : Socket) (us : List ℕ) (ss : List Socket)
    (l : Lobby)
    → IsWell l
    → AreWell (
        if b
        then (turned_down u room v s true us ss, record l { sent = l.sent ++ (s, rejected) ∷ [] })
        else (turned_down u room v s false us ss, l))
told_or_not true u room v s us ss l h = (tt, IsWell-SameLists (ground arith) h)
told_or_not false u room v s us ss l h = (tt, h)

pub requeued-IsWell :
    (b : Bool) (v : ℕ) (s : Socket) (l : Lobby)
    → IsWell l
    → IsWell (if b then nalang_project.Waiting.Connect.enqueue v s l else l)
requeued-IsWell true v s l h = enqueue-IsWell v s l h
requeued-IsWell false v s l h = h
