-- ===== src/Waiting/Answering.antt =====
-- A coroutine that is not interrupted: the steps of Waiting.Tasks for `handle_receive_event`.
use nalang_project.Json
use nalang_project.Prelude.{
  ℕ, String, ◌≡◌, refl, Bool, true, false, Option, none, some, List, [], ◌∷◌, ◌++◌, length,
  if◌then◌else◌, nat_beq, ◌==◌, nat_eq, string_eq, ==_refl,
}
use nalang_project.Dict.{lookup, contains, insert, lookup-insert}
use nalang_project.Json.{Json, is_text}
use nalang_project.Raise.{Result, ok, err, send_error, continue, modify, pure, ◌>>◌}
use nalang_project.Waiting.State.{Socket, MatchCandidate, Lobby, World, matched, rejected, send}
use nalang_project.Waiting.Connect.{enqueue}
use nalang_project.Waiting.Receive.{
  add, enter, send_all, close_room, accept, requeue_partners, reject, dispatch, in_room,
  handle_receive_event,
}
use nalang_project.Waiting.Tasks.{
  Task, receiving, announcing, turning_down, turned_down, finished, after_send, del_room,
  next_partner, start_accept, start_dispatch, start_in_room, advance,
}
use nalang_project.Waiting.Reaching.{Reaches, here, next, ended}

announcing-Reaches :
    (w : World) (room : String) (ss : List Socket) (l : Lobby)
    → contains room l.matching_candidates ≡ true
    → Reaches w
        (ended ((send_all w (matched room) ss >> modify (close_room room)) l))
        (announcing room ss, l)
unfolding send_all advance del_room send
announcing-Reaches w room [] l h = next _ l (rw h here)
announcing-Reaches w room (s ∷ ss) l h =
    next _ l (sent (w.online s) (announcing-Reaches w room ss _ h))
  where
    told : Lobby
    told = record l { sent = l.sent ++ (s, matched room) ∷ [] }

    Ends : Result (Unit {0}) × Lobby → Type 0
    Ends r =
        let r' = continue r.0 (λ _. send_all w (matched room) ss) r.1 in
        Reaches w (ended (continue r'.0 (λ _. modify (close_room room)) r'.1))
          (after_send r (announcing room ss))

    sent : (b : Bool) → Ends (ok tt, told) → Ends (if b then (ok tt, told) else (err send_error, l))
    sent true rest = rest
    sent false rest = here

accept-Reaches :
    (w : World) (u : ℕ) (room : String) (c : MatchCandidate) (l : Lobby)
    → Reaches w (ended (accept w u room c l)) (start_accept u room c l)
unfolding accept start_accept
accept-Reaches w u room c l = told (nat_beq (length (add u c.accepted)) 2)
  where
    l' : Lobby
    l' = record l {
      matching_candidates =
          insert room (record c { accepted = add u c.accepted }) l.matching_candidates;
    }

    told :
        (b : Bool)
        → Reaches w
            (ended (
              (if b
                  then (send_all w (matched room) c.sockets >> modify (close_room room))
                  else pure tt)
                l'))
            (if b then announcing room c.sockets else finished, l')
    told true = announcing-Reaches w room c.sockets l' (
        rw
          (lookup-insert room room (record c { accepted = add u c.accepted }) l.matching_candidates)
          (rw (==_refl room) refl))
    told false = here

del_room-Reaches :
    (w : World) (room : String) (l : Lobby)
    → contains room l.matching_candidates ≡ true
    → Reaches w (finished, close_room room l) (del_room room l)
unfolding del_room
del_room-Reaches w room l h = rw h here

next_partner-Reaches :
    (w : World) (u : ℕ) (room : String) (us : List ℕ) (ss : List Socket) (l : Lobby)
    → contains room l.matching_candidates ≡ true
    → Reaches w
        (finished, close_room room (requeue_partners w u us ss l))
        (next_partner u room us ss l)
unfolding next_partner requeue_partners advance enqueue
next_partner-Reaches w u room [] ss l h = del_room-Reaches w room l h
next_partner-Reaches w u room (v ∷ us) [] l h = del_room-Reaches w room l h
next_partner-Reaches w u room (v ∷ us) (s ∷ ss) l h =
    passed (v == u) (next_partner-Reaches w u room us ss l h) (
      turned (w.online s) (next_partner-Reaches w u room us ss l h)
        (next_partner-Reaches w u room us ss l2 h))
  where
    l1 : Lobby
    l1 = record l { sent = l.sent ++ (s, rejected) ∷ [] }

    l2 : Lobby
    l2 = record l1 { waiting_users = insert v s l.waiting_users }

    Closes : Lobby → Task × Lobby → Type 0
    Closes k = Reaches w (finished, close_room room (requeue_partners w u us ss k))

    turned :
        (b : Bool)
        → Closes l (next_partner u room us ss l)
        → Closes l2 (next_partner u room us ss l2)
        → Closes (if b then l2 else l) (
            if b
            then (turned_down u room v s true us ss, l1)
            else (turned_down u room v s false us ss, l))
    turned true kept back = next _ l1 back
    turned false kept back = next _ l kept

    passed :
        (a : Bool)
        → Closes l (next_partner u room us ss l)
        → Closes (if w.online s then l2 else l) (advance w (turning_down u room v s us ss) l)
        → Closes
            (if a then l else if w.online s then l2 else l)
            (if a then next_partner u room us ss l else (turning_down u room v s us ss, l))
    passed true kept turn = kept
    passed false kept turn = next _ l turn

start_dispatch-Reaches :
    (w : World) (u : ℕ) (event : Json) (room : String) (o : Option MatchCandidate) (l : Lobby)
    → lookup room l.matching_candidates ≡ o
    → Reaches w (ended (dispatch w u event room o l)) (start_dispatch u event room o l)
unfolding reject
start_dispatch-Reaches w u event room none l e = here
start_dispatch-Reaches w u event room (some c) l e =
    chosen (is_text "entered" event) (is_text "accept" event) (is_text "rejected" event)
  where
    chosen :
        (a b r : Bool)
        → Reaches w
            (ended (
              (if a
                  then modify (enter u)
                  else if b
                  then accept w u room c
                  else if r
                  then modify (reject w u room c)
                  else pure tt)
                l))
            (if a
              then (finished, enter u l)
              else if b
              then start_accept u room c l
              else if r
              then next_partner u room c.user_ids c.sockets l
              else (finished, l))
    chosen true b r = here
    chosen false true r = accept-Reaches w u room c l
    chosen false false true = next_partner-Reaches w u room c.user_ids c.sockets l (rw e refl)
    chosen false false false = here

start_in_room-Reaches :
    (w : World) (u : ℕ) (event room : Result Json) (l : Lobby)
    → Reaches w
        (ended (continue event (λ e. continue room (λ r. in_room w u e r)) l))
        (start_in_room u event room l)
start_in_room-Reaches w u (err e) room l = here
start_in_room-Reaches w u (ok event) (err e) l = here
start_in_room-Reaches w u (ok event) (ok (Json.str room)) l =
    start_dispatch-Reaches w u event room (lookup room l.matching_candidates) l refl
start_in_room-Reaches w u (ok event) (ok (Json.arr _)) l = here
start_in_room-Reaches w u (ok event) (ok (Json.obj _)) l = here
start_in_room-Reaches w u (ok event) (ok _) l = here

pub handle_receive_event-Reaches :
    (w : World) (u : ℕ) (msg : Json) (l : Lobby)
    → Reaches w (ended (handle_receive_event w u msg l)) (receiving u msg, l)
unfolding handle_receive_event advance
handle_receive_event-Reaches w u msg l =
    next _ l (start_in_room-Reaches w u (Json.get "event" msg) (Json.get "room" msg) l)
