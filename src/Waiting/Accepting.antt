-- ===== src/Waiting/Accepting.antt =====
-- What the messages "accept" and "entered" do to a room.
use nalang_project.Prelude.{
  ℕ, String, ◌≡◌, refl, sym, ◌≢◌, ◌∙◌, true, false, none, some, [], ◌∷◌, ◌++◌, ◌==◌, nat_eq,
  string_eq, ==_refl, ==_ne,
}
use nalang_project.Dict.{Dict, lookup, insert, erase, lookup-insert, lookup-erase}
use nalang_project.Json
use nalang_project.Json.{Json}
use nalang_project.Raise.{ok}
use nalang_project.Waiting.State.{Socket, MatchCandidate, Lobby, World, matched, send}
use nalang_project.Waiting.Receive.{handle_receive_event, accept, send_all, close_room}
use nalang_project.Waiting.Requeue.{message, candidate}

-- A message for a room that is not there does nothing at all.
pub handle_receive_event-no_room :
    (w : World) (u : ℕ) (event room : String) (l : Lobby)
    → lookup room l.matching_candidates ≡ none
    → handle_receive_event w u (message event room) l ≡ (ok tt, l)
unfolding handle_receive_event Json.get
handle_receive_event-no_room w u event room l h = rw h

accept-first :
    (w : World) (u : ℕ) (room : String) (a b : ℕ) (s1 s2 : Socket) (l : Lobby)
    → lookup room l.matching_candidates ≡ some (candidate a b s1 s2)
    → handle_receive_event w u (message "accept" room) l ≡ (
      ok tt,
      record l {
        matching_candidates =
            insert room (record (candidate a b s1 s2) { accepted = u ∷ [] }) l.matching_candidates;
      },
    )
unfolding handle_receive_event Json.get accept
accept-first w u room a b s1 s2 l h = rw h

accept-second :
    (w : World) (u v : ℕ) (room : String) (a b : ℕ) (s1 s2 : Socket) (l : Lobby)
    → u ≢ v
    → w.online s1 ≡ true
    → w.online s2 ≡ true
    → lookup room l.matching_candidates ≡ some (record (candidate a b s1 s2) { accepted = u ∷ [] })
    → (handle_receive_event w v (message "accept" room) l).1 ≡ (record l {
      matching_candidates = erase room (
          insert room
            (record (candidate a b s1 s2) { accepted = u ∷ v ∷ [] })
            l.matching_candidates);
      sent = (l.sent ++ (s1, matched room) ∷ []) ++ (s2, matched room) ∷ [];
    })
unfolding handle_receive_event Json.get accept send_all send close_room
accept-second w u v room a b s1 s2 l ne h1 h2 h = rw (h, ==_ne u v ne, h1, h2)

-- Two different users who accept, one after the other, a room that nobody has accepted close it,
-- if both of its sockets are open: both are told that they are matched, in this order, and by
-- the second message only; another room is as it was. Neither user has to be one of the two for
-- whom the room was made.
pub accept_twice-matched :
    (w w' : World) (u v : ℕ) (room other : String) (a b : ℕ) (s1 s2 : Socket) (l : Lobby)
    → u ≢ v
    → other ≢ room
    → w'.online s1 ≡ true
    → w'.online s2 ≡ true
    → lookup room l.matching_candidates ≡ some (candidate a b s1 s2)
    → let l1 = (handle_receive_event w u (message "accept" room) l).1 in
      let l2 = (handle_receive_event w' v (message "accept" room) l1).1 in
      (l1.sent ≡ l.sent)
      × (l2.sent ≡ (l.sent ++ (s1, matched room) ∷ []) ++ (s2, matched room) ∷ [])
      × (lookup room l2.matching_candidates ≡ none)
      × (lookup other l2.matching_candidates ≡ lookup other l.matching_candidates)
accept_twice-matched w w' u v room other a b s1 s2 l ne no_room h1 h2 h =
    let c1 : MatchCandidate = record (candidate a b s1 s2) { accepted = u ∷ [] } in
    let c2 : MatchCandidate = record (candidate a b s1 s2) { accepted = u ∷ v ∷ [] } in
    let d1 : Dict String MatchCandidate = insert room c1 l.matching_candidates in
    let far : (room == other) ≡ false = ==_ne room other (λ e. no_room (sym e)) in
    rw
      (
        accept-first w u room a b s1 s2 l h,
        accept-second w' u v room a b s1 s2 (record l { matching_candidates = d1 }) ne h1 h2
            (lookup-insert room room c1 l.matching_candidates ∙ rw (==_refl room)),
      )
      (
        refl,
        refl,
        lookup-erase room room (insert room c2 d1) ∙ rw (==_refl room),
        lookup-erase room other (insert room c2 d1)
            ∙ rw far (
                lookup-insert room other c2 d1
                ∙ rw far (lookup-insert room other c1 l.matching_candidates ∙ rw far)),
      )
