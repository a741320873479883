-- ===== src/Waiting/Departed.antt =====
-- The end of a `handle_disconnect` that is not interrupted.
use nalang_project.Prelude.{
  ℕ, String, ◌≡◌, refl, sym, ap, ◌∙◌, subst, Bool, true, false, not, ◌&&◌, List, [], ◌∷◌, ◌++◌,
  length, arith, if◌then◌else◌, nat_beq, nat_eq, string_eq, ==_refl, Bool-cases, inl, inr,
}
use mathlib.Core.List.{append-nil, append_assoc}
use nalang_project.Dict.{Dict, contains, erase, HasDistinctKeys}
use nalang_project.Waiting.State.{
  Socket, MatchCandidate, Lobby, World, disconnected, delete_profile,
}
use nalang_project.Waiting.Leaving.{SameLists, notify_all-SameLists, notify_rooms-SameLists}
use nalang_project.Waiting.Disconnect.{
  member, leave_queue, notify_all, notify_rooms, rooms_of, remove_rooms, discard, drop_rooms,
  handle_disconnect,
}
use nalang_project.Waiting.Tasks.{
  Task, leaving, finished, mem_text, scan_rooms, start_rooms, next_room, start_leaving, advance,
}
use nalang_project.Waiting.Reaching.{Reaches, here, next}
use nalang_project.Waiting.Departing.{
  names, ended_with, remove_all_lem, rooms_of-AreNew, rooms_of_known, notifying-Reaches,
  scan_rooms-old, names_old, name_new, names-snoc, rooms_of-snoc,
}

delete_told :
    (u : ℕ) (w : World) (ss : List Socket) (l : Lobby)
    → SameLists (delete_profile u (notify_all w disconnected ss l)) l
unfolding delete_profile
delete_told u w ss l = ground (arith, notify_all-SameLists w disconnected ss l)

notify_rooms-step :
    (w : World) (u : ℕ) (room : String) (c : MatchCandidate) (d : Dict String MatchCandidate)
    (l : Lobby) (b : Bool)
    → (member u c.user_ids && not (member u l.entered_users)) ≡ b
    → notify_rooms w u ((room, c) ∷ d) l
      ≡ notify_rooms w u d
          (if b then delete_profile u (notify_all w disconnected c.sockets l) else l)
unfolding notify_rooms
notify_rooms-step w u room c d l b e =
    ap
      (λ x.
        notify_rooms w u d
          (if x then delete_profile u (notify_all w disconnected c.sockets l) else l))
      e

-- Resumed with as many rooms as before, the loop goes on where it was.
next_room-Reaches :
    (w : World) (q : Task × Lobby) (u : ℕ) (d pre rest : Dict String MatchCandidate)
    (vis rs : List String) (l : Lobby)
    → d ≡ pre ++ rest
    → l.matching_candidates ≡ d
    → vis ≡ names pre
    → Reaches w q (scan_rooms u (length d) vis rs rest l)
    → Reaches w q (next_room u (length d) vis rs l)
unfolding next_room
next_room-Reaches w q u d pre rest vis rs l split same ev h =
    let as_many : nat_beq (length l.matching_candidates) (length d) ≡ true =
      rw same (==_refl (length d)) in
    rw as_many (
      subst (λ x. Reaches w q (scan_rooms u (length d) vis rs x l)) (sym (same ∙ split))
        (rw (scan_rooms-old u (length d) vis rs pre rest l (rw ev (names_old pre pre (λ r x. x))))
          h))

-- The rooms `pre` are behind the loop, and `rest` is to come.
scan_rooms-Reaches :
    (w : World) (u : ℕ) (d rest pre : Dict String MatchCandidate) (vis rs : List String) (l : Lobby)
    → HasDistinctKeys d
    → d ≡ pre ++ rest
    → l.matching_candidates ≡ d
    → vis ≡ names pre
    → rs ≡ rooms_of u pre
    → Reaches w
        (finished, ended_with u (rooms_of u d) (notify_rooms w u rest l))
        (scan_rooms u (length d) vis rs rest l)
unfolding scan_rooms advance next_room notify_rooms
scan_rooms-Reaches w u d [] pre vis rs l h split same ev er =
    let all : rs ≡ rooms_of u d = er ∙ ap (rooms_of u) (sym (split ∙ append-nil pre)) in
    rw
      (
        all,
        remove_all_lem u (rooms_of u d) l (rooms_of-AreNew u d h)
            (rw same (rooms_of_known u d d (λ r x. x))),
      )
      here
scan_rooms-Reaches w u d ((room, c) ∷ rest) pre vis rs l h split same ev er =
    let later : (rs2 : List String) (l2 : Lobby)
        → l2.matching_candidates ≡ d
        → rs2 ≡ rooms_of u (pre ++ (room, c) ∷ [])
        → Reaches w (finished, ended_with u (rooms_of u d) (notify_rooms w u rest l2))
            (scan_rooms u (length d) (vis ++ room ∷ []) rs2 rest l2) =
      λ rs2 l2 s e.
        scan_rooms-Reaches w u d rest (pre ++ (room, c) ∷ []) (vis ++ room ∷ []) rs2 l2 h split2 s
          ev2 e in
    elim (Bool-cases (member u c.user_ids)) [
      | inr m ↦
          rw (notify_rooms-step w u room c rest l false (rw m refl), new, m)
            (later rs l same (behind false m))
      | inl m ↦ elim (Bool-cases (member u l.entered_users)) [
        | inl e ↦
            rw (notify_rooms-step w u room c rest l false (rw (m, e) refl), new, m, e)
              (later (rs ++ room ∷ []) l same (behind true m))
        | inr e ↦
            rw (notify_rooms-step w u room c rest l true (rw (m, e) refl), new, m, e)
              (notifying-Reaches w _ u (length d) _ rs room c.sockets l (
                next _ _ (
                  next_room-Reaches w _ u d (pre ++ (room, c) ∷ []) rest _ _ _ split2
                    (told_rooms ∙ same) ev2
                    (later (rs ++ room ∷ []) _ (told_rooms ∙ same) (behind true m)))))
      ]
    ]
  where
    new : mem_text room vis ≡ false
    new = rw ev (name_new pre rest room c (subst HasDistinctKeys split h))

    split2 : d ≡ (pre ++ (room, c) ∷ []) ++ rest
    split2 = split ∙ sym (append_assoc pre ((room, c) ∷ []) rest)

    ev2 : vis ++ room ∷ [] ≡ names (pre ++ (room, c) ∷ [])
    ev2 = ap (λ v. v ++ room ∷ []) ev ∙ sym (names-snoc pre room c)

    behind :
        (b : Bool)
        → member u c.user_ids ≡ b
        → (if b then rs ++ room ∷ [] else rs) ≡ rooms_of u (pre ++ (room, c) ∷ [])
    behind b e = rw (rooms_of-snoc u pre room c, e, er) refl

    told_rooms :
        (delete_profile u (notify_all w disconnected c.sockets l)).matching_candidates
        ≡ l.matching_candidates
    told_rooms = (delete_told u w c.sockets l).rooms

-- The handler from its loop on.
after_queue : World → ℕ → Lobby → Lobby
after_queue w u l =
    let gone = drop_rooms w u l in record gone { entered_users = discard u gone.entered_users }

start_rooms-Reaches :
    (w : World) (u : ℕ) (l : Lobby)
    → HasDistinctKeys l.matching_candidates
    → Reaches w (finished, after_queue w u l) (start_rooms u l)
unfolding start_rooms after_queue drop_rooms rooms_of
start_rooms-Reaches w u l h =
    let d = l.matching_candidates in
    let told = notify_rooms w u d l in
    let closed : List String → Dict String MatchCandidate → Lobby = λ rs m. record told {
      matching_candidates = remove_rooms rs m;
      entered_users = discard u told.entered_users;
    } in
    subst (λ m. Reaches w (finished, closed (rooms_of u d) m) (start_rooms u l))
      (notify_rooms-SameLists w u d l).rooms
      (scan_rooms-Reaches w u d d [] [] [] l h refl refl refl refl)

pub handle_disconnect-Reaches :
    (w : World) (u : ℕ) (l : Lobby)
    → HasDistinctKeys l.matching_candidates
    → Reaches w (finished, handle_disconnect w u l) (leaving u, l)
unfolding handle_disconnect after_queue leave_queue advance start_leaving delete_profile
handle_disconnect-Reaches w u l h = next _ l (elim (Bool-cases (contains u l.waiting_users)) [
  | inl e ↦ rw e (
      next _ _ (
        next _ _ (
          start_rooms-Reaches w u
            (delete_profile u (record l { waiting_users = erase u l.waiting_users })) h)))
  | inr e ↦ rw e (start_rooms-Reaches w u l h)
])
