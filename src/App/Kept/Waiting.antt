-- ===== src/App/Kept/Waiting.antt =====
-- What the handlers of the waiting room do to Redis: they store the profile of the user who connects,
-- and delete profiles.
use nalang_project.Prelude.{
  ℕ, zero, suc, String, ◌≡◌, Bool, true, false, not, ◌&&◌, Option, none, some, List, [], ◌∷◌, ◌++◌,
  if◌then◌else◌, ◌==◌, nat_eq, nat_beq, length, Bool-cases, inl, inr,
}
use nalang_project.Dict.{Dict, contains, erase, insert}
use nalang_project.Json
use nalang_project.Json.{Json, is_text}
use nalang_project.Redis.{Redis}
use nalang_project.Models.{User, Db}
use nalang_project.Raise.{Result, ok, err, pure, modify, lift, ◌>>◌}
use nalang_project.Raise.Keeps.{Keeps, Keeps-bind, Keeps-continue, Keeps-then, Keeps-if}
use nalang_project.Auth.World.{Libraries}
use nalang_project.Call.History.{has_user}
use nalang_project.Waiting.Filter.{Filters}
use nalang_project.Waiting.State.{
  Socket, Value, MatchCandidate, Lobby, World, Message, matched, rejected, disconnected, send,
  try_send, user_key, delete_profile,
}
use nalang_project.Waiting.Connect.{
  user_data_of, find_match, handle_connect, store_profile, settle, propose, announce, open_room,
  enqueue,
}
use nalang_project.Waiting.Receive.{
  add, accept, reject, enter, close_room, send_all, requeue_partners, dispatch, in_room,
  handle_receive_event,
}
use nalang_project.Waiting.Disconnect.{
  member, leave_queue, notify_all, notify_rooms, drop_rooms, handle_disconnect,
}
use nalang_project.Waiting.Closing.{close_lem}
use nalang_project.Waiting.Route.{Connection, receive_all, finish, serve}
use nalang_project.App.Stable.{IsStable}

module _ {x : Libraries} {P : Db → Redis Value → Type 0} (k : IsStable x P) (d : Db) where
  abbrev InRedis : Lobby → Type 0
  InRedis l = P d l.redis

  Keeps-send : (w : World) (s : Socket) (m : Message) → Keeps InRedis (send w s m)
  unfolding send
  Keeps-send w s m l h = elim (Bool-cases (w.online s)) [ inl e ↦ rw e h | inr e ↦ rw e h ]

  delete_profile-keeps : (id : ℕ) (l : Lobby) → InRedis l → InRedis (delete_profile id l)
  unfolding delete_profile
  delete_profile-keeps id l h = k.delete (user_key id) d l.redis h

  Keeps-announce : (w : World) (ws1 ws2 : Socket) (a b : ℕ) → Keeps InRedis (announce w ws1 ws2 a b)
  unfolding announce delete_profile
  Keeps-announce w ws1 ws2 a b = Keeps-then InRedis (send w ws1 _) _ (Keeps-send w ws1 _) (
      Keeps-then InRedis (send w ws2 _) _ (Keeps-send w ws2 _)
        (λ l h. k.delete (user_key b) d _ (k.delete (user_key a) d l.redis h)))

  Keeps-settle :
      (w : World) (sock : Socket) (u : ℕ) (found : Option ℕ) → Keeps InRedis (settle w sock u found)
  unfolding settle propose enqueue open_room
  Keeps-settle w sock u none l h = h
  Keeps-settle w sock u (some zero) l h = h
  Keeps-settle w sock u (some (suc n)) l h = Keeps-announce w sock _ u (suc n) _ h

  Keeps-handle_connect :
      (w : World) (sock : Socket) (user : User) (f : Filters)
      → has_user user.id d ≡ true
      → Keeps InRedis (handle_connect w sock user f)
  unfolding handle_connect store_profile user_data_of
  Keeps-handle_connect w sock user f known l h =
      Keeps-continue InRedis (find_match w _ (user_data_of user) f l.waiting_users)
        (settle w sock user.id) (Keeps-settle w sock user.id) _
        (k.store_profile w.now user f d l.redis known h)

  Keeps-send_all : (w : World) (m : Message) (ss : List Socket) → Keeps InRedis (send_all w m ss)
  unfolding send_all
  Keeps-send_all w m [] l h = h
  Keeps-send_all w m (s ∷ ss) l h =
      Keeps-continue InRedis _ (λ _. send_all w m ss) (λ _. Keeps-send_all w m ss) _
        (Keeps-send w s m l h)

  Keeps-accept :
      (w : World) (u : ℕ) (room : String) (c : MatchCandidate) → Keeps InRedis (accept w u room c)
  unfolding accept close_room
  Keeps-accept w u room c l h =
      Keeps-if InRedis (nat_beq (length (add u c.accepted)) 2)
        (send_all w (matched room) c.sockets >> modify (close_room room)) (pure tt)
        (Keeps-then InRedis (send_all w (matched room) c.sockets) (modify (close_room room))
          (Keeps-send_all w (matched room) c.sockets) (λ _ h. h))
        (λ _ h. h) _ h

  requeue_partners-keeps :
      (w : World) (u : ℕ) (us : List ℕ) (ss : List Socket) (l : Lobby)
      → InRedis l
      → InRedis (requeue_partners w u us ss l)
  unfolding requeue_partners
  requeue_partners-keeps w u [] ss l h = h
  requeue_partners-keeps w u (v ∷ us) [] l h = h
  requeue_partners-keeps w u (v ∷ us) (s ∷ ss) l h =
      requeue_partners-keeps w u us ss _ (one (v == u) (w.online s))
    where
      one :
          (a b : Bool)
          → InRedis (
              if a
              then l
              else if b
              then record l {
                sent = l.sent ++ (s, rejected) ∷ [];
                waiting_users = insert v s l.waiting_users;
              }
              else l)
      one true b = h
      one false false = h
      one false true = h

  Keeps-dispatch :
      (w : World) (u : ℕ) (event : Json) (room : String) (o : Option MatchCandidate)
      → Keeps InRedis (dispatch w u event room o)
  unfolding enter reject close_room
  Keeps-dispatch w u event room none l h = h
  Keeps-dispatch w u event room (some c) l h =
      Keeps-if InRedis (is_text "entered" event) (modify (enter u)) _ (λ _ h. h)
        (Keeps-if InRedis (is_text "accept" event) (accept w u room c) _ (Keeps-accept w u room c) (
          Keeps-if InRedis (is_text "rejected" event) (modify (reject w u room c)) (pure tt)
            (λ l h. requeue_partners-keeps w u c.user_ids c.sockets l h) (λ _ h. h)))
        l h

  Keeps-in_room : (w : World) (u : ℕ) (event room : Json) → Keeps InRedis (in_room w u event room)
  Keeps-in_room w u event (Json.str room) l h = Keeps-dispatch w u event room _ l h
  Keeps-in_room w u event _ l h = h

  Keeps-handle_receive_event :
      (w : World) (u : ℕ) (msg : Json) → Keeps InRedis (handle_receive_event w u msg)
  unfolding handle_receive_event
  Keeps-handle_receive_event w u msg l h =
      Keeps-continue InRedis (Json.get "event" msg) _
        (λ event l' h'.
          Keeps-continue InRedis (Json.get "room" msg) _ (λ room. Keeps-in_room w u event room) l'
            h')
        l h

  notify_all-keeps :
      (w : World) (m : Message) (ss : List Socket) (l : Lobby)
      → InRedis l
      → InRedis (notify_all w m ss l)
  unfolding notify_all try_send
  notify_all-keeps w m [] l h = h
  notify_all-keeps w m (s ∷ ss) l h = notify_all-keeps w m ss _ (Keeps-send w s m l h)

  notify_rooms-keeps :
      (w : World) (u : ℕ) (rooms : Dict String MatchCandidate) (l : Lobby)
      → InRedis l
      → InRedis (notify_rooms w u rooms l)
  unfolding notify_rooms
  notify_rooms-keeps w u [] l h = h
  notify_rooms-keeps w u ((room, c) ∷ rooms) l h =
      notify_rooms-keeps w u rooms _ (told (member u c.user_ids && not (member u l.entered_users)))
    where
      told :
          (b : Bool)
          → InRedis (if b then delete_profile u (notify_all w disconnected c.sockets l) else l)
      told true = delete_profile-keeps u _ (notify_all-keeps w disconnected c.sockets l h)
      told false = h

  leave_queue-keeps : (u : ℕ) (l : Lobby) → InRedis l → InRedis (leave_queue u l)
  unfolding leave_queue
  leave_queue-keeps u l h = elim (Bool-cases (contains u l.waiting_users)) [
    | inl e ↦ rw e (delete_profile-keeps u (record l { waiting_users = erase u l.waiting_users }) h)
    | inr e ↦ rw e h
  ]

  handle_disconnect-keeps :
      (w : World) (u : ℕ) (l : Lobby) → InRedis l → InRedis (handle_disconnect w u l)
  unfolding handle_disconnect drop_rooms
  handle_disconnect-keeps w u l h =
      notify_rooms-keeps w u (leave_queue u l).matching_candidates _ (leave_queue-keeps u l h)

  Keeps-receive_all :
      (u : ℕ) (texts : List (World × Result Json)) → Keeps InRedis (receive_all u texts)
  unfolding receive_all
  Keeps-receive_all u [] l h = h
  Keeps-receive_all u ((w, text) ∷ rest) l h =
      let later = Keeps-receive_all u rest in
      Keeps-bind InRedis (lift text) _ (λ l h. h)
        (λ msg.
          Keeps-then InRedis (handle_receive_event w u msg) (receive_all u rest)
            (Keeps-handle_receive_event w u msg) later)
        l h

  finish-keeps :
      (w : World) (u : ℕ) (r : Result (Unit {0})) (l : Lobby)
      → InRedis l
      → InRedis (finish w u (r, l)).1
  finish-keeps w u (ok _) l h = rw (close_lem w u _ l) (handle_disconnect-keeps w u l h)
  finish-keeps w u (err e) l h = rw (close_lem w u _ l) (handle_disconnect-keeps w u l h)

  pub Keeps-serve :
      (n : Connection) (user : User) → has_user user.id d ≡ true → Keeps InRedis (serve n user)
  unfolding serve
  Keeps-serve n user known l h = finish-keeps n.closed user.id _ _ (
      Keeps-then InRedis (handle_connect n.opened n.socket user n.filters)
        (receive_all user.id n.texts) (Keeps-handle_connect n.opened n.socket user n.filters known)
        (Keeps-receive_all user.id n.texts) l h)
