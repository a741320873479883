-- ===== src/Waiting/Reaching.antt =====
-- A coroutine that is not interrupted: the steps of Waiting.Tasks for `handle_connect`.
use nalang_project.Redis
use nalang_project.Prelude.{
  ℕ, zero, suc, ◌≡◌, refl, Bool, true, false, Option, none, some, [], ◌∷◌, All, if◌then◌else◌, ◌==◌,
  nat_eq, string_eq, ==_refl, Bool-cases, inl, inr,
}
use nalang_project.Dict.{Dict, lookup, contains, is_some}
use nalang_project.Raise.{Exec, Result, ok, err, continue}
use nalang_project.Models.{User}
use nalang_project.Waiting.Filter.{Filters}
use nalang_project.Waiting.State.{Socket, Value, Lobby, World, user_key, send}
use nalang_project.Waiting.Connect.{
  user_data_of, suits, or_next, or_skip, find_match, settle, propose, announce, open_room,
  room_name, handle_connect, store_profile, socket_of,
}
use nalang_project.Waiting.Tasks.{
  Task, storing, telling, finished, failed, look, pop_partner, take_partner, decide, consider,
  after_send, advance,
}

-- The steps of one coroutine, with nothing in between, lead from here to the end `q`.
pub data Reaches (w : World) (q : Task × Lobby) : Task × Lobby → Type 0 where
  here : Reaches w q q
  next : (t : Task) (l : Lobby) → Reaches w q (advance w t l) → Reaches w q (t, l)

-- How a coroutine ends whose handler returns or raises.
abbrev pub ended : Result (Unit {0}) × Lobby → Task × Lobby
ended (ok _, l) = (finished, l)
ended (err e, l) = (failed e, l)

after_send-Reaches :
    (w : World) (r : Result (Unit {0}) × Lobby) (t : Task) (m : Exec Lobby Unit)
    → ((l : Lobby) → Reaches w (ended (m l)) (t, l))
    → Reaches w (ended (continue r.0 (λ _. m) r.1)) (after_send r t)
after_send-Reaches w (ok _, l) t m h = h l
after_send-Reaches w (err e, l) t m h = here

announce-Reaches :
    (w : World) (ws1 ws2 : Socket) (a b : ℕ) (l : Lobby)
    → Reaches w (ended (announce w ws1 ws2 a b l)) (telling ws1 ws2 a b (room_name w a b), l)
unfolding announce advance
announce-Reaches w ws1 ws2 a b l = next _ l (
    after_send-Reaches w (send w ws1 _ l) _ _ (λ l'.
      next _ l' (after_send-Reaches w (send w ws2 _ l') _ _ (λ l2. next _ l2 (next _ _ here)))))

take_partner-Reaches :
    (w : World) (sock : Socket) (id other : ℕ) (l : Lobby)
    → contains other l.waiting_users ≡ true
    → Reaches w (ended (settle w sock id (some other) l)) (take_partner w sock id other l)
unfolding settle propose announce
take_partner-Reaches w sock id zero l h = here
take_partner-Reaches w sock id (suc k) l h = popped (lookup (suc k) l.waiting_users) h
  where
    popped :
        (o : Option Socket)
        → is_some o ≡ true
        → Reaches w
            (ended (
              announce w sock
                (socket_of o)
                id
                (suc k)
                (open_room w sock (socket_of o) id (suc k) l)))
            (pop_partner w sock id (suc k) o l)
    popped none e = cc
    popped (some ws) e = announce-Reaches w sock ws id (suc k) _

-- One question to Redis: the answer is `None`, a partner, somebody else, or an error.
consider-Reaches :
    (w : World) (sock : Socket) (user : User) (f : Filters) (id : ℕ) (v : Option Value)
    (found : Result (Option ℕ)) (t : Task × Lobby) (l : Lobby)
    → contains id l.waiting_users ≡ true
    → Reaches w (ended (continue found (settle w sock user.id) l)) t
    → Reaches w
        (ended (continue (or_skip w (user_data_of user) f id v found) (settle w sock user.id) l))
        (consider w sock user f id v t l)
consider-Reaches w sock user f id none found t l c h = h
consider-Reaches w sock user f id (some v) found t l c h = decided (suits w (user_data_of user) f v)
  where
    decided :
        (r : Result Bool)
        → Reaches w
            (ended (continue (or_next r id found) (settle w sock user.id) l))
            (decide w sock user id r t l)
    decided (ok true) = take_partner-Reaches w sock user.id id l c
    decided (ok false) = h
    decided (err e) = here

look-Reaches :
    (w : World) (sock : Socket) (user : User) (f : Filters) (q : Dict ℕ Socket) (l : Lobby)
    → All (λ e. contains e.0 l.waiting_users ≡ true) q
    → Reaches w
        (ended (continue (find_match w l.redis (user_data_of user) f q) (settle w sock user.id) l))
        (look sock user f q l)
unfolding look find_match settle advance user_data_of
look-Reaches w sock user f [] l h = here
look-Reaches w sock user f ((id, ws) ∷ q) l h =
    let rest = look-Reaches w sock user f q l h.1 in
    elim (Bool-cases (id == user.id)) [
      | inl e ↦ rw e rest
      | inr e ↦ rw e (
          next _ l (
            next _ l (
              consider-Reaches w sock user f id (Redis.get w.now (user_key id) l.redis)
                (find_match w l.redis (user_data_of user) f q) (look sock user f q l) l h.0 rest)))
    ]

known_entries :
    (q d : Dict ℕ Socket)
    → ((k : ℕ) → contains k q ≡ true → contains k d ≡ true)
    → All (λ e. contains e.0 d ≡ true) q
known_entries [] d h = tt
known_entries ((k, s) ∷ q) d h =
    (h k (rw (==_refl k) refl), known_entries q d (λ j e. h j (skip (k == j) j e)))
  where
    skip :
        (b : Bool) (j : ℕ) → contains j q ≡ true → is_some (if b then some s else lookup j q) ≡ true
    skip true j e = refl
    skip false j e = e

pub handle_connect-Reaches :
    (w : World) (sock : Socket) (user : User) (f : Filters) (l : Lobby)
    → Reaches w (ended (handle_connect w sock user f l)) (storing sock user f, l)
unfolding handle_connect advance
handle_connect-Reaches w sock user f l =
    let l' = store_profile w (user_data_of user) f l in
    next _ l (
      next _ l' (
        look-Reaches w sock user f l'.waiting_users l'
          (known_entries l'.waiting_users _ (λ _ e. e))))
