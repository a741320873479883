-- ===== src/Waiting/Races.antt =====
-- Two connections at the same time (`handle_connect` of
-- server/app/domains/call/services/ws_service.py), in the order of Waiting.Tasks.
use nalang_project.Prelude.{
  ℕ, suc, ◌≡◌, refl, sym, ◌≢◌, true, false, none, some, List, [], ◌∷◌, nat_eq, string_eq, ==_refl,
  ==_ne,
}
use nalang_project.Dict.{Dict, lookup, insert, erase, lookup-erase}
use nalang_project.Redis.{get-set}
use nalang_project.Raise.{ok, key_error}
use nalang_project.Models.{User}
use nalang_project.Waiting.Filter.{Filters}
use nalang_project.Waiting.State.{Socket, Value, Lobby, World}
use nalang_project.Waiting.Connect.{
  user_data_of, suits, room_name, store_profile, open_room, enqueue,
}
use nalang_project.Waiting.Requeue.{user_key-==, profile_of}
use nalang_project.Waiting.Tasks.{asking, telling, failed, finished, look, advance}
use nalang_project.Waiting.Turns.{turn, Turn, connects, runs, take_turn, run_turns}

look_asks :
    (w : World) (sock : Socket) (user : User) (f : Filters) (id : ℕ) (ws : Socket)
    (q : Dict ℕ Socket) (l : Lobby)
    → id ≢ user.id
    → look sock user f ((id, ws) ∷ q) l ≡ (asking sock user f id q, l)
unfolding look
look_asks w sock user f id ws q l ne = rw (==_ne id user.id ne) refl

-- Two users connect, and their coroutines take turns, up to the end of their loops.
abbrev pub in_turns : World → Socket → User → Filters → Socket → User → Filters → List Turn
in_turns w sa a fa sb b fb =
    connects sa a fa
    ∷ connects sb b fb
    ∷ runs w 0
    ∷ runs w 1
    ∷ runs w 0
    ∷ runs w 1
    ∷ runs w 0
    ∷ runs w 1
    ∷ runs w 0
    ∷ runs w 1
    ∷ []

-- When two users who both suit the first waiting user connect at the same time, the waiting user
-- leaves the queue and the only new room is that of the first of them with the waiting user; the
-- other's coroutine ends with `KeyError`, and that user does not wait.
pub in_turns-key_error :
    (w : World) (sa : Socket) (a : User) (fa : Filters) (sb : Socket) (b : User) (fb : Filters)
    (l : Lobby) (k : ℕ) (ws : Socket) (q : Dict ℕ Socket) (v : Value)
    → l.waiting_users ≡ (suc k, ws) ∷ q
    → suc k ≢ a.id
    → suc k ≢ b.id
    → lookup b.id q ≡ none
    → profile_of w.now (suc k) l ≡ some v
    → suits w (user_data_of a) fa v ≡ ok true
    → suits w (user_data_of b) fb v ≡ ok true
    → let p = run_turns (in_turns w sa a fa sb b fb) (record { tasks = []; lobby = l }) in
      (p.tasks ≡ telling sa ws a.id (suc k) (room_name w a.id (suc k)) ∷ failed key_error ∷ [])
      × (lookup b.id p.lobby.waiting_users ≡ none)
      × (p.lobby.waiting_users ≡ erase (suc k) l.waiting_users)
      × (p.lobby.matching_candidates
          ≡ insert
              (room_name w a.id (suc k))
              (record { user_ids = a.id ∷ suc k ∷ []; sockets = sa ∷ ws ∷ []; accepted = [] })
              l.matching_candidates)
unfolding run_turns take_turn turn advance look store_profile open_room user_data_of
in_turns-key_error w sa a fa sb b fb l k ws q v h na nb absent known sa_ok sb_ok =
    rw
      (
        h,
        look_asks w sa a fa (suc k) ws q _ na,
        look_asks w sb b fb (suc k) ws q _ nb,
        get-set,
        user_key-==,
        ==_ne b.id (suc k) (λ e. nb (sym e)),
        get-set,
        user_key-==,
        ==_ne a.id (suc k) (λ e. na (sym e)),
        known,
        sa_ok,
        ==_refl (suc k),
        sb_ok,
        ==_refl (suc k),
        lookup-erase (suc k) (suc k) q,
        ==_refl (suc k),
        lookup-erase (suc k) b.id q,
        ==_ne (suc k) b.id nb,
        absent,
      )
      (refl, refl, refl, refl)

-- When two users connect at the same time, while one other user waits and suits neither, both are
-- put into the queue and no room is opened, whether or not the two suit each other.
pub in_turns-missed :
    (w : World) (sa : Socket) (a : User) (fa : Filters) (sb : Socket) (b : User) (fb : Filters)
    (l : Lobby) (k : ℕ) (ws : Socket) (v : Value)
    → l.waiting_users ≡ (k, ws) ∷ []
    → k ≢ a.id
    → k ≢ b.id
    → profile_of w.now k l ≡ some v
    → suits w (user_data_of a) fa v ≡ ok false
    → suits w (user_data_of b) fb v ≡ ok false
    → let p = run_turns (in_turns w sa a fa sb b fb) (record { tasks = []; lobby = l }) in
      (p.tasks ≡ finished ∷ finished ∷ [])
      × (p.lobby.waiting_users ≡ insert b.id sb (insert a.id sa ((k, ws) ∷ [])))
      × (p.lobby.matching_candidates ≡ l.matching_candidates)
unfolding run_turns take_turn turn advance look store_profile user_data_of enqueue
in_turns-missed w sa a fa sb b fb l k ws v h na nb known sa_no sb_no =
    rw
      (
        h,
        look_asks w sa a fa k ws [] _ na,
        look_asks w sb b fb k ws [] _ nb,
        get-set,
        user_key-==,
        ==_ne b.id k (λ e. nb (sym e)),
        get-set,
        user_key-==,
        ==_ne a.id k (λ e. na (sym e)),
        known,
        sa_no,
        sb_no,
      )
      (refl, refl, refl)
