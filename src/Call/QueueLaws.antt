-- ===== src/Call/QueueLaws.antt =====
-- The queue of callers: who is told to wait, for how long, and what a connection leaves behind.
use nalang_project.Prelude.{
  ℕ, ◌+◌, ◌≤◌, ◌<◌, ◌≡◌, refl, ◌≢◌, ◌∙◌, String, Bool, true, false, Option, none, some, List, [],
  ◌∷◌, map, arith, if◌then◌else◌, ◌==◌, nat_eq, string_eq, ==_refl, ==_ne, leb,
}
use nalang_project.Text.Keys.{==-prefix}
use nalang_project.Redis
use nalang_project.Redis.{Redis, get-set, get-delete}
use nalang_project.Waiting.State.{Value, text}
use nalang_project.Call.Queue.{
  waiting_key, start_waiting, register_for_call_queue, reply, call_loop, call_websocket,
}

waiting_key-== : (a b : ℕ) → (waiting_key a == waiting_key b) ≡ (a == b)
unfolding waiting_key
waiting_key-== a b = ==-prefix "call:waiting:" a b

-- What stands in Redis for a caller.
abbrev pub place : ℕ → ℕ → Redis Value → Option Value
place now id r = Redis.get now (waiting_key id) r

place-start_waiting :
    (now later id other : ℕ) (r : Redis Value)
    → place later other (start_waiting now id r) ≡ (
        if id == other
        then (if leb (now + 600) later then none else some (text "waiting"))
        else place later other r)
unfolding start_waiting
place-start_waiting now later id other r = rw (get-set, waiting_key-==)

register-new :
    (now id : ℕ) (r : Redis Value)
    → place now id r ≡ none
    → register_for_call_queue now id r ≡ ("waiting", start_waiting now id r)
unfolding register_for_call_queue Redis.exists
register-new now id r h = rw h

register-again :
    (now id : ℕ) (r : Redis Value) (v : Value)
    → place now id r ≡ some v
    → register_for_call_queue now id r ≡ ("already_waiting", r)
unfolding register_for_call_queue Redis.exists
register-again now id r v h = rw h

-- A caller who does not wait yet is told to wait. Registering again within ten minutes, the
-- caller is told so, and keeps the first time-out; from then on the caller starts to wait anew.
-- Another caller is not concerned.
pub register_for_call_queue-twice :
    (now soon late id other : ℕ) (r : Redis Value)
    → place now id r ≡ none
    → soon < now + 600
    → now + 600 ≤ late
    → id ≢ other
    → let (answer, r1) = register_for_call_queue now id r in
      (answer ≡ "waiting")
      × (register_for_call_queue soon id r1 ≡ ("already_waiting", r1))
      × (register_for_call_queue late id r1 ≡ ("waiting", start_waiting late id r1))
      × (place soon other r1 ≡ place soon other r)
register_for_call_queue-twice now soon late id other r h s l ne = rw (register-new now id r h) (
  refl,
  register-again soon id (start_waiting now id r) (text "waiting")
      (place-start_waiting now soon id id r ∙ rw (==_refl id) (ground arith)),
  register-new late id (start_waiting now id r)
      (place-start_waiting now late id id r ∙ rw (==_refl id) (ground arith)),
  place-start_waiting now soon id other r ∙ rw (==_ne id other ne),
)

replies-call_loop :
    (id : ℕ) (messages : List String) (r : Redis Value)
    → (call_loop id messages r).0 ≡ map reply messages
unfolding call_loop
replies-call_loop id [] r = refl
replies-call_loop id (m ∷ ms) r = rw (replies-call_loop id ms _)

cancel :
    (id later other : ℕ) (b : Bool) (r : Redis Value)
    → place later other (if b then Redis.delete (waiting_key id) r else r)
      ≡ (if b then (if id == other then none else place later other r) else place later other r)
cancel id later other true r = rw (get-delete, waiting_key-==)
cancel id later other false r = refl

place-call_loop :
    (id : ℕ) (messages : List String) (later other : ℕ) (r : Redis Value)
    → place later other (call_loop id messages r).1
      ≡ (if id == other then none else place later other r)
unfolding call_loop
place-call_loop id [] later other r = rw (get-delete, waiting_key-==)
place-call_loop id (m ∷ ms) later other r =
    rw (place-call_loop id ms later other _, cancel) (ground arith)

-- A connection answers each text with one text, in order; when it ends the caller no longer
-- waits, and the place of another caller is as it was.
pub call_websocket-ends :
    (now id : ℕ) (messages : List String) (later other : ℕ) (r : Redis Value)
    → id ≢ other
    → let (replies, last) = call_websocket now id messages r in
      (replies ≡ map reply messages)
      × (place later id last ≡ none)
      × (place later other last ≡ place later other r)
unfolding call_websocket
call_websocket-ends now id messages later other r ne = (
  replies-call_loop id messages (start_waiting now id r),
  place-call_loop id messages later id (start_waiting now id r) ∙ rw (==_refl id),
  place-call_loop id messages later other (start_waiting now id r)
      ∙ rw (==_ne id other ne) (place-start_waiting now later id other r ∙ rw (==_ne id other ne)),
)
