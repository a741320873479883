-- ===== src/Waiting/Turns.antt =====
-- The event loop: coroutines of the handlers (Waiting.Tasks) over one lobby, in any order.
use nalang_project.Prelude.{ℕ, zero, suc, List, [], ◌∷◌, ◌++◌}
use nalang_project.Json.{Json}
use nalang_project.Models.{User}
use nalang_project.Waiting.Filter.{Filters}
use nalang_project.Waiting.State.{Socket, Lobby, World}
use nalang_project.Waiting.Tasks.{Task, storing, receiving, leaving, advance}

-- Coroutines over one lobby.
pub record Pool : Type 0 where
  pub tasks : List Task
  pub lobby : Lobby

-- The `i`-th coroutine takes a step; a number without a coroutine changes nothing.
unfoldable pub turn : World → ℕ → List Task → Lobby → List Task × Lobby
unfolding advance
turn w i [] l = ([], l)
turn w zero (t ∷ ts) l = let (t', l') = advance w t l in (t' ∷ ts, l')
turn w (suc i) (t ∷ ts) l = let (ts', l') = turn w i ts l in (t ∷ ts', l')

-- What the event loop does next: a new call of a handler, or a step of a coroutine.
pub data Turn : Type 0 where
  connects : Socket → User → Filters → Turn
  receives : ℕ → Json → Turn
  leaves : ℕ → Turn
  runs : World → ℕ → Turn

unfoldable pub take_turn : Turn → Pool → Pool
unfolding turn
take_turn (connects sock user filters) p = record p {
  tasks = p.tasks ++ storing sock user filters ∷ [];
}
take_turn (receives user_id msg) p = record p { tasks = p.tasks ++ receiving user_id msg ∷ [] }
take_turn (leaves user_id) p = record p { tasks = p.tasks ++ leaving user_id ∷ [] }
take_turn (runs w i) p = let (ts, l) = turn w i p.tasks p.lobby in record { tasks = ts; lobby = l }

unfoldable pub run_turns : List Turn → Pool → Pool
unfolding take_turn
run_turns [] p = p
run_turns (t ∷ ts) p = run_turns ts (take_turn t p)
