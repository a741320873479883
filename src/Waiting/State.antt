-- ===== src/Waiting/State.antt =====
-- The state of server/app/domains/call/services/ws_service.py: its three module variables, the
-- Redis keys that it uses, and the messages that it has sent.
use nalang_project.Prelude.{ℕ, String, Bool, List, [], ◌∷◌, ◌++◌, if◌then◌else◌}
use nalang_project.Text.{◌+s◌, str}
use nalang_project.Calendar.{Date}
use nalang_project.Dict.{Dict}
use nalang_project.Redis
use nalang_project.Redis.{Redis}
use nalang_project.Raise.{Exec, ok, err, send_error}
use nalang_project.Waiting.Filter.{UserData, Filters}

-- Web sockets are told apart by numbers.
abbrev pub Socket : Type 0
Socket = ℕ

pub record MatchCandidate : Type 0 where
  pub user_ids : List ℕ
  pub sockets : List Socket
  pub accepted : List ℕ

-- What Redis holds: a plain text, or the text that `json.dumps` makes of a waiting user.
pub data Value : Type 0 where
  text : String → Value
  profile : UserData → Filters → Value

pub data Message : Type 0 where
  match_proposal : String → ℕ → Message
  matched : String → Message
  rejected : Message
  disconnected : Message

pub record Lobby : Type 0 where
  pub waiting_users : Dict ℕ Socket
  pub matching_candidates : Dict String MatchCandidate
  pub entered_users : List ℕ
  pub redis : Redis Value
  -- what has been sent, oldest first
  pub sent : List (Socket × Message)

-- The world at the time of a call: the clock, the date, the next random suffix of a room's name
-- and which sockets can still be written to.
pub record World : Type 0 where
  pub now : ℕ
  pub today : Date
  pub suffix : String
  pub online : Socket → Bool

-- f"call:user:{id}"
unfoldable pub user_key : ℕ → String
user_key id = "call:user:" +s str id

-- `await sock.send_json(message)`
unfoldable pub send : World → Socket → Message → Exec Lobby Unit
send w sock m l =
    if w.online sock
    then (ok tt, record l { sent = l.sent ++ (sock, m) ∷ [] })
    else (err send_error, l)

-- the same under `try` and `except Exception`
unfoldable pub try_send : World → Socket → Message → Lobby → Lobby
unfolding send
try_send w sock m l = (send w sock m l).1

unfoldable pub delete_profile : ℕ → Lobby → Lobby
delete_profile id l = record l { redis = Redis.delete (user_key id) l.redis }

abbrev pub empty : Lobby
empty = record {
  waiting_users = [];
  matching_candidates = [];
  entered_users = [];
  redis = [];
  sent = [];
}
