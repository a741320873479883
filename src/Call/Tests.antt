-- ===== src/Call/Tests.antt =====
-- Two users, the calls between them, and callers who wait.
use nalang_project.Prelude.{
  ℕ, ◌≡◌, refl, String, not, none, some, [], ◌∷◌, All, keep, length, pos, arith, ◌==◌, nat_eq,
  string_eq, map,
}
use mathlib.Core.List.{Perm}
use nalang_project.Redis
use nalang_project.Models.{User, CallHistory, Db}
use nalang_project.Auth.World.{Clock, Server}
use nalang_project.Call.History.{
  CallHistoryCreate, create_call_history_with_check, history_rows, update_audio_url,
}
use nalang_project.Call.HistoryLaws.{
  IsNewestFirst, IsJoined, calls_of, IsLinked, Recorded, history_rows-order,
  create_call_history_with_check-IsLinked, update_audio_url-rows,
}
use nalang_project.Call.Queue.{register_for_call_queue, start_waiting}
use nalang_project.Call.QueueLaws.{place, register_for_call_queue-twice}

abbrev user : ℕ → String → User
user id email = record {
  id = id;
  email = email;
  hashed_password = none;
  name = "Ann";
  profile_image = none;
  provider = none;
  birth_date = none;
  created_at = 0;
  interest_links = [];
  language_links = [];
  gender_links = [];
}

abbrev history : ℕ → ℕ → ℕ → ℕ → CallHistory
history id a b created = record {
  id = id;
  user_id = a;
  partner_id = b;
  room_name = "room_1_2_0a1b2c";
  started_at = 10;
  ended_at = 70;
  duration_sec = pos 60;
  recording_url = none;
  transcript_url = none;
  summary_text = none;
  created_at = created;
}

abbrev db : Db
db = record {
  users = user 1 "a@b.kr" ∷ user 2 "b@b.kr" ∷ [];
  next_user = 3;
  interests = [];
  languages = [];
  genders = [];
  histories = history 1 1 2 80 ∷ history 2 2 1 80 ∷ history 3 1 2 190 ∷ [];
  next_history = 4;
}

abbrev server : Server
server = record { db = db; redis = [] }

abbrev clock : Clock
clock = record { now = 200; local_now = 200 }

linked : IsLinked db
unfolding nalang_project.Auth.Accounts.find_by_id
linked = ((refl, refl), ((refl, refl), ((refl, refl), tt)))

history_rows-order_example :
    let rows = history_rows 1 db in
    IsNewestFirst rows
    × All (IsJoined 1 db.users) rows
    × Perm (map (λ r. r.0) rows) (calls_of 1 db.users db.histories)
history_rows-order_example = history_rows-order 1 db

abbrev talk : CallHistoryCreate
talk = record {
  user_id = 1;
  partner_id = 2;
  room_name = "room_2_1_0f0f0f";
  started_at = 100;
  ended_at = 190;
  duration_sec = pos 90;
  recording_url = none;
  transcript_url = none;
  summary_text = none;
}

create_call_history_with_check-IsLinked_example :
    IsLinked (create_call_history_with_check clock talk server).1.db × Recorded clock talk server
create_call_history_with_check-IsLinked_example =
    create_call_history_with_check-IsLinked clock talk server linked

update_audio_url-rows_example :
    let (n, after) = update_audio_url "room_1_2_0a1b2c" (some "https://s3") server in
    All
      (λ (h : CallHistory). h.recording_url ≡ some "https://s3")
      (keep (λ (h : CallHistory). h.room_name == "room_1_2_0a1b2c") after.db.histories)
    × (keep (λ (h : CallHistory). not (h.room_name == "room_1_2_0a1b2c")) after.db.histories
        ≡ keep (λ (h : CallHistory). not (h.room_name == "room_1_2_0a1b2c")) server.db.histories)
    × (n ≡ length (keep (λ (h : CallHistory). h.room_name == "room_1_2_0a1b2c") after.db.histories))
    × (update_audio_url "room_1_2_0a1b2c" (some "https://s3") after ≡ (n, after))
update_audio_url-rows_example = update_audio_url-rows "room_1_2_0a1b2c" (some "https://s3") server

register_for_call_queue-twice_example :
    let (answer, r1) = register_for_call_queue 10 1 [] in
    (answer ≡ "waiting")
    × (register_for_call_queue 20 1 r1 ≡ ("already_waiting", r1))
    × (register_for_call_queue 610 1 r1 ≡ ("waiting", start_waiting 610 1 r1))
    × (place 20 2 r1 ≡ place 20 2 [])
unfolding Redis.get
register_for_call_queue-twice_example =
    register_for_call_queue-twice 10 20 610 1 2 [] refl (omega arith) (omega arith) (omega arith)
