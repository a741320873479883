-- ===== src/Call/History.antt =====
-- The history of calls: server/app/domains/call/crud.py, schemas.py and the last three functions of
-- services/livekit_service.py.
use nalang_project.Prelude.{
  ℕ, ◌+◌, String, Bool, ◌&&◌, Option, none, some, List, [], ◌∷◌, ◌++◌, map, keep, length,
  if◌then◌else◌, ◌==◌, nat_eq, string_eq, ℤ, pos, negsuc, leb_ℤ, leb,
}
use nalang_project.Raise.{Exec, ok, err, http, integrity_error, data_error, raise_if, ◌>>◌}
use nalang_project.Models.{User, Db, CallHistory}
use nalang_project.Auth.World.{Clock, Server}
use nalang_project.Auth.Accounts.{find_by_id, is_some}

pub record CallHistoryCreate : Type 0 where
  pub user_id : ℕ
  pub partner_id : ℕ
  pub room_name : String
  pub started_at : ℕ
  pub ended_at : ℕ
  pub duration_sec : ℤ
  pub recording_url : Option String
  pub transcript_url : Option String
  pub summary_text : Option String

-- `CallHistory(**history_data.model_dump())`
unfoldable pub new_history : Clock → CallHistoryCreate → ℕ → CallHistory
new_history t h id = record {
  id = id;
  user_id = h.user_id;
  partner_id = h.partner_id;
  room_name = h.room_name;
  started_at = h.started_at;
  ended_at = h.ended_at;
  duration_sec = h.duration_sec;
  recording_url = h.recording_url;
  transcript_url = h.transcript_url;
  summary_text = h.summary_text;
  created_at = t.now;
}

abbrev pub has_user : ℕ → Db → Bool
has_user id d = is_some (find_by_id (pos id) d.users)

-- A column of type `Integer` has 32 bits.
abbrev pub fits_integer : ℤ → Bool
fits_integer n = leb_ℤ (negsuc 2147483647) n && leb_ℤ n (pos 2147483647)

abbrev pub fits_columns : CallHistoryCreate → Bool
fits_columns h =
    fits_integer (pos h.user_id) && (fits_integer (pos h.partner_id) && fits_integer h.duration_sec)

abbrev pub has_users : CallHistoryCreate → Db → Bool
has_users h d = has_user h.user_id d && has_user h.partner_id d

-- The driver refuses a number that does not fit its column before it sends anything. Both foreign
-- keys must name a user; the number of the row is taken in any case.
unfoldable pub create_call_history : Clock → CallHistoryCreate → Exec Server CallHistory
create_call_history t h s =
    let d = s.db in
    let counted = record d { next_history = d.next_history + 1 } in
    let row = new_history t h d.next_history in
    if fits_columns h
    then (if has_users h d
        then (ok row, record s { db = record counted { histories = d.histories ++ row ∷ [] } })
        else (err integrity_error, record s { db = counted }))
    else (err data_error, s)

unfoldable pub create_call_history_with_check : Clock → CallHistoryCreate → Exec Server CallHistory
create_call_history_with_check t h = do
  raise_if (leb_ℤ h.duration_sec (pos 0)) (http 404 "Failed create record, 0초 이상 필요")
  create_call_history t h

pub record PartnerInfo : Type 0 where
  pub id : ℕ
  pub name : String
  pub profile_image : Option String

pub record CallHistoryList : Type 0 where
  pub id : ℕ
  pub room_name : String
  pub started_at : ℕ
  pub ended_at : ℕ
  pub duration_sec : ℤ
  pub partner : PartnerInfo

-- `join(Partner, CallHistory.partner_id == Partner.id)` and `where(CallHistory.user_id == user.id)`
abbrev with_partner :
    CallHistory → Option User → List (CallHistory × User) → List (CallHistory × User)
with_partner h none rest = rest
with_partner h (some p) rest = (h, p) ∷ rest

unfoldable pub join_partner : ℕ → List User → List CallHistory → List (CallHistory × User)
join_partner user_id users [] = []
join_partner user_id users (h ∷ hs) =
    let rest = join_partner user_id users hs in
    if h.user_id == user_id then with_partner h (find_by_id (pos h.partner_id) users) rest else rest

-- `order_by(CallHistory.created_at.desc())`; rows of one time stay in the order of the table.
unfoldable pub put_row : CallHistory × User → List (CallHistory × User) → List (CallHistory × User)
put_row r [] = r ∷ []
put_row r (x ∷ xs) =
    let rest = put_row r xs in if leb x.0.created_at r.0.created_at then r ∷ x ∷ xs else x ∷ rest

unfoldable pub newest_first : List (CallHistory × User) → List (CallHistory × User)
unfolding put_row
newest_first [] = []
newest_first (r ∷ rs) = put_row r (newest_first rs)

unfoldable pub to_entry : CallHistory × User → CallHistoryList
to_entry (ch, p) = record {
  id = ch.id;
  room_name = ch.room_name;
  started_at = ch.started_at;
  ended_at = ch.ended_at;
  duration_sec = ch.duration_sec;
  partner = record { id = p.id; name = p.name; profile_image = p.profile_image };
}

unfoldable pub history_rows : ℕ → Db → List (CallHistory × User)
history_rows user_id d = newest_first (join_partner user_id d.users d.histories)

unfoldable pub get_history_list : User → Db → List CallHistoryList
unfolding history_rows
get_history_list user d = map to_entry (history_rows user.id d)

-- The rows with the room's name get the address; the answer is their number.
unfoldable pub set_url : String → Option String → CallHistory → CallHistory
set_url room url h = if h.room_name == room then record h { recording_url = url } else h

unfoldable pub update_audio_url : String → Option String → Server → ℕ × Server
unfolding set_url
update_audio_url room url s =
    let d = s.db in
    (
      length (keep (λ h. h.room_name == room) d.histories),
      record s { db = record d { histories = map (set_url room url) d.histories } },
    )
