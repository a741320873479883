-- ===== src/Call/HistoryLaws.antt =====
-- The history of calls: what is recorded, listed and changed.
use mathlib.Core.List.{Perm}
use mathlib.Core.List.Perm
use nalang_project.Prelude.{
  ℕ, ◌+◌, ◌≤◌, ◌≡◌, refl, ◌∙◌, ◌⊎◌, String, Bool, true, false, not, ◌&&◌, Option, List, [], ◌∷◌,
  ◌++◌, map, keep, length, length-map, All, All-append, arith, ◌==◌, nat_eq, string_eq, pos, leb_ℤ,
  leb, inl, inr, Bool-cases, Option-cases, ==_iff, some, ap,
}
use nalang_project.Raise.{ok, err, http, integrity_error, data_error}
use nalang_project.Models.{User, Db, CallHistory}
use nalang_project.Auth.World.{Clock, Server}
use nalang_project.Auth.Accounts.{find_by_id, is_some}
use nalang_project.Call.History.{
  CallHistoryCreate, new_history, has_user, has_users, fits_columns, create_call_history,
  create_call_history_with_check, join_partner, put_row, newest_first, to_entry, history_rows,
  get_history_list, set_url, update_audio_url,
}

abbrev Row : Type 0
Row = CallHistory × User

-- Newest first: no row is older than a row behind it.
abbrev pub IsNewestFirst : List Row → Type 0
IsNewestFirst [] = Unit
IsNewestFirst (x ∷ xs) = All (λ y. y.0.created_at ≤ x.0.created_at) xs × IsNewestFirst xs

All-le :
    (a b : ℕ) (xs : List Row)
    → a ≤ b
    → All (λ y. y.0.created_at ≤ a) xs
    → All (λ y. y.0.created_at ≤ b) xs
All-le a b [] h k = tt
All-le a b (x ∷ xs) h k = (omega arith, All-le a b xs h k.1)

All-put_row : (P : Row → Type 0) (r : Row) (xs : List Row) → P r → All P xs → All P (put_row r xs)
unfolding put_row
All-put_row P r [] p h = (p, tt)
All-put_row P r (x ∷ xs) p h = elim (Bool-cases (leb x.0.created_at r.0.created_at)) [
  | inl e ↦ rw e (p, h)
  | inr e ↦ rw e (h.0, All-put_row P r xs p h.1)
]

put_row-IsNewestFirst : (r : Row) (xs : List Row) → IsNewestFirst xs → IsNewestFirst (put_row r xs)
unfolding put_row
put_row-IsNewestFirst r [] h = (tt, tt)
put_row-IsNewestFirst r (x ∷ xs) h = elim (Bool-cases (leb x.0.created_at r.0.created_at)) [
  | inl e ↦ rw e (
      let le : x.0.created_at ≤ r.0.created_at = ground arith in
      ((le, All-le x.0.created_at r.0.created_at xs le h.0), h))
  | inr e ↦ rw e (
    All-put_row (λ y. y.0.created_at ≤ x.0.created_at) r xs (ground arith) h.0,
    put_row-IsNewestFirst r xs h.1,
  )
]

newest_first-IsNewestFirst : (rs : List Row) → IsNewestFirst (newest_first rs)
unfolding newest_first
newest_first-IsNewestFirst [] = tt
newest_first-IsNewestFirst (r ∷ rs) =
    put_row-IsNewestFirst r (newest_first rs) (newest_first-IsNewestFirst rs)

put_row-perm : (r : Row) (xs : List Row) → Perm (put_row r xs) (r ∷ xs)
unfolding put_row
put_row-perm r [] = Perm.refl (r ∷ [])
put_row-perm r (x ∷ xs) = elim (Bool-cases (leb x.0.created_at r.0.created_at)) [
  | inl e ↦ rw e (Perm.refl (r ∷ x ∷ xs))
  | inr e ↦ rw e (Perm.trans (Perm.cons x (put_row-perm r xs)) (Perm.swap r x xs))
]

newest_first-perm : (rs : List Row) → Perm (newest_first rs) rs
unfolding newest_first
newest_first-perm [] = Perm.refl []
newest_first-perm (r ∷ rs) =
    Perm.trans (put_row-perm r (newest_first rs)) (Perm.cons r (newest_first-perm rs))

-- A call of the user with the row of its partner.
abbrev pub IsJoined : ℕ → List User → Row → Type 0
IsJoined user_id users (h, partner) =
    (h.user_id ≡ user_id) × (find_by_id (pos h.partner_id) users ≡ some partner)

-- The calls of the user whose partner has a row.
abbrev pub calls_of : ℕ → List User → List CallHistory → List CallHistory
calls_of user_id users hs =
    keep (λ h. (h.user_id == user_id) && is_some (find_by_id (pos h.partner_id) users)) hs

join_partner-IsJoined :
    (user_id : ℕ) (users : List User) (hs : List CallHistory)
    → All (IsJoined user_id users) (join_partner user_id users hs)
unfolding join_partner
join_partner-IsJoined user_id users [] = tt
join_partner-IsJoined user_id users (h ∷ hs) = elim (Bool-cases (h.user_id == user_id)) [
  | inr e ↦ rw e (join_partner-IsJoined user_id users hs)
  | inl e ↦ elim (Option-cases (find_by_id (pos h.partner_id) users)) [
    | inl n ↦ rw (e, n) (join_partner-IsJoined user_id users hs)
    | inr (p, n) ↦
        rw (e, n) (((==_iff h.user_id user_id).0 e, n), join_partner-IsJoined user_id users hs)
  ]
]

map-join_partner :
    (user_id : ℕ) (users : List User) (hs : List CallHistory)
    → map (λ r. r.0) (join_partner user_id users hs) ≡ calls_of user_id users hs
unfolding join_partner
map-join_partner user_id users [] = refl
map-join_partner user_id users (h ∷ hs) = elim (Bool-cases (h.user_id == user_id)) [
  | inr e ↦ rw e (map-join_partner user_id users hs)
  | inl e ↦ elim (Option-cases (find_by_id (pos h.partner_id) users)) [
    | inl n ↦ rw (e, n) (map-join_partner user_id users hs)
    | inr (p, n) ↦ rw (e, n) (ap (λ l. h ∷ l) (map-join_partner user_id users hs))
  ]
]

All-newest_first : (P : Row → Type 0) (rs : List Row) → All P rs → All P (newest_first rs)
unfolding newest_first
All-newest_first P [] a = tt
All-newest_first P (r ∷ rs) a = All-put_row P r (newest_first rs) a.0 (All-newest_first P rs a.1)

-- The listed rows come newest first. Each is a call of the user with the row of its partner, and
-- every recorded call of the user whose partner has a row is listed as often as it is recorded.
pub history_rows-order :
    (user_id : ℕ) (d : Db)
    → let rows = history_rows user_id d in
      IsNewestFirst rows
      × All (IsJoined user_id d.users) rows
      × Perm (map (λ r. r.0) rows) (calls_of user_id d.users d.histories)
unfolding history_rows
history_rows-order user_id d =
    let joined = join_partner user_id d.users d.histories in
    (
      newest_first-IsNewestFirst joined,
      All-newest_first _ joined (join_partner-IsJoined user_id d.users d.histories),
      rw⁻¹ (map-join_partner user_id d.users d.histories)
          (Perm.map (λ r. r.0) (newest_first-perm joined)),
    )

-- Every recorded call is between two known users, as the foreign keys demand.
abbrev pub IsLinked : Db → Type 0
IsLinked d = All (λ h. (has_user h.user_id d ≡ true) × (has_user h.partner_id d ≡ true)) d.histories

length-put_row : (r : Row) (xs : List Row) → length (put_row r xs) ≡ length xs + 1
unfolding put_row
length-put_row r [] = omega arith
length-put_row r (x ∷ xs) = ground (arith, length-put_row r xs)

length-newest_first : (rs : List Row) → length (newest_first rs) ≡ length rs
unfolding newest_first
length-newest_first [] = refl
length-newest_first (r ∷ rs) =
    omega (arith, length-put_row r (newest_first rs), length-newest_first rs)

length-join_partner :
    (user_id : ℕ) (users : List User) (hs : List CallHistory)
    → All (λ h. is_some (find_by_id (pos h.partner_id) users) ≡ true) hs
    → length (join_partner user_id users hs) ≡ length (keep (λ h. h.user_id == user_id) hs)
unfolding join_partner
length-join_partner user_id users [] a = refl
length-join_partner user_id users (h ∷ hs) a =
    ground (arith, length-join_partner user_id users hs a.1)

partners_known :
    (d : Db) (hs : List CallHistory)
    → All (λ h. (has_user h.user_id d ≡ true) × (has_user h.partner_id d ≡ true)) hs
    → All (λ h. is_some (find_by_id (pos h.partner_id) d.users) ≡ true) hs
partners_known d [] a = tt
partners_known d (h ∷ hs) a = (a.0.1, partners_known d hs a.1)

-- If every recorded call is between known users, the list of a user is as long as the list of
-- the calls recorded for that user.
pub length-get_history_list :
    (user : User) (d : Db)
    → IsLinked d
    → length (get_history_list user d) ≡ length (keep (λ h. h.user_id == user.id) d.histories)
unfolding get_history_list
length-get_history_list user d a =
    length-map to_entry (history_rows user.id d)
    ∙ length-newest_first (join_partner user.id d.users d.histories)
    ∙ length-join_partner user.id d.users d.histories (partners_known d d.histories a)

-- How the recording of a call ends.
abbrev pub Recorded : Clock → CallHistoryCreate → Server → Type 0
Recorded t h s =
    let (answer, after) = create_call_history_with_check t h s in
    let row = new_history t h s.db.next_history in
    let long_enough = leb_ℤ h.duration_sec (pos 0) ≡ false in
    ((leb_ℤ h.duration_sec (pos 0) ≡ true)
      × (answer ≡ err (http 404 "Failed create record, 0초 이상 필요"))
      × (after ≡ s))
    ⊎ (long_enough × (fits_columns h ≡ false) × (answer ≡ err data_error) × (after ≡ s))
    ⊎ (long_enough
        × (fits_columns h ≡ true)
        × (has_users h s.db ≡ true)
        × (answer ≡ ok row)
        × (after.db.histories ≡ s.db.histories ++ row ∷ []))
    ⊎ (long_enough
        × (fits_columns h ≡ true)
        × (has_users h s.db ≡ false)
        × (answer ≡ err integrity_error)
        × (after.db.histories ≡ s.db.histories))

both-known : (a b : Bool) → (a && b) ≡ true → (a ≡ true) × (b ≡ true)
both-known a b h = ground arith

-- If every recorded call is between known users: a call is recorded if its duration is above zero,
-- its numbers fit the 32 bits of their columns and both of its users are known, and else nothing is
-- recorded; a duration of zero or less is refused with status 404. Recorded calls stay between
-- known users.
pub create_call_history_with_check-IsLinked :
    (t : Clock) (h : CallHistoryCreate) (s : Server)
    → IsLinked s.db
    → IsLinked (create_call_history_with_check t h s).1.db × Recorded t h s
unfolding create_call_history_with_check create_call_history new_history
create_call_history_with_check-IsLinked t h s a = elim (Bool-cases (leb_ℤ h.duration_sec (pos 0))) [
  | inl e ↦ rw e (a, inl (refl, refl, refl))
  | inr e ↦ elim (Bool-cases (fits_columns h)) [
    | inr f ↦ rw (e, f) (a, inr (inl (refl, refl, refl, refl)))
    | inl f ↦ elim (Bool-cases (has_users h s.db)) [
      | inl k ↦
          rw (e, f, k)
            (
              All-append _ s.db.histories _ a ((both-known _ _ k), tt),
              inr (inr (inl (refl, refl, refl, refl, refl))),
            )
      | inr k ↦ rw (e, f, k) (a, inr (inr (inr (refl, refl, refl, refl, refl))))
    ]
  ]
]

keep-set_url :
    (room : String) (url : Option String) (hs : List CallHistory)
    → All (λ h. h.recording_url ≡ url) (keep (λ h. h.room_name == room) (map (set_url room url) hs))
unfolding set_url
keep-set_url room url [] = tt
keep-set_url room url (h ∷ hs) = elim (Bool-cases (h.room_name == room)) [
  | inl e ↦ rw (e, e) (refl, keep-set_url room url hs)
  | inr e ↦ rw (e, e) (keep-set_url room url hs)
]

others-set_url :
    (room : String) (url : Option String) (hs : List CallHistory)
    → keep (λ h. not (h.room_name == room)) (map (set_url room url) hs)
      ≡ keep (λ h. not (h.room_name == room)) hs
unfolding set_url
others-set_url room url [] = refl
others-set_url room url (h ∷ hs) = ground (arith, others-set_url room url hs)

length-keep-set_url :
    (room : String) (url : Option String) (hs : List CallHistory)
    → length (keep (λ h. h.room_name == room) hs)
      ≡ length (keep (λ h. h.room_name == room) (map (set_url room url) hs))
unfolding set_url
length-keep-set_url room url [] = refl
length-keep-set_url room url (h ∷ hs) = ground (arith, length-keep-set_url room url hs)

set_url_idem :
    (room : String) (url : Option String) (hs : List CallHistory)
    → map (set_url room url) (map (set_url room url) hs) ≡ map (set_url room url) hs
unfolding set_url
set_url_idem room url [] = refl
set_url_idem room url (h ∷ hs) = ground (arith, set_url_idem room url hs)

-- Setting the address of a recording: every call of the room has it, the other calls are as before,
-- the answer is the number of the room's calls, and doing it again changes nothing.
pub update_audio_url-rows :
    (room : String) (url : Option String) (s : Server)
    → let (n, after) = update_audio_url room url s in
      All (λ h. h.recording_url ≡ url) (keep (λ h. h.room_name == room) after.db.histories)
      × (keep (λ h. not (h.room_name == room)) after.db.histories
          ≡ keep (λ h. not (h.room_name == room)) s.db.histories)
      × (n ≡ length (keep (λ h. h.room_name == room) after.db.histories))
      × (update_audio_url room url after ≡ (n, after))
unfolding update_audio_url
update_audio_url-rows room url s =
    let hs = s.db.histories in
    (
      keep-set_url room url hs,
      others-set_url room url hs,
      length-keep-set_url room url hs,
      rw (set_url_idem room url hs, ← length-keep-set_url room url hs),
    )
