-- ===== src/App/Stable.antt =====
-- Properties of the database that every change which the code makes keeps.
use nalang_project.Prelude.{
  ℕ, ◌≤ℤ◌, ◌≤◌, ◌+◌, ◌≡◌, String, true, false, Option, none, some, List, [], ◌∷◌, ◌++◌, map, pos,
}
use nalang_project.Models.{User, Item, CallHistory, Db}
use nalang_project.Auth.World.{Libraries}
use nalang_project.Auth.Validation.{IsAddress}
use nalang_project.Auth.Accounts.{count, find_by_email, find_by_id}
use nalang_project.Call.Queue
use nalang_project.Redis
use nalang_project.Redis.{Redis}
use nalang_project.Text.{str}
use nalang_project.Waiting.State.{Value, text, profile, user_key}
use nalang_project.Waiting.Filter.{Filters}
use nalang_project.Waiting.Connect.{user_data_of}
use nalang_project.Call.History.{has_user, set_url}
use nalang_project.Profile.Update
use nalang_project.Profile.Update.{repeats}
use nalang_project.Profile.UpdateLaws.{all_known}

-- The links of a user name options, and none twice.
abbrev pub HasLinks : Db → User → Type 0
HasLinks d u =
    (all_known d.interests u.interest_links ≡ true)
    × (all_known d.languages u.language_links ≡ true)
    × (all_known d.genders u.gender_links ≡ true)
    × (repeats u.interest_links ≡ false)
    × (repeats u.language_links ≡ false)

-- What a user is known by: all but the picture and the links.
abbrev pub account : User → User
account u = record u {
  profile_image = none;
  interest_links = [];
  language_links = [];
  gender_links = [];
}

-- What the validation of the registration says of an account.
abbrev pub IsAccount : Libraries → User → Type 0
IsAccount x u = IsAddress x u.email × (2 ≤ count u.name) × (count u.name ≤ 30)

-- A second at least, and no more than the 32 bits of the column can hold.
abbrev pub HasDuration : CallHistory → Type 0
HasDuration h = (pos 1 ≤ℤ h.duration_sec) × (h.duration_sec ≤ℤ pos 2147483647)

-- The changes of the database and of Redis that the code makes, under the conditions under which it makes them.
pub record IsStable (x : Libraries) (P : Db → Redis Value → Type 0) : Type 0 where
  pub insert_user :
      (u : User) (d : Db) (r : Redis Value)
      → find_by_email u.email d.users ≡ none
      → u.id ≡ d.next_user
      → IsAccount x u
      → HasLinks d u
      → P d r
      → P (record d { next_user = d.next_user + 1; users = d.users ++ u ∷ [] }) r
  pub count_user :
      (d : Db) (r : Redis Value) → P d r → P (record d { next_user = d.next_user + 1 }) r
  pub replace_user :
      (u u' : User) (d : Db) (r : Redis Value)
      → find_by_id (pos u.id) d.users ≡ some u
      → account u' ≡ account u
      → (HasLinks d u → HasLinks d u')
      → P d r
      → P (record d { users = Update.replace_user u' d.users }) r
  pub insert_history :
      (h : CallHistory) (d : Db) (r : Redis Value)
      → h.id ≡ d.next_history
      → has_user h.user_id d ≡ true
      → has_user h.partner_id d ≡ true
      → HasDuration h
      → P d r
      → P (record d { next_history = d.next_history + 1; histories = d.histories ++ h ∷ [] }) r
  pub count_history :
      (d : Db) (r : Redis Value) → P d r → P (record d { next_history = d.next_history + 1 }) r
  pub set_urls :
      (room : String) (url : Option String) (d : Db) (r : Redis Value)
      → P d r
      → P (record d { histories = map (set_url room url) d.histories }) r
  pub insert_options :
      (i l g : List Item) (d : Db) (r : Redis Value)
      → P d r
      → P
          (record d {
            interests = d.interests ++ i;
            languages = d.languages ++ l;
            genders = d.genders ++ g;
          })
          r
  pub store_token :
      (now id : ℕ) (token : String) (d : Db) (r : Redis Value)
      → has_user id d ≡ true
      → P d r
      → P d (Redis.set now token (text (str id)) 604800 r)
  pub start_waiting :
      (now id : ℕ) (d : Db) (r : Redis Value) → P d r → P d (Queue.start_waiting now id r)
  pub store_profile :
      (now : ℕ) (u : User) (f : Filters) (d : Db) (r : Redis Value)
      → has_user u.id d ≡ true
      → P d r
      → P d (Redis.set now (user_key u.id) (profile (user_data_of u) f) 600 r)
  pub delete : (key : String) (d : Db) (r : Redis Value) → P d r → P d (Redis.delete key r)
