-- ===== src/Models.antt =====
-- The rows of the tables that several parts share (server/app/domains/user/models).
use nalang_project.Prelude.{ℕ, String, Option, List, ℤ}
use nalang_project.Calendar.{DateTime}

-- `User`, with its rows of the three association tables as the lists of what they link to.
pub record User : Type 0 where
  pub id : ℕ
  pub email : String
  pub hashed_password : Option String
  pub name : String
  pub profile_image : Option String
  pub provider : Option String
  pub birth_date : Option DateTime
  pub created_at : ℕ
  pub interest_links : List ℕ
  pub language_links : List ℕ
  pub gender_links : List ℕ

-- A row of `InterestTranslation`, `LanguageTranslation` or `GenderTranslation`.
pub record Translation : Type 0 where
  pub locale : String
  pub name : String

-- A row of `Interest`, `Language` or `Gender`: its unique name or code, and its translations.
pub record Item : Type 0 where
  pub id : ℕ
  pub code : String
  pub translations : List Translation

-- `CallHistory` of server/app/domains/call/models/call_history.py; times are in seconds.
pub record CallHistory : Type 0 where
  pub id : ℕ
  pub user_id : ℕ
  pub partner_id : ℕ
  pub room_name : String
  pub started_at : ℕ
  pub ended_at : ℕ
  pub duration_sec : ℤ
  pub recording_url : Option String
  pub transcript_url : Option String
  pub summary_text : Option String
  pub created_at : ℕ

-- The committed rows, and the next number of each sequence of primary keys.
pub record Db : Type 0 where
  pub users : List User
  pub next_user : ℕ
  pub interests : List Item
  pub languages : List Item
  pub genders : List Item
  pub histories : List CallHistory
  pub next_history : ℕ
