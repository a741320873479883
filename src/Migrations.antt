-- ===== src/Migrations.antt =====
-- The migrations of the database: server/alembic/versions.
pub mod Laws
mod Tests
use nalang_project.Prelude.{
  ℕ, String, Bool, true, false, ◌&&◌, Option, none, some, List, [], ◌∷◌, ◌++◌, if◌then◌else◌, any,
  keep, not, ◌==◌, string_eq,
}
use nalang_project.Dict.{Dict, lookup, insert, erase, contains}

pub data ColumnType : Type 0 where
  integer : ColumnType
  string : ColumnType
  date : ColumnType
  -- `sa.DateTime()` and `sa.DateTime(timezone=True)`
  datetime : ColumnType
  datetime_with_timezone : ColumnType

pub record Column : Type 0 where
  pub name : String
  pub type : ColumnType
  pub nullable : Bool

pub record Table : Type 0 where
  pub columns : List Column
  -- a column and the table whose `id` it refers to
  pub foreign_keys : List (String × String)
  pub primary_key : List String

-- The tables, and the indexes with the table and the columns of each.
pub record Schema : Type 0 where
  pub tables : Dict String Table
  pub indexes : Dict String (String × List String)

pub data Op : Type 0 where
  create_table : String → Table → Op
  drop_table : String → Op
  create_index : String → String → List String → Op
  drop_index : String → Op
  -- the new type of a column; `existing_type` and `existing_nullable` change nothing
  alter_column : String → String → ColumnType → Op

abbrev pub has_column : String → List Column → Bool
has_column name columns = any (λ c. c.name == name) columns

abbrev pub set_type : String → ColumnType → List Column → List Column
set_type name ty [] = []
set_type name ty (c ∷ cs) =
    (if c.name == name then record c { type = ty } else c) ∷ set_type name ty cs

abbrev pub are_known : List (String × String) → Dict String Table → Bool
are_known [] tables = true
are_known ((column, table) ∷ keys) tables = contains table tables && are_known keys tables

abbrev alter_in : String → String → ColumnType → Option Table → Schema → Option Schema
alter_in table column ty none s = none
alter_in table column ty (some t) s =
    if has_column column t.columns
    then some (record s {
      tables = insert table (record t { columns = set_type column ty t.columns }) s.tables;
    })
    else none

-- PostgreSQL's answer to one operation, `none` for an error.
unfoldable pub apply : Op → Schema → Option Schema
apply (create_table name t) s =
    if contains name s.tables
    then none
    else if are_known t.foreign_keys s.tables
    then some (record s { tables = insert name t s.tables })
    else none
apply (drop_table name) s =
    if contains name s.tables
    then some (record {
      tables = erase name s.tables;
      indexes = keep (λ i. not (i.1.0 == name)) s.indexes;
    })
    else none
apply (create_index name table columns) s =
    if contains name s.indexes
    then none
    else if contains table s.tables
    then some (record s { indexes = insert name (table, columns) s.indexes })
    else none
apply (drop_index name) s =
    if contains name s.indexes then some (record s { indexes = erase name s.indexes }) else none
apply (alter_column table column ty) s = alter_in table column ty (lookup table s.tables) s

abbrev pub and_run {ℓ} : {A : Type ℓ} → Option A → (A → Option A) → Option A
and_run none f = none
and_run (some a) f = f a

unfoldable pub run_ops : List Op → Schema → Option Schema
run_ops [] s = some s
run_ops (op ∷ ops) s = and_run (apply op s) (run_ops ops)

pub record Revision : Type 0 where
  pub revision : String
  pub down_revision : Option String
  pub upgrade : List Op
  pub downgrade : List Op

abbrev column : String → ColumnType → Bool → Column
column name ty nullable = record { name = name; type = ty; nullable = nullable }

abbrev pub call_histories : Table
call_histories = record {
  columns =
      column "id" integer false
      ∷ column "user_id" integer false
      ∷ column "partner_id" integer false
      ∷ column "room_name" string false
      ∷ column "started_at" datetime false
      ∷ column "ended_at" datetime false
      ∷ column "duration_sec" integer true
      ∷ column "recording_url" string true
      ∷ column "transcript_url" string true
      ∷ column "summary_text" string true
      ∷ column "created_at" datetime true
      ∷ [];
  foreign_keys = ("partner_id", "users") ∷ ("user_id", "users") ∷ [];
  primary_key = "id" ∷ [];
}

abbrev pub init : Revision
init = record {
  revision = "97756d18ea20";
  down_revision = none;
  upgrade =
      create_table "call_histories" call_histories
      ∷ create_index "ix_call_histories_id" "call_histories" ("id" ∷ [])
      ∷ alter_column "users" "birth_date" datetime
      ∷ [];
  downgrade =
      alter_column "users" "birth_date" date
      ∷ drop_index "ix_call_histories_id"
      ∷ drop_table "call_histories"
      ∷ [];
}

abbrev pub test : Revision
test = record {
  revision = "f301475ab85e";
  down_revision = some "97756d18ea20";
  upgrade =
      create_table "call_histories" call_histories
      ∷ create_index "ix_call_histories_id" "call_histories" ("id" ∷ [])
      ∷ [];
  downgrade = drop_index "ix_call_histories_id" ∷ drop_table "call_histories" ∷ [];
}

abbrev pub call_history_datetime : Revision
call_history_datetime = record {
  revision = "024105110a58";
  down_revision = some "f301475ab85e";
  upgrade = [];
  downgrade = [];
}

abbrev pub timezone : Revision
timezone = record {
  revision = "5d86c0f7e153";
  down_revision = some "024105110a58";
  upgrade =
      alter_column "call_histories" "started_at" datetime_with_timezone
      ∷ alter_column "call_histories" "ended_at" datetime_with_timezone
      ∷ [];
  downgrade =
      alter_column "call_histories" "ended_at" datetime
      ∷ alter_column "call_histories" "started_at" datetime
      ∷ [];
}

abbrev pub timezone1 : Revision
timezone1 = record {
  revision = "a4609fd14bff";
  down_revision = some "5d86c0f7e153";
  upgrade = alter_column "call_histories" "created_at" datetime_with_timezone ∷ [];
  downgrade = alter_column "call_histories" "created_at" datetime ∷ [];
}

abbrev pub timezone1_again : Revision
timezone1_again = record {
  revision = "d5a1dc523412";
  down_revision = some "a4609fd14bff";
  upgrade = [];
  downgrade = [];
}

-- From the base to the head.
abbrev pub versions : List Revision
versions = init ∷ test ∷ call_history_datetime ∷ timezone ∷ timezone1 ∷ timezone1_again ∷ []

-- `alembic upgrade head`
unfoldable pub upgrade_head : List Revision → Schema → Option Schema
unfolding run_ops
upgrade_head [] s = some s
upgrade_head (r ∷ rs) s = and_run (run_ops r.upgrade s) (upgrade_head rs)
