-- ===== src/Migrations/Tests.antt =====
-- A database that has users with a birth date.
use nalang_project.Prelude.{◌≡◌, none, [], ◌∷◌, true}
use nalang_project.Migrations.{Schema, date, versions, upgrade_head}
use nalang_project.Migrations.Laws.{upgrade_head-versions}

abbrev users : Schema
users = record {
  tables =
      (
        "users",
        record {
          columns = record { name = "birth_date"; type = date; nullable = true } ∷ [];
          foreign_keys = [];
          primary_key = "id" ∷ [];
        },
      )
      ∷ [];
  indexes = [];
}

upgrade_head-versions_example : upgrade_head versions users ≡ none
upgrade_head-versions_example = upgrade_head-versions users
