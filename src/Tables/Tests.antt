-- ===== src/Tables/Tests.antt =====
-- Runs on the tables of the options.
use nalang_project.Prelude.{ℕ, ◌≡◌, ◌≢◌, refl, true, false, List, [], ◌∷◌, arith, nat_eq, string_eq}
use mathlib.Core.List.{Perm, Permᴰ}
use nalang_project.Models.{Item}
use nalang_project.Profile.UpdateLaws.{all_known}
use nalang_project.Raise.{Error, ok, err, integrity_error}
use nalang_project.Profile.Seed.{interests, seed_rows}
use nalang_project.Profile.Update.{repeats}
use nalang_project.Profile.View.{SetUpOption, order_by_id, join_items}
use nalang_project.Tables.{
  Interest, InterestTranslation, Options, interest_option, interest_translation, items_of, plant,
}
use nalang_project.Tables.Queries.{join_row, join_rows, ordered-join_rows}
use nalang_project.Tables.Planted.{viewed, viewed-plant}
use nalang_project.Tables.Links.{
  UserInterest, interest_link, links_of, replace_links, replace_links_lem,
}

-- An option that stood in the tables before the seeds.
abbrev with_books : Options Interest InterestTranslation
with_books = record {
  rows = record { id = 1; name = "Books" } ∷ [];
  next_row = 2;
  translations = record { id = 1; interest_id = 1; locale = "en"; name = "Books" } ∷ [];
  next_translation = 2;
}

viewed-plant_example :
    viewed (plant interests with_books) ≡ seed_rows 2 interests (items_of with_books)
viewed-plant_example =
    viewed-plant interests with_books
      (
        ((refl, (refl, tt)), ((refl, tt), (tt, tt))),
        (
          ((refl, (refl, tt)), ((refl, tt), (tt, tt))),
          (((refl, (refl, tt)), ((refl, tt), (tt, tt))), tt),
        ),
      )
      (record { numbers = (omega arith, tt); owners = (omega arith, tt) })

abbrev two_rows : Options Interest InterestTranslation
two_rows = record {
  rows = record { id = 2; name = "Music" } ∷ record { id = 1; name = "Books" } ∷ [];
  next_row = 3;
  translations =
      record { id = 1; interest_id = 1; locale = "en"; name = "Books" }
      ∷ record { id = 2; interest_id = 2; locale = "en"; name = "Music" }
      ∷ record { id = 3; interest_id = 2; locale = "ko"; name = "음악" }
      ∷ [];
  next_translation = 4;
}

abbrev joined : List SetUpOption
joined = record { id = 1; name = "Books" } ∷ record { id = 2; name = "Music" } ∷ []

in_another_order : Permᴰ (join_rows "en" two_rows.rows two_rows.translations) joined
unfolding join_rows join_row
in_another_order = Permᴰ.swap refl refl

ordered-join_rows_example : order_by_id joined ≡ order_by_id (join_items "en" (items_of two_rows))
ordered-join_rows_example =
    ordered-join_rows "en" two_rows joined (((λ e. omega (arith, e)), tt), (tt, tt))
      (refl, (refl, (refl, tt))) in_another_order

abbrev links : List UserInterest
links =
    record { user_id = 1; interest_id = 3 }
    ∷ record { user_id = 2; interest_id = 3 }
    ∷ record { user_id = 1; interest_id = 2 }
    ∷ []

abbrev option_items : List Item
option_items =
    record { id = 1; code = "Travel"; translations = [] }
    ∷ record { id = 3; code = "Sports"; translations = [] }
    ∷ []

replace_links_lem_example :
    let replaced = replace_links "Interest" option_items 1 (3 ∷ 1 ∷ []) links in
    (all_known option_items (3 ∷ 1 ∷ []) ≡ false → (e : Error) × (replaced ≡ err e))
    × (all_known option_items (3 ∷ 1 ∷ []) ≡ true
        → repeats (3 ∷ 1 ∷ []) ≡ true
        → replaced ≡ err integrity_error)
    × (all_known option_items (3 ∷ 1 ∷ []) ≡ true
        → repeats (3 ∷ 1 ∷ []) ≡ false
        → (after : List UserInterest) × (replaced ≡ ok after)
          × Perm (links_of 1 after) (3 ∷ 1 ∷ [])
          × ((v : ℕ) → v ≢ 1 → Perm (links_of v after) (links_of v links)))
replace_links_lem_example = replace_links_lem "Interest" option_items 1 (3 ∷ 1 ∷ []) links
