-- ===== src/Tables.antt =====
-- The tables of the options (server/app/domains/user/models/interest.py, language.py and gender.py):
-- their rows, with the constraints that the database checks.
pub mod Links
pub mod Ordering
pub mod Queries
pub mod Planting
pub mod Planted
mod Tests
use nalang_project.Prelude.{
  ℕ, ◌+◌, String, ◌≡◌, refl, Bool, true, false, ◌&&◌, List, [], ◌∷◌, ◌++◌, map, keep, any,
  if◌then◌else◌, ◌==◌, nat_eq, string_eq,
}
use nalang_project.Raise.{Result, ok, err, integrity_error, and_then}
use nalang_project.Models.{Item, Translation}

pub record Interest : Type 0 where
  pub id : ℕ
  pub name : String

pub record InterestTranslation : Type 0 where
  pub id : ℕ
  pub interest_id : ℕ
  pub locale : String
  pub name : String

pub record Language : Type 0 where
  pub id : ℕ
  pub code : String

pub record LanguageTranslation : Type 0 where
  pub id : ℕ
  pub language_id : ℕ
  pub locale : String
  pub name : String

pub record Gender : Type 0 where
  pub id : ℕ
  pub code : String

pub record GenderTranslation : Type 0 where
  pub id : ℕ
  pub gender_id : ℕ
  pub locale : String
  pub name : String

-- What the code uses of a row of an option and of a row of a translation, whichever table it is.
pub record IsOption (A : Type 0) : Type 0 where
  pub number : A → ℕ
  pub label : A → String
  pub make : ℕ → String → A
  pub number-make : (n : ℕ) (s : String) → number (make n s) ≡ n
  pub label-make : (n : ℕ) (s : String) → label (make n s) ≡ s

pub record IsTranslation (T : Type 0) : Type 0 where
  pub owner : T → ℕ
  pub content : T → Translation
  pub translate : ℕ → ℕ → Translation → T
  pub owner-translate : (n o : ℕ) (t : Translation) → owner (translate n o t) ≡ o
  pub content-translate : (n o : ℕ) (t : Translation) → content (translate n o t) ≡ t

instance abbrev pub interest_option : IsOption Interest
interest_option = record {
  number = λ i. i.id;
  label = λ i. i.name;
  make = λ n s. record { id = n; name = s };
  number-make = λ n s. refl;
  label-make = λ n s. refl;
}

instance abbrev pub language_option : IsOption Language
language_option = record {
  number = λ i. i.id;
  label = λ i. i.code;
  make = λ n s. record { id = n; code = s };
  number-make = λ n s. refl;
  label-make = λ n s. refl;
}

instance abbrev pub gender_option : IsOption Gender
gender_option = record {
  number = λ i. i.id;
  label = λ i. i.code;
  make = λ n s. record { id = n; code = s };
  number-make = λ n s. refl;
  label-make = λ n s. refl;
}

instance abbrev pub interest_translation : IsTranslation InterestTranslation
interest_translation = record {
  owner = λ t. t.interest_id;
  content = λ t. record { locale = t.locale; name = t.name };
  translate = λ n o t. record { id = n; interest_id = o; locale = t.locale; name = t.name };
  owner-translate = λ n o t. refl;
  content-translate = λ n o t. refl;
}

instance abbrev pub language_translation : IsTranslation LanguageTranslation
language_translation = record {
  owner = λ t. t.language_id;
  content = λ t. record { locale = t.locale; name = t.name };
  translate = λ n o t. record { id = n; language_id = o; locale = t.locale; name = t.name };
  owner-translate = λ n o t. refl;
  content-translate = λ n o t. refl;
}

instance abbrev pub gender_translation : IsTranslation GenderTranslation
gender_translation = record {
  owner = λ t. t.gender_id;
  content = λ t. record { locale = t.locale; name = t.name };
  translate = λ n o t. record { id = n; gender_id = o; locale = t.locale; name = t.name };
  owner-translate = λ n o t. refl;
  content-translate = λ n o t. refl;
}

-- A table of options and the table of their translations, with the next number of each sequence.
pub record Options (A T : Type 0) : Type 0 where
  pub rows : List A
  pub next_row : ℕ
  pub translations : List T
  pub next_translation : ℕ

abbrev pub has_translation : {T : Type 0} ⦃t : IsTranslation T⦄ → ℕ → String → List T → Bool
has_translation ⦃t⦄ owner locale ts =
    any (λ x. let c = t.content x in (t.owner x == owner) && (c.locale == locale)) ts

module _ {A T : Type 0} ⦃a : IsOption A⦄ ⦃t : IsTranslation T⦄ where
  -- A row with its `translations`.
  abbrev pub item_of : List T → A → Item
  item_of ts r = record {
    id = a.number r;
    code = a.label r;
    translations = map t.content (keep (λ x. t.owner x == a.number r) ts);
  }

  abbrev pub items_of : Options A T → List Item
  items_of o = map (item_of o.translations) o.rows

  -- `unique=True` on the name or code. After an error the transaction is rolled back, and there is no
  -- state to go on with; the number of the failed row is used up, so that tables of a later run have
  -- a greater `next_row`.
  unfoldable pub insert_row : String → Options A T → Result (Options A T)
  insert_row code o =
      if any (λ r. a.label r == code) o.rows
      then err integrity_error
      else ok (record o { rows = o.rows ++ a.make o.next_row code ∷ []; next_row = o.next_row + 1 })

  -- the unique constraint on the owner and the locale, and the foreign key
  unfoldable pub insert_translation : ℕ → Translation → Options A T → Result (Options A T)
  insert_translation owner x o =
      if has_translation owner x.locale o.translations
      then err integrity_error
      else if any (λ r. a.number r == owner) o.rows
      then ok (record o {
        translations = o.translations ++ t.translate o.next_translation owner x ∷ [];
        next_translation = o.next_translation + 1;
      })
      else err integrity_error

  unfoldable pub insert_translations : ℕ → List Translation → Options A T → Result (Options A T)
  unfolding insert_translation
  insert_translations owner [] o = ok o
  insert_translations owner (x ∷ xs) o =
      and_then (insert_translation owner x o) (insert_translations owner xs)

  -- The loop of init_seed.py over the names or codes with their translations.
  unfoldable pub plant : List (String × List Translation) → Options A T → Result (Options A T)
  unfolding insert_row insert_translations
  plant [] o = ok o
  plant ((code, xs) ∷ seeds) o =
      and_then (insert_row code o)
        (λ o1. and_then (insert_translations o.next_row xs o1) (plant seeds))
