-- ===== src/Profile/Seed.antt =====
-- server/init_seed.py: the options and their translations.
use nalang_project.Prelude.{
  ℕ, ◌+◌, String, Bool, List, [], ◌∷◌, ◌++◌, if◌then◌else◌, any, ◌==◌, string_eq,
}
use nalang_project.Raise.{Result, ok, err, integrity_error, and_then}
use nalang_project.Models.{Item, Translation, Db}

-- The unique name or code of a row, and its translations in the order of the dictionary.
abbrev pub Seed : Type 0
Seed = String × List Translation

abbrev names : String → String → String → List Translation
names en ko ja =
    record { locale = "en"; name = en }
    ∷ record { locale = "ko"; name = ko }
    ∷ record { locale = "ja"; name = ja }
    ∷ []

abbrev pub interests : List Seed
interests =
    ("Travel", names "Travel" "여행" "旅行")
    ∷ ("Music", names "Music" "음악" "音楽")
    ∷ ("Sports", names "Sports" "스포츠" "スポーツ")
    ∷ []

abbrev pub genders : List Seed
genders =
    ("male", names "Male" "남성" "男性")
    ∷ ("female", names "Female" "여성" "女性")
    ∷ ("other", names "Other" "기타" "その他")
    ∷ []

abbrev pub languages : List Seed
languages =
    ("en", names "English" "영어" "英語")
    ∷ ("ko", names "Korean" "한국어" "韓国語")
    ∷ ("ja", names "Japanese" "일본어" "日本語")
    ∷ []

abbrev pub is_taken : String → List Item → Bool
is_taken code items = any (λ i. i.code == code) items

-- The numbers that the sequences of the three tables give next. Deleted rows and failed flushes use
-- numbers up, so they are an argument.
pub record Numbers : Type 0 where
  pub interest : ℕ
  pub gender : ℕ
  pub language : ℕ

-- The loop over the seeds, from the number that the sequence gives: each flush fails where the name
-- or code is taken.
unfoldable pub seed_rows : ℕ → List Seed → List Item → Result (List Item)
seed_rows n [] items = ok items
seed_rows n ((code, translations) ∷ seeds) items =
    let rest =
      seed_rows (n + 1) seeds
        (items ++ record { id = n; code = code; translations = translations } ∷ []) in
    if is_taken code items then err integrity_error else rest

unfoldable pub seed_interests : ℕ → List Item → Result (List Item)
unfolding seed_rows
seed_interests n items = seed_rows n interests items

unfoldable pub seed_genders : ℕ → List Item → Result (List Item)
unfolding seed_rows
seed_genders n items = seed_rows n genders items

unfoldable pub seed_languages : ℕ → List Item → Result (List Item)
unfolding seed_rows
seed_languages n items = seed_rows n languages items

abbrev pub commit_seeds : Db → Result Db → Result (Unit {0}) × Db
commit_seeds d (ok d') = (ok tt, d')
commit_seeds d (err e) = (err e, d)

unfoldable pub seeded : Numbers → Db → Result Db
unfolding seed_interests seed_genders seed_languages
seeded n d = and_then (seed_interests n.interest d.interests) λ i.
    and_then (seed_genders n.gender d.genders) λ g.
      and_then (seed_languages n.language d.languages)
        λ l. ok (record d { interests = i; genders = g; languages = l })

-- Nothing is committed if a flush fails.
unfoldable pub main : Numbers → Db → Result (Unit {0}) × Db
main n d = commit_seeds d (seeded n d)
