-- ===== src/Profile/Seeding.antt =====
-- A run of server/init_seed.py adds options or changes nothing.
use nalang_project.Prelude.{
  ℕ, ◌+◌, ◌≡◌, refl, ◌∙◌, ap, ◌⊎◌, inl, inr, List, [], ◌∷◌, ◌++◌, Bool-cases,
}
use mathlib.Core.List.{append-nil, append_assoc}
use nalang_project.Raise.{Error, Result, ok, err, integrity_error}
use nalang_project.Models.{Item, Db}
use nalang_project.Profile.Seed.{
  Seed, Numbers, interests, genders, languages, is_taken, seed_rows, seed_interests, seed_genders,
  seed_languages, seeded, main,
}

-- The rows so far with others behind them, or an error.
abbrev Appends : List Item → Result (List Item) → Type 0
Appends items r = ((e : Error) × (r ≡ err e)) ⊎ ((more : List Item) × (r ≡ ok (items ++ more)))

Appends-more :
    (items : List Item) (i : Item) (r : Result (List Item))
    → Appends (items ++ i ∷ []) r
    → Appends items r
Appends-more items i r (inl h) = inl h
Appends-more items i r (inr (more, e)) =
    inr (i ∷ more, e ∙ ap ok (append_assoc items (i ∷ []) more))

seed_rows-Appends :
    (n : ℕ) (seeds : List Seed) (items : List Item) → Appends items (seed_rows n seeds items)
unfolding seed_rows
seed_rows-Appends n [] items = inr ([], ap ok (rw append-nil refl))
seed_rows-Appends n ((code, translations) ∷ seeds) items = elim (Bool-cases (is_taken code items)) [
  | inl e ↦ rw e (inl (integrity_error, refl))
  | inr e ↦ rw e (Appends-more items _ _ (seed_rows-Appends (n + 1) seeds _))
]

pub main-adds :
    (n : Numbers) (d : Db)
    → ((main n d).1 ≡ d)
      ⊎ ((i : List Item) × (l : List Item) × (g : List Item) × ((main n d).1 ≡ record d {
        interests = d.interests ++ i;
        languages = d.languages ++ l;
        genders = d.genders ++ g;
      }))
unfolding main seeded seed_interests seed_genders seed_languages
main-adds n d = elim (seed_rows-Appends n.interest interests d.interests) [
  | inl (e, p) ↦ rw p (inl refl)
  | inr (i, p) ↦ rw p (elim (seed_rows-Appends n.gender genders d.genders) [
    | inl (e, p) ↦ rw p (inl refl)
    | inr (g, p) ↦ rw p (elim (seed_rows-Appends n.language languages d.languages) [
      | inl (e, p) ↦ rw p (inl refl)
      | inr (l, p) ↦ rw p (inr (i, l, g, refl))
    ])
  ])
]
