-- ===== src/Tables/Planted.antt =====
-- The rows that server/init_seed.py leaves, as the options of Profile.Seed.
use nalang_project.Prelude.{
  ℕ, ◌+◌, ◌<◌, String, ◌≡◌, refl, sym, ap, ◌∙◌, ◌≢◌, Bool, true, false, ◌||◌, List, [], ◌∷◌, ◌++◌,
  map, any, All, All-append, ◌==◌, nat_eq, string_eq, ==_refl, arith, Bool-cases, inl, inr,
}
use nalang_project.Raise.{Result, ok, err}
use nalang_project.Models.{Item, Translation}
use nalang_project.Profile.Seed.{is_taken, seed_rows}
use nalang_project.Tables.{IsOption, IsTranslation, Options, item_of, items_of, insert_row, plant}
use nalang_project.Tables.Planting.{
  HaveDistinctLocales, none_taken, Added, names_of, names_of-fresh, insert_translations-Added,
}

seed_rows-same :
    (seeds : List (String × List Translation)) {m n : ℕ} {xs ys : List Item}
    → m ≡ n
    → xs ≡ ys
    → seed_rows m seeds xs ≡ seed_rows n seeds ys
seed_rows-same seeds {m} {n} {xs} {ys} e f =
    ap (λ k. seed_rows k seeds xs) e ∙ ap (seed_rows n seeds) f

below-suc :
    {X : Type 0} (f : X → ℕ) (n : ℕ) (xs : List X)
    → All (λ x. f x < n) xs
    → All (λ x. f x < n + 1) xs
below-suc f n [] h = tt
below-suc f n (x ∷ xs) h = (omega (arith, h.0), below-suc f n xs h.1)

module _ {A : Type 0} ⦃a : IsOption A⦄ where
  knows_new :
      (n : ℕ) (code : String) (rs : List A)
      → any (λ r. a.number r == n) (rs ++ a.make n code ∷ []) ≡ true
  knows_new n code [] = rw (a.number-make n code, ==_refl n) refl
  knows_new n code (r ∷ rs) = either (a.number r == n) _ (knows_new n code rs)
    where
      either : (b : Bool) (c : Bool) → c ≡ true → (b || c) ≡ true
      either true c h = refl
      either false c h = h

module _ {A T : Type 0} ⦃a : IsOption A⦄ ⦃t : IsTranslation T⦄ where
  -- The numbers of the rows, and those of the owners of translations, were given by the sequence.
  pub record IsNumbered (o : Options A T) : Type 0 where
    pub numbers : All (λ r. a.number r < o.next_row) o.rows
    pub owners : All (λ x. t.owner x < o.next_row) o.translations

  abbrev pub viewed : Result (Options A T) → Result (List Item)
  viewed (ok o) = ok (items_of o)
  viewed (err e) = err e

  taken-items_of :
      (code : String) (rs : List A) (ts : List T)
      → any (λ r. a.label r == code) rs ≡ is_taken code (map (item_of ts) rs)
  taken-items_of code [] ts = refl
  taken-items_of code (r ∷ rs) ts = rw (taken-items_of code rs ts) refl

  abbrev with_row : String → Options A T → Options A T
  with_row code o = record o {
    rows = o.rows ++ a.make o.next_row code ∷ [];
    next_row = o.next_row + 1;
  }

  -- The older options are shown as before, and the new one with its translations.
  items-append :
      (n : ℕ) (code : String) (xs : List Translation) (rs : List A) (before after : List T)
      → All (λ r. a.number r < n) rs
      → names_of n after ≡ xs
      → ((j : ℕ) → j ≢ n → names_of j after ≡ names_of j before)
      → map (item_of after) (rs ++ a.make n code ∷ [])
        ≡ map (item_of before) rs ++ record { id = n; code = code; translations = xs } ∷ []
  items-append n code xs [] before after lt own others =
      rw (a.number-make n code, a.label-make n code, own) refl
  items-append n code xs (r ∷ rs) before after lt own others =
      rw
        (
          others (a.number r) (omega (arith, lt.0)),
          items-append n code xs rs before after lt.1 own others,
        )
        refl

  with_row-IsNumbered :
      (code : String) (xs : List Translation) (o : Options A T)
      → IsNumbered o
      → (more : Added o.next_row xs (with_row code o)) → IsNumbered more.after
  with_row-IsNumbered code xs o h more = record {
    numbers =
        rw (more.same_rows, more.same_next)
          (All-append _ o.rows _ (below-suc _ o.next_row o.rows h.numbers)
            (rw (a.number-make o.next_row code) (omega arith), tt));
    owners = rw more.same_next (
        more.below (o.next_row + 1) (omega arith) (below-suc _ o.next_row o.translations h.owners));
  }

  with_row-items_of :
      (code : String) (xs : List Translation) (o : Options A T)
      → IsNumbered o
      → (more : Added o.next_row xs (with_row code o))
      → items_of more.after
        ≡ items_of o ++ record { id = o.next_row; code = code; translations = xs } ∷ []
  with_row-items_of code xs o h more =
      let shown =
        items-append o.next_row code xs o.rows o.translations more.after.translations h.numbers
          (rw (more.own, names_of-fresh o.next_row o.translations h.owners) refl) more.others in
      rw (more.same_rows, shown) refl

  -- In tables whose numbers lie below the next number of the sequence, planting seeds, each with at
  -- most one name per language, row by row, with the constraints of the tables, is `seed_rows` on the
  -- options from that number on: it fails for the same seeds, and else the same options are read.
  pub viewed-plant :
      (seeds : List (String × List Translation)) (o : Options A T)
      → All (λ s. HaveDistinctLocales s.1) seeds
      → IsNumbered o
      → viewed (plant seeds o) ≡ seed_rows o.next_row seeds (items_of o)
  unfolding plant seed_rows insert_row
  viewed-plant [] o d h = refl
  viewed-plant ((code, xs) ∷ seeds) o d h =
      elim (Bool-cases (any (λ r. a.label r == code) o.rows)) [
        | inl e ↦ rw (e, sym (taken-items_of code o.rows o.translations), e) refl
        | inr e ↦
            rw (e, sym (taken-items_of code o.rows o.translations), e)
              (let more =
                  insert_translations-Added o.next_row xs (with_row code o)
                    (knows_new o.next_row code o.rows) d.0
                    (rw (names_of-fresh o.next_row o.translations h.owners) (none_taken xs)) in
                rw more.result (
                  viewed-plant seeds more.after d.1 (with_row-IsNumbered code xs o h more)
                  ∙ seed_rows-same seeds more.same_next (with_row-items_of code xs o h more)))
      ]
