-- ===== src/Tables/Queries.antt =====
-- The queries of server/app/domains/user/services/setup.py on the tables.
use nalang_project.Prelude.{
  ℕ, String, ◌≡◌, ◌≢◌, refl, sym, ◌∙◌, ap, false, ◌&&◌, List, [], ◌∷◌, ◌++◌, map, if◌then◌else◌,
  ◌==◌, nat_eq, string_eq, arith, Bool-cases, inl, inr, All, All-append, ==_iff,
}
use nalang_project.Profile.View.{SetUpOption, in_locale, join_items, order_by_id}
use mathlib.Core.List.{Permᴰ}
use nalang_project.Tables.{IsOption, IsTranslation, Options, item_of, items_of, has_translation}
use nalang_project.Tables.Ordering.{HaveDistinctIds, order_by_id-Permᴰ}

-- The primary key of the options, and the unique constraint of their translations.
abbrev pub HaveDistinctNumbers : {A : Type 0} ⦃a : IsOption A⦄ → List A → Type 0
HaveDistinctNumbers [] = Unit
HaveDistinctNumbers ⦃a⦄ (r ∷ rs) = All (λ s. a.number r ≢ a.number s) rs × HaveDistinctNumbers rs

abbrev pub HaveUniqueLocales : {T : Type 0} ⦃t : IsTranslation T⦄ → List T → Type 0
HaveUniqueLocales [] = Unit
HaveUniqueLocales ⦃t⦄ (x ∷ xs) =
    (has_translation (t.owner x) (t.content x).locale xs ≡ false) × HaveUniqueLocales xs

distinct_append :
    (xs ys : List SetUpOption)
    → HaveDistinctIds xs
    → HaveDistinctIds ys
    → All (λ x. All (λ y. x.id ≢ y.id) ys) xs
    → HaveDistinctIds (xs ++ ys)
distinct_append [] ys h k d = k
distinct_append (x ∷ xs) ys h k d = (All-append _ xs ys h.0 d.0, distinct_append xs ys h.1 k d.1)

module _ {A T : Type 0} ⦃a : IsOption A⦄ ⦃t : IsTranslation T⦄ where
  -- `select(A.id, T.name).join(T).where(T.locale == locale)`: the rows of one option
  unfoldable pub join_row : String → A → List T → List SetUpOption
  join_row locale r [] = []
  join_row locale r (x ∷ xs) =
      let c = t.content x in
      let rest = join_row locale r xs in
      if (t.owner x == a.number r) && (c.locale == locale)
      then record { id = a.number r; name = c.name } ∷ rest
      else rest

  unfoldable pub join_rows : String → List A → List T → List SetUpOption
  unfolding join_row
  join_rows locale [] ts = []
  join_rows locale (r ∷ rs) ts = join_row locale r ts ++ join_rows locale rs ts

  join_row-in_locale :
      (locale : String) (r : A) (ts : List T)
      → join_row locale r ts ≡ in_locale (a.number r) locale (item_of ts r).translations
  unfolding join_row in_locale
  join_row-in_locale locale r [] = refl
  join_row-in_locale locale r (x ∷ xs) = ground (arith, join_row-in_locale locale r xs)

  join_rows-join_items :
      (locale : String) (rs : List A) (ts : List T)
      → join_rows locale rs ts ≡ join_items locale (map (item_of ts) rs)
  unfolding join_rows join_items
  join_rows-join_items locale [] ts = refl
  join_rows-join_items locale (r ∷ rs) ts =
      rw (join_row-in_locale locale r ts, join_rows-join_items locale rs ts) refl

  join_row-none :
      (locale : String) (r : A) (ts : List T)
      → has_translation (a.number r) locale ts ≡ false
      → join_row locale r ts ≡ []
  unfolding join_row
  join_row-none locale r [] h = refl
  join_row-none locale r (x ∷ ts) h = ground (arith, join_row-none locale r ts)

  -- An option is joined at most once, in one language.
  join_row-HaveDistinctIds :
      (locale : String) (r : A) (ts : List T)
      → HaveUniqueLocales ts
      → HaveDistinctIds (join_row locale r ts)
  unfolding join_row
  join_row-HaveDistinctIds locale r [] h = tt
  join_row-HaveDistinctIds locale r (x ∷ ts) h =
      let rest = join_row-HaveDistinctIds locale r ts h.1 in
      elim (Bool-cases (t.owner x == a.number r)) [
        | inr e ↦ rw e rest
        | inl e ↦ elim (Bool-cases ((t.content x).locale == locale)) [
          | inr f ↦ rw (e, f) rest
          | inl f ↦
              let same_owner = (==_iff (t.owner x) (a.number r)).0 e in
              let same_locale = (==_iff (t.content x).locale locale).0 f in
              rw (e, f, join_row-none locale r ts (rw (← same_owner, ← same_locale) h.0)) (tt, tt)
        ]
      ]

  join_row-All :
      (P : ℕ → Type 0) (locale : String) (r : A) (ts : List T)
      → P (a.number r)
      → All (λ p. P p.id) (join_row locale r ts)
  unfolding join_row
  join_row-All P locale r [] h = tt
  join_row-All P locale r (x ∷ ts) h = ground (arith, join_row-All P locale r ts h)

  join_rows-All :
      (P : ℕ → Type 0) (locale : String) (rs : List A) (ts : List T)
      → All (λ r. P (a.number r)) rs
      → All (λ p. P p.id) (join_rows locale rs ts)
  unfolding join_rows
  join_rows-All P locale [] ts h = tt
  join_rows-All P locale (r ∷ rs) ts h =
      All-append _ (join_row locale r ts) _ (join_row-All P locale r ts h.0)
        (join_rows-All P locale rs ts h.1)

  join_rows-HaveDistinctIds :
      (locale : String) (rs : List A) (ts : List T)
      → HaveDistinctNumbers rs
      → HaveUniqueLocales ts
      → HaveDistinctIds (join_rows locale rs ts)
  unfolding join_rows
  join_rows-HaveDistinctIds locale [] ts h k = tt
  join_rows-HaveDistinctIds locale (r ∷ rs) ts h k =
      distinct_append (join_row locale r ts) (join_rows locale rs ts)
        (join_row-HaveDistinctIds locale r ts k) (join_rows-HaveDistinctIds locale rs ts h.1 k)
        (join_row-All (λ n. All (λ y. n ≢ y.id) (join_rows locale rs ts)) locale r ts
          (join_rows-All (λ n. a.number r ≢ n) locale rs ts h.0))

  -- In tables that keep their constraints: in whatever order the database joins the options with their
  -- translations in a language, the rows ordered by number are those that the options with their
  -- translations have.
  pub ordered-join_rows :
      (locale : String) (o : Options A T) (rows : List SetUpOption)
      → HaveDistinctNumbers o.rows
      → HaveUniqueLocales o.translations
      → Permᴰ (join_rows locale o.rows o.translations) rows
      → order_by_id rows ≡ order_by_id (join_items locale (items_of o))
  ordered-join_rows locale o rows h k p =
      sym (order_by_id-Permᴰ _ rows p (join_rows-HaveDistinctIds locale o.rows o.translations h k))
      ∙ ap order_by_id (join_rows-join_items locale o.rows o.translations)
