-- ===== src/Tables/Planting.antt =====
-- Planting the seeds row by row, and what is then read from the tables.
use nalang_project.Prelude.{
  ℕ, ◌+◌, ◌<◌, String, ◌≡◌, refl, sym, ap, ◌∙◌, ◌≢◌, Bool, true, false, ◌||◌, List, [], ◌∷◌, ◌++◌,
  map, keep, any, All, All-append, if◌then◌else◌, ◌==◌, nat_eq, string_eq, ==_refl, ==_ne, arith,
}
use mathlib.Core.List.{append-nil, append_assoc}
use nalang_project.Raise.{ok}
use nalang_project.Models.{Translation}
use nalang_project.Tables.{
  IsOption, IsTranslation, Options, has_translation, insert_translation, insert_translations,
}

-- As the keys of a dictionary are.
abbrev pub HaveDistinctLocales : List Translation → Type 0
HaveDistinctLocales [] = Unit
HaveDistinctLocales (x ∷ xs) = All (λ y. (x.locale == y.locale) ≡ false) xs × HaveDistinctLocales xs

abbrev pub has_locale : String → List Translation → Bool
has_locale l cs = any (λ c. c.locale == l) cs

has_locale-snoc :
    (l : String) (cs : List Translation) (c : Translation)
    → has_locale l (cs ++ c ∷ []) ≡ (has_locale l cs || (c.locale == l))
has_locale-snoc l [] c = ground arith
has_locale-snoc l (d ∷ cs) c = ground (arith, has_locale-snoc l cs c)

module _ {T : Type 0} ⦃t : IsTranslation T⦄ where
  -- The translations that an option is shown with.
  abbrev pub names_of : ℕ → List T → List Translation
  names_of j ts = map t.content (keep (λ x. t.owner x == j) ts)

  names_of-snoc :
      (j : ℕ) (ts : List T) (y : T)
      → names_of j (ts ++ y ∷ [])
        ≡ names_of j ts ++ (if t.owner y == j then t.content y ∷ [] else [])
  names_of-snoc j [] y = ground arith
  names_of-snoc j (x ∷ ts) y = ground (arith, names_of-snoc j ts y)

  has_translation-has_locale :
      (j : ℕ) (l : String) (ts : List T) → has_translation j l ts ≡ has_locale l (names_of j ts)
  has_translation-has_locale j l [] = refl
  has_translation-has_locale j l (x ∷ ts) = ground (arith, has_translation-has_locale j l ts)

  pub names_of-fresh : (j : ℕ) (ts : List T) → All (λ x. t.owner x < j) ts → names_of j ts ≡ []
  names_of-fresh j [] h = refl
  names_of-fresh j (x ∷ ts) h = ground (arith, names_of-fresh j ts h.1)

still_free :
    (x : Translation) (cs xs : List Translation)
    → All (λ y. (x.locale == y.locale) ≡ false) xs
    → All (λ y. has_locale y.locale cs ≡ false) xs
    → All (λ y. has_locale y.locale (cs ++ x ∷ []) ≡ false) xs
still_free x cs [] d h = tt
still_free x cs (y ∷ xs) d h =
    (rw (has_locale-snoc y.locale cs x, h.0, d.0) refl, still_free x cs xs d.1 h.1)

pub none_taken : (xs : List Translation) → All (λ y. has_locale y.locale [] ≡ false) xs
none_taken [] = tt
none_taken (x ∷ xs) = (refl, none_taken xs)

module _ {A T : Type 0} ⦃a : IsOption A⦄ ⦃t : IsTranslation T⦄ where
  pub record Added (n : ℕ) (xs : List Translation) (o : Options A T) : Type 0 where
    pub after : Options A T
    pub result : insert_translations n xs o ≡ ok after
    pub same_rows : after.rows ≡ o.rows
    pub same_next : after.next_row ≡ o.next_row
    pub own : names_of n after.translations ≡ names_of n o.translations ++ xs
    pub others : (j : ℕ) → j ≢ n → names_of j after.translations ≡ names_of j o.translations
    pub below :
        (k : ℕ)
        → n < k
        → All (λ x. t.owner x < k) o.translations
        → All (λ x. t.owner x < k) after.translations

  abbrev with_translation : ℕ → Translation → Options A T → Options A T
  with_translation n x o = record o {
    translations = o.translations ++ t.translate o.next_translation n x ∷ [];
    next_translation = o.next_translation + 1;
  }

  names_of-with_translation :
      (n : ℕ) (x : Translation) (o : Options A T)
      → names_of n (with_translation n x o).translations ≡ names_of n o.translations ++ x ∷ []
  names_of-with_translation n x o =
      names_of-snoc n o.translations _
      ∙ rw
          (
            t.owner-translate o.next_translation n x,
            ==_refl n,
            t.content-translate o.next_translation n x,
          )
          refl

  other-with_translation :
      (n j : ℕ) (x : Translation) (o : Options A T)
      → j ≢ n
      → names_of j (with_translation n x o).translations ≡ names_of j o.translations
  other-with_translation n j x o ne =
      names_of-snoc j o.translations _
      ∙ rw (t.owner-translate o.next_translation n x, ==_ne n j (λ e. ne (sym e))) (append-nil _)

  insert_translation-free :
      (n : ℕ) (x : Translation) (o : Options A T)
      → any (λ r. a.number r == n) o.rows ≡ true
      → has_locale x.locale (names_of n o.translations) ≡ false
      → insert_translation n x o ≡ ok (with_translation n x o)
  unfolding insert_translation
  insert_translation-free n x o known free =
      rw (has_translation-has_locale n x.locale o.translations, free, known) refl

  -- Translations of a known option in languages of which it has none are all added.
  pub insert_translations-Added :
      (n : ℕ) (xs : List Translation) (o : Options A T)
      → any (λ r. a.number r == n) o.rows ≡ true
      → HaveDistinctLocales xs
      → All (λ y. has_locale y.locale (names_of n o.translations) ≡ false) xs
      → Added n xs o
  unfolding insert_translations
  insert_translations-Added n [] o known d free = record {
    after = o;
    result = refl;
    same_rows = refl;
    same_next = refl;
    own = sym (append-nil _);
    others = λ j ne. refl;
    below = λ k lt h. h;
  }
  insert_translations-Added n (x ∷ xs) o known d free =
      let more = names_of-with_translation n x o in
      let rest =
        insert_translations-Added n xs (with_translation n x o) known d.1
          (rw more (still_free x (names_of n o.translations) xs d.0 free.1)) in
      record {
        after = rest.after;
        result = rw (insert_translation-free n x o known free.0) rest.result;
        same_rows = rest.same_rows;
        same_next = rest.same_next;
        own =
            rest.own
            ∙ ap (λ c. c ++ xs) more
            ∙ append_assoc (names_of n o.translations) (x ∷ []) xs;
        others = λ j ne. rest.others j ne ∙ other-with_translation n j x o ne;
        below = λ k lt h. rest.below k lt (
            All-append _ o.translations _ h (rw (t.owner-translate o.next_translation n x) lt, tt));
      }
