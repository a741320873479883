-- ===== src/Tables/Links.antt =====
-- The tables that join users with options (`UserInterest`, `UserLanguage` and `UserGender` of
-- server/app/domains/user/models), and what `update_user_profile` does to them.
use nalang_project.Prelude.{
  ℕ, String, ◌≡◌, ◌≢◌, refl, sym, Bool, true, false, not, ◌&&◌, ◌||◌, List, [], ◌∷◌, ◌++◌, map,
  keep, any, if◌then◌else◌, ◌==◌, nat_eq, ==_refl, ==_ne, ==_iff, arith,
}
use mathlib.Core.List.{append-nil, append_assoc, Perm}
use mathlib.Core.List.Perm
use nalang_project.Raise.{Error, Result, ok, err, integrity_error, and_then}
use nalang_project.Models.{Item}
use nalang_project.Profile.Update.{repeats, add_links}
use nalang_project.Profile.UpdateLaws.{all_known, add_links-known, add_links-unknown}

pub record UserInterest : Type 0 where
  pub user_id : ℕ
  pub interest_id : ℕ

pub record UserLanguage : Type 0 where
  pub user_id : ℕ
  pub language_id : ℕ

pub record UserGender : Type 0 where
  pub user_id : ℕ
  pub gender_id : ℕ

pub record IsLink (L : Type 0) : Type 0 where
  pub user : L → ℕ
  pub option : L → ℕ
  pub link : ℕ → ℕ → L
  pub user-link : (u o : ℕ) → user (link u o) ≡ u
  pub option-link : (u o : ℕ) → option (link u o) ≡ o

instance abbrev pub interest_link : IsLink UserInterest
interest_link = record {
  user = λ l. l.user_id;
  option = λ l. l.interest_id;
  link = λ u o. record { user_id = u; interest_id = o };
  user-link = λ u o. refl;
  option-link = λ u o. refl;
}

instance abbrev pub language_link : IsLink UserLanguage
language_link = record {
  user = λ l. l.user_id;
  option = λ l. l.language_id;
  link = λ u o. record { user_id = u; language_id = o };
  user-link = λ u o. refl;
  option-link = λ u o. refl;
}

instance abbrev pub gender_link : IsLink UserGender
gender_link = record {
  user = λ l. l.user_id;
  option = λ l. l.gender_id;
  link = λ u o. record { user_id = u; gender_id = o };
  user-link = λ u o. refl;
  option-link = λ u o. refl;
}

eq_swap : (a b : ℕ) → (a == b) ≡ (b == a)
eq_swap a b = ground arith

interchange : (a b c d : Bool) → ((a || b) || (c || d)) ≡ ((a || c) || (b || d))
interchange true b c d = refl
interchange false true true d = refl
interchange false true false d = refl
interchange false false c d = refl

either_twice :
    {X : Type 0} (a b c d : Bool) (x y : X)
    → (if a then x else if (b || c) || d then x else y) ≡ (if (a || b) || (c || d) then x else y)
either_twice true b c d x y = refl
either_twice false true c d x y = refl
either_twice false false c d x y = refl

module _ {L : Type 0} ⦃i : IsLink L⦄ where
  -- `user.interest_links` and its kin, as numbers of options
  abbrev pub links_of : ℕ → List L → List ℕ
  links_of u ls = map i.option (keep (λ l. i.user l == u) ls)

  abbrev pub has_link : ℕ → ℕ → List L → Bool
  has_link u o ls = any (λ l. (i.user l == u) && (i.option l == o)) ls

  -- The primary key is the pair of numbers.
  unfoldable pub insert_links : ℕ → List ℕ → List L → Result (List L)
  insert_links u [] ls = ok ls
  insert_links u (o ∷ os) ls =
      let rest = insert_links u os (ls ++ i.link u o ∷ []) in
      if has_link u o ls then err integrity_error else rest

  -- The user's rows are deleted, each new option is looked up, and the commit inserts the rows for
  -- them.
  unfoldable pub replace_links : String → List Item → ℕ → List ℕ → List L → Result (List L)
  unfolding insert_links
  replace_links label items u os ls =
      and_then (add_links label items os [])
        (λ new. insert_links u new (keep (λ l. not (i.user l == u)) ls))

  has_link-snoc :
      (u o p : ℕ) (ls : List L)
      → has_link u p (ls ++ i.link u o ∷ []) ≡ (has_link u p ls || (o == p))
  has_link-snoc u o p [] = rw (i.user-link u o, i.option-link u o, ==_refl u) (or_false (o == p))
    where
      or_false : (b : Bool) → (b || false) ≡ b
      or_false true = refl
      or_false false = refl
  has_link-snoc u o p (l ∷ ls) = ground (arith, has_link-snoc u o p ls)

  any_link-snoc :
      (u o : ℕ) (os : List ℕ) (ls : List L)
      → any (λ p. has_link u p (ls ++ i.link u o ∷ [])) os
        ≡ (any (λ p. has_link u p ls) os || any (λ p. p == o) os)
  any_link-snoc u o [] ls = refl
  any_link-snoc u o (p ∷ os) ls =
      rw (has_link-snoc u o p ls, any_link-snoc u o os ls, eq_swap o p)
        (interchange (has_link u p ls) (p == o) _ _)

  -- One row after the other, up to the first that stands twice.
  insert_links_lem :
      (u : ℕ) (os : List ℕ) (ls : List L)
      → insert_links u os ls ≡ (
          if any (λ o. has_link u o ls) os || repeats os
          then err integrity_error
          else ok (ls ++ map (i.link u) os))
  unfolding insert_links
  insert_links_lem u [] ls = rw (append-nil ls) refl
  insert_links_lem u (o ∷ os) ls =
      rw
        (
          insert_links_lem u os (ls ++ i.link u o ∷ []),
          any_link-snoc u o os ls,
          append_assoc ls (i.link u o ∷ []) (map (i.link u) os),
        )
        (either_twice (has_link u o ls) _ _ _ _ _)

  has_link-others :
      (u o : ℕ) (ls : List L) → has_link u o (keep (λ l. not (i.user l == u)) ls) ≡ false
  has_link-others u o [] = refl
  has_link-others u o (l ∷ ls) = ground (arith, has_link-others u o ls)

  any_link-others :
      (u : ℕ) (os : List ℕ) (ls : List L)
      → any (λ o. has_link u o (keep (λ l. not (i.user l == u)) ls)) os ≡ false
  any_link-others u [] ls = refl
  any_link-others u (o ∷ os) ls = rw (has_link-others u o ls, any_link-others u os ls) refl

  links_of-replaced :
      (u : ℕ) (os : List ℕ) (ls : List L)
      → links_of u (keep (λ l. not (i.user l == u)) ls ++ map (i.link u) os) ≡ os
  links_of-replaced u [] [] = refl
  links_of-replaced u (o ∷ os) [] =
      rw (i.user-link u o, ==_refl u, i.option-link u o, links_of-replaced u os []) refl
  links_of-replaced u os (l ∷ ls) = ground (arith, links_of-replaced u os ls)

  links_of-others :
      (u v : ℕ) (os : List ℕ) (ls : List L)
      → v ≢ u
      → links_of v (keep (λ l. not (i.user l == u)) ls ++ map (i.link u) os) ≡ links_of v ls
  links_of-others u v [] [] ne = refl
  links_of-others u v (o ∷ os) [] ne =
      rw (i.user-link u o, ==_ne u v (λ e. ne (sym e)), links_of-others u v os [] ne) refl
  links_of-others u v os (l ∷ ls) ne =
      ground (arith, links_of-others u v os ls ne, ==_iff (i.user l) u, ==_iff (i.user l) v)

  -- If an option is unknown, there is an error. If all are known and one is named twice, the primary
  -- key refuses it. Else the rows of the user are replaced: afterwards the user has just these options,
  -- each once, in whatever order the rows are read, and another user has those of before.
  pub replace_links_lem :
      (label : String) (items : List Item) (u : ℕ) (os : List ℕ) (ls : List L)
      → (all_known items os ≡ false → (e : Error) × (replace_links label items u os ls ≡ err e))
        × (all_known items os ≡ true
            → repeats os ≡ true
            → replace_links label items u os ls ≡ err integrity_error)
        × (all_known items os ≡ true
            → repeats os ≡ false
            → (after : List L) × (replace_links label items u os ls ≡ ok after)
              × Perm (links_of u after) os
              × ((v : ℕ) → v ≢ u → Perm (links_of v after) (links_of v ls)))
  unfolding replace_links
  replace_links_lem label items u os ls = (
    (λ k. let (e, p) = add_links-unknown label items os [] k in (e, rw p refl)),
    (λ k e.
        rw
          (add_links-known label items os [] k, insert_links_lem u os _, any_link-others u os ls, e)
          refl),
    (λ k e. (
      keep (λ l. not (i.user l == u)) ls ++ map (i.link u) os,
      rw (add_links-known label items os [] k, insert_links_lem u os _, any_link-others u os ls, e)
          refl,
      rw (links_of-replaced u os ls) (Perm.refl os),
      λ v ne. rw (links_of-others u v os ls ne) (Perm.refl (links_of v ls)),
    )),
  )
