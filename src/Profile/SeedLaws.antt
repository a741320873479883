-- ===== src/Profile/SeedLaws.antt =====
-- Laws of server/init_seed.py.
use nalang_project.Prelude.{
  ℕ, ◌+◌, ◌≡◌, refl, ap, String, Bool, true, false, List, [], ◌∷◌, ◌++◌, arith, string_eq,
  Bool-cases, inl, inr, ==_refl, nat_eq,
}
use nalang_project.Raise.{Result, ok, err, and_then, integrity_error}
use nalang_project.Models.{Item, Translation, Db}
use nalang_project.Profile.Seed.{
  Seed, Numbers, is_taken, seed_rows, seed_interests, seed_genders, seed_languages, seeded, main,
  interests, commit_seeds,
}

abbrev pub is_empty_list {ℓ} : {A : Type ℓ} → List A → Bool
is_empty_list [] = true
is_empty_list (x ∷ xs) = false

is_taken-append :
    (code : String) (items more : List Item)
    → is_taken code items ≡ true
    → is_taken code (items ++ more) ≡ true
is_taken-append code [] more h = cc
is_taken-append code (i ∷ is) more h = ground (arith, is_taken-append code is more)

is_taken-snoc : (i : Item) (items : List Item) → is_taken i.code (items ++ i ∷ []) ≡ true
is_taken-snoc i [] = rw (==_refl i.code)
is_taken-snoc i (j ∷ js) = ground (arith, is_taken-snoc i js)

is_taken-seed_rows :
    (n : ℕ) (seeds : List Seed) (code : String) (items out : List Item)
    → is_taken code items ≡ true
    → seed_rows n seeds items ≡ ok out
    → is_taken code out ≡ true
unfolding seed_rows
is_taken-seed_rows n [] code items out h e = cc (e, h)
is_taken-seed_rows n ((c, ts) ∷ seeds) code items out h e = elim (Bool-cases (is_taken c items)) [
  | inl t ↦ cc (rw t at e)
  | inr t ↦ is_taken-seed_rows (n + 1) seeds code _ out (is_taken-append code items _ h) (rw t at e)
]

is_taken-first :
    (n : ℕ) (seeds : List Seed) (code : String) (ts : List Translation) (items out : List Item)
    → seed_rows n ((code, ts) ∷ seeds) items ≡ ok out
    → is_taken code out ≡ true
unfolding seed_rows
is_taken-first n seeds code ts items out e = elim (Bool-cases (is_taken code items)) [
  | inl t ↦ cc (rw t at e)
  | inr t ↦
      let row : Item = record { id = n; code = code; translations = ts } in
      is_taken-seed_rows (n + 1) seeds code (items ++ row ∷ []) out (is_taken-snoc row items)
        (rw t at e)
]

seed_rows-twice :
    (n k : ℕ) (seeds : List Seed) (items out : List Item)
    → is_empty_list seeds ≡ false
    → seed_rows n seeds items ≡ ok out
    → seed_rows k seeds out ≡ err integrity_error
seed_rows-twice n k [] items out h e = cc
seed_rows-twice n k ((code, ts) ∷ seeds) items out h e =
    let taken : is_taken code out ≡ true = is_taken-first n seeds code ts items out e in
    unfold seed_rows in rw taken

seed_interests-twice :
    (n k : ℕ) (items out : List Item)
    → seed_interests n items ≡ ok out
    → seed_interests k out ≡ err integrity_error
unfolding seed_interests
seed_interests-twice n k items out e = seed_rows-twice n k interests items out refl e

abbrev interests_of : Result Db → Result (List Item)
interests_of (ok d) = ok d.interests
interests_of (err e) = err e

interests_seeded :
    (d d' : Db) (i g l : Result (List Item))
    → and_then i (λ i.
      and_then g
        (λ g. and_then l (λ l. ok (record d { interests = i; genders = g; languages = l }))))
      ≡ ok d'
    → i ≡ ok d'.interests
interests_seeded d d' (ok i) (ok g) (ok l) e = ap interests_of e
interests_seeded d d' (ok i) (ok g) (err l) e = cc
interests_seeded d d' (ok i) (err g) l e = cc
interests_seeded d d' (err i) g l e = cc

seeded-twice : (n k : Numbers) (d d' : Db) → seeded n d ≡ ok d' → seeded k d' ≡ err integrity_error
unfolding seeded
seeded-twice n k d d' e = rw (
    seed_interests-twice n.interest k.interest d.interests d'.interests (
      interests_seeded d d' (seed_interests n.interest d.interests)
        (seed_genders n.gender d.genders) (seed_languages n.language d.languages) e))

main-cases :
    (n k : Numbers) (d : Db) (r : Result Db)
    → seeded n d ≡ r
    → (commit_seeds d r).0 ≡ ok tt
    → main k (commit_seeds d r).1 ≡ (err integrity_error, (commit_seeds d r).1)
unfolding main
main-cases n k d (ok d') e h = rw (seeded-twice n k d d' e)
main-cases n k d (err x) e h = cc

-- Once the seeds have been planted, planting them again fails and changes nothing.
pub main-twice :
    (n k : Numbers) (d : Db)
    → (main n d).0 ≡ ok tt
    → main k (main n d).1 ≡ (err integrity_error, (main n d).1)
unfolding main
main-twice n k d h = main-cases n k d (seeded n d) refl h
