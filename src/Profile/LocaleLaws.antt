-- ===== src/Profile/LocaleLaws.antt =====
-- Laws of `get_locale`.
use nalang_project.Prelude.{
  ℕ, ◌≡◌, refl, String, Bool, true, false, some, List, [], ◌∷◌, map, arith, nat_beq, any,
}
use nalang_project.Text.{codes}
use nalang_project.Profile.Locale.{
  until_comma, strip_left, strip_right, lower, first_tag, get_locale, only_spaces, same_codes,
}

-- A hyphen among the code points.
abbrev pub has_hyphen : List ℕ → Bool
has_hyphen s = any (λ c. nat_beq c b'-') s

hyphen-strip_left : (s : List ℕ) → has_hyphen s ≡ true → has_hyphen (strip_left s) ≡ true
unfolding strip_left
hyphen-strip_left [] h = h
hyphen-strip_left (c ∷ s) h = ground (arith, hyphen-strip_left s)

only_spaces-hyphen : (s : List ℕ) → has_hyphen s ≡ true → only_spaces s ≡ false
only_spaces-hyphen [] h = cc
only_spaces-hyphen (c ∷ s) h = ground (arith, only_spaces-hyphen s)

hyphen-strip_right : (s : List ℕ) → has_hyphen s ≡ true → has_hyphen (strip_right s) ≡ true
unfolding strip_right
hyphen-strip_right [] h = h
hyphen-strip_right (c ∷ s) h =
    rw (only_spaces-hyphen (c ∷ s) h) (ground (arith, hyphen-strip_right s))

hyphen-lower : (s : List ℕ) → has_hyphen s ≡ true → has_hyphen (map lower s) ≡ true
unfolding lower
hyphen-lower [] h = h
hyphen-lower (c ∷ s) h = ground (arith, hyphen-lower s)

no_hyphen : (s t : List ℕ) → has_hyphen s ≡ true → has_hyphen t ≡ false → same_codes s t ≡ false
no_hyphen [] t h k = cc
no_hyphen (c ∷ s) [] h k = refl
no_hyphen (c ∷ s) (d ∷ t) h k = ground (arith, no_hyphen s t)

-- A header whose first tag names a region, as "en-US" does, chooses Korean, whatever the language.
pub get_locale-region :
    (header : String)
    → has_hyphen (until_comma (codes header)) ≡ true
    → get_locale (some header) ≡ "ko"
unfolding get_locale
get_locale-region header h =
    let tag : has_hyphen (first_tag header) ≡ true =
      unfold first_tag in
      hyphen-lower (strip_right (strip_left (until_comma (codes header)))) (
        hyphen-strip_right (strip_left (until_comma (codes header)))
          (hyphen-strip_left (until_comma (codes header)) h)) in
    rw (
      no_hyphen (first_tag header) (codes "en") tag refl,
      no_hyphen (first_tag header) (codes "ja") tag refl,
    )
