-- ===== src/Profile/Locale.antt =====
-- `get_locale` of server/app/core/deps.py.
use nalang_project.Prelude.{
  ℕ, String, Bool, true, false, ◌&&◌, Option, none, some, List, [], ◌∷◌, map, leb, ◌+◌,
  if◌then◌else◌, nat_beq,
}
use nalang_project.Text.{codes, is_space}

-- `split(",")[0]`, on code points
unfoldable pub until_comma : List ℕ → List ℕ
until_comma [] = []
until_comma (c ∷ s) = let rest = until_comma s in if nat_beq c b',' then [] else c ∷ rest

unfoldable pub strip_left : List ℕ → List ℕ
strip_left [] = []
strip_left (c ∷ s) = let rest = strip_left s in if is_space c then rest else c ∷ s

abbrev pub only_spaces : List ℕ → Bool
only_spaces [] = true
only_spaces (c ∷ s) = is_space c && only_spaces s

unfoldable pub strip_right : List ℕ → List ℕ
strip_right [] = []
strip_right (c ∷ s) = let rest = strip_right s in if only_spaces (c ∷ s) then [] else c ∷ rest

unfoldable pub lower : ℕ → ℕ
lower c = if leb b'A' c && leb c b'Z' then c + 32 else c

abbrev pub same_codes : List ℕ → List ℕ → Bool
same_codes [] [] = true
same_codes (a ∷ s) (b ∷ t) = nat_beq a b && same_codes s t
same_codes _ _ = false

-- The first language tag of the header, stripped and in lower case.
unfoldable pub first_tag : String → List ℕ
unfolding until_comma strip_left strip_right lower
first_tag header = map lower (strip_right (strip_left (until_comma (codes header))))

abbrev pub or_ko : Option String → String
or_ko none = "ko"
or_ko (some header) = header

abbrev supported : List ℕ → String
supported tag =
    if same_codes tag (codes "en") then "en" else if same_codes tag (codes "ja") then "ja" else "ko"

unfoldable pub get_locale : Option String → String
unfolding first_tag
get_locale header = supported (first_tag (or_ko header))
