-- ===== src/Profile/Update.antt =====
-- `update_user_profile` of server/app/domains/user/services/__init__.py. What the session holds and
-- has not committed is lost when the handler raises.
use nalang_project.Prelude.{
  ℕ, zero, suc, String, Bool, false, ◌||◌, Option, none, some, List, [], ◌∷◌, ◌++◌, any,
  if◌then◌else◌, ◌==◌, nat_eq, string_eq,
}
use nalang_project.Text.{◌+s◌, str}
use nalang_project.Raise.{Result, ok, err, http, integrity_error, and_then}
use nalang_project.Models.{User, Item, Db}

pub record UserProfileUpdate : Type 0 where
  pub interests : List ℕ
  pub languages : List ℕ
  pub gender_id : Option ℕ

-- `await db.get(Item, id)`
unfoldable pub find_item : ℕ → List Item → Option Item
find_item id [] = none
find_item id (i ∷ is) = if i.id == id then some i else find_item id is

-- f"{label} ID {id} not found"
unfoldable pub not_found : String → ℕ → String
not_found label id = label +s " ID " +s str id +s " not found"

abbrev found_or {ℓ} : {A : Type ℓ} → String → ℕ → Option Item → Result A → Result A
found_or label id none rest = err (http 404 (not_found label id))
found_or label id (some _) rest = rest

-- The loop that appends a link for each number, on the links so far.
unfoldable pub add_links : String → List Item → List ℕ → List ℕ → Result (List ℕ)
unfolding find_item
add_links label items [] links = ok links
add_links label items (id ∷ ids) links =
    found_or label id (find_item id items) (add_links label items ids (links ++ id ∷ []))

-- `if data.gender_id:` is false for `None` and for 0
unfoldable pub add_gender : List Item → Option ℕ → Result (List ℕ)
add_gender items none = ok []
add_gender items (some zero) = ok []
add_gender items (some (suc k)) =
    found_or "Gender" (suc k) (find_item (suc k) items) (ok (suc k ∷ []))

abbrev pub repeats : List ℕ → Bool
repeats [] = false
repeats (x ∷ xs) = any (λ y. y == x) xs || repeats xs

unfoldable pub replace_user : User → List User → List User
replace_user u [] = []
replace_user u (v ∷ vs) = (if v.id == u.id then u else v) ∷ replace_user u vs

-- The commit fails on the primary keys of the association tables if a link stands twice.
unfoldable pub commit_user : User → Db → Result (Unit {0}) × Db
unfolding replace_user
commit_user u d =
    if repeats u.interest_links || repeats u.language_links
    then (err integrity_error, d)
    else (ok tt, record d { users = replace_user u d.users })

-- The user as the session holds it before the commit.
unfoldable pub new_links : User → UserProfileUpdate → Db → Result User
unfolding add_links add_gender
new_links u p d = and_then (add_links "Interest" d.interests p.interests []) λ interests.
    and_then (add_links "Language" d.languages p.languages []) λ languages.
      and_then (add_gender d.genders p.gender_id) λ genders. ok (record u {
        interest_links = interests;
        language_links = languages;
        gender_links = genders;
      })

abbrev commit_or_raise : Result User → Db → Result (Unit {0}) × Db
commit_or_raise (ok u) d = commit_user u d
commit_or_raise (err e) d = (err e, d)

unfoldable pub update_user_profile : User → UserProfileUpdate → Db → Result (Unit {0}) × Db
update_user_profile u p d = commit_or_raise (new_links u p d) d
