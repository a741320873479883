-- ===== src/Profile/View.antt =====
-- What is shown of a user and of the options: `translate`, `get_user_profile` and
-- `get_full_user_with_relations` of server/app/domains/user/services/__init__.py, and
-- services/setup.py.
use nalang_project.Prelude.{
  ℕ, String, Option, none, some, List, [], ◌∷◌, ◌++◌, map, if◌then◌else◌, ◌==◌, nat_eq, string_eq,
  ℤ, leb,
}
use nalang_project.Raise.{Result, ok, err, http, no_result_found, from_option, and_then}
use nalang_project.Models.{User, Item, Translation, Db}
use nalang_project.Auth.Accounts.{find_by_id}
use nalang_project.Profile.Update.{find_item}

abbrev pub first_name : List Translation → String
first_name [] = ""
first_name (t ∷ _) = t.name

abbrev pub search_locale : String → List Translation → String → String
search_locale locale [] other = other
search_locale locale (t ∷ ts) other =
    let rest = search_locale locale ts other in if t.locale == locale then t.name else rest

unfoldable pub translate : List Translation → String → String
translate ts locale = search_locale locale ts (first_name ts)

abbrev pub translations_of : Option Item → List Translation
translations_of none = []
translations_of (some i) = i.translations

pub record UserProfileOut : Type 0 where
  pub id : ℕ
  pub name : String
  pub email : String
  pub interests : List String
  pub languages : List String
  pub gender : Option String
  pub image_path : Option String

-- The foreign keys of the links name rows of the options' tables.
unfoldable pub link_name : List Item → String → ℕ → String
link_name items lang id = translate (translations_of (find_item id items)) lang

abbrev pub gender_name : List Item → String → List ℕ → Option String
gender_name items lang [] = none
gender_name items lang (g ∷ _) = some (link_name items lang g)

unfoldable pub get_user_profile : Db → User → String → UserProfileOut
get_user_profile d u lang = record {
  id = u.id;
  name = u.name;
  email = u.email;
  interests = map (link_name d.interests lang) u.interest_links;
  languages = map (link_name d.languages lang) u.language_links;
  gender = gender_name d.genders lang u.gender_links;
  image_path = u.profile_image;
}

-- `result.unique().scalar_one()`
unfoldable pub get_full_user_with_relations : Db → ℤ → Result User
get_full_user_with_relations d id = from_option no_result_found (find_by_id id d.users)

-- The route `/{id}`, and `/me` with the number of the current user.
unfoldable pub get_partner : Db → ℤ → String → Result UserProfileOut
get_partner d id lang =
    and_then (get_full_user_with_relations d id) λ u. ok (get_user_profile d u lang)

pub record SetUpOption : Type 0 where
  pub id : ℕ
  pub name : String

-- `join` and `where(locale == …)`
unfoldable pub in_locale : ℕ → String → List Translation → List SetUpOption
in_locale id locale [] = []
in_locale id locale (t ∷ ts) =
    let rest = in_locale id locale ts in
    if t.locale == locale then record { id = id; name = t.name } ∷ rest else rest

unfoldable pub join_items : String → List Item → List SetUpOption
unfolding in_locale
join_items locale [] = []
join_items locale (i ∷ is) = in_locale i.id locale i.translations ++ join_items locale is

-- `order_by(id)`
unfoldable pub put_option : SetUpOption → List SetUpOption → List SetUpOption
put_option o [] = o ∷ []
put_option o (x ∷ xs) = let rest = put_option o xs in if leb o.id x.id then o ∷ x ∷ xs else x ∷ rest

unfoldable pub order_by_id : List SetUpOption → List SetUpOption
unfolding put_option
order_by_id [] = []
order_by_id (o ∷ os) = put_option o (order_by_id os)

abbrev or_empty : ℕ → String → List SetUpOption → Result (List SetUpOption)
or_empty status detail [] = err (http status detail)
or_empty status detail (o ∷ os) = ok (o ∷ os)

unfoldable pub get_interests_by_locale : Db → String → Result (List SetUpOption)
unfolding join_items order_by_id
get_interests_by_locale d locale =
    or_empty 404 "No Interests List" (order_by_id (join_items locale d.interests))

unfoldable pub get_languages_by_locale : Db → String → Result (List SetUpOption)
unfolding join_items order_by_id
get_languages_by_locale d locale =
    or_empty 400 "No Languages List" (order_by_id (join_items locale d.languages))

unfoldable pub get_genders_by_locale : Db → String → Result (List SetUpOption)
unfolding join_items order_by_id
get_genders_by_locale d locale =
    or_empty 404 "No genders found" (order_by_id (join_items locale d.genders))
