-- ===== src/Profile/Tests.antt =====
-- A user with a profile, and the options that it is made of.
use nalang_project.Prelude.{ℕ, ◌≡◌, refl, String, none, some, [], ◌∷◌, map, pos, arith, List}
use nalang_project.Raise.{Error, ok, err}
use nalang_project.Models.{User, Item, Db}
use nalang_project.Auth.Accounts.{find_by_id}
use nalang_project.Profile.Update.{UserProfileUpdate, update_user_profile, find_item}
use nalang_project.Profile.View.{get_partner, link_name, gender_name, translations_of}
use nalang_project.Profile.UpdateLaws.{
  wanted, IsNameIn, update_user_profile-saves, update_user_profile-refuses,
}

abbrev user : ℕ → User
user id = record {
  id = id;
  email = "a@b.kr";
  hashed_password = none;
  name = "Ann";
  profile_image = none;
  provider = none;
  birth_date = none;
  created_at = 0;
  interest_links = 2 ∷ [];
  language_links = [];
  gender_links = [];
}

abbrev option : ℕ → String → Item
option id name = record {
  id = id;
  code = name;
  translations = record { locale = "en"; name = name } ∷ [];
}

abbrev db : Db
db = record {
  users = user 1 ∷ user 2 ∷ [];
  next_user = 3;
  interests = option 1 "music" ∷ option 2 "film" ∷ [];
  languages = option 1 "Korean" ∷ [];
  genders = option 1 "man" ∷ option 2 "woman" ∷ [];
  histories = [];
  next_history = 1;
}

abbrev profile : UserProfileUpdate
profile = record { interests = 2 ∷ 1 ∷ []; languages = 1 ∷ []; gender_id = some 2 }

abbrev unknown_language : UserProfileUpdate
unknown_language = record profile { languages = 9 ∷ [] }

update_user_profile-saves_example :
    let (answer, d') = update_user_profile (user 1) profile db in
    (answer ≡ ok tt)
    × (get_partner d' (pos 1) "en"
        ≡ ok (record {
          id = 1;
          name = "Ann";
          email = "a@b.kr";
          interests = map (link_name db.interests "en") (2 ∷ 1 ∷ []);
          languages = map (link_name db.languages "en") (1 ∷ []);
          gender = gender_name db.genders "en" (wanted (some 2));
          image_path = none;
        }))
    × (find_by_id (pos 2) d'.users ≡ find_by_id (pos 2) db.users)
    × ((items : List Item) (id : ℕ)
        → IsNameIn "en" (translations_of (find_item id items)) (link_name items "en" id))
unfolding find_by_id find_item
update_user_profile-saves_example =
    update_user_profile-saves (user 1) (user 1) profile db "en" 2 refl refl refl (omega arith)

update_user_profile-refuses_example :
    (e : Error) × (update_user_profile (user 1) unknown_language db ≡ (err e, db))
unfolding find_item
update_user_profile-refuses_example = update_user_profile-refuses (user 1) unknown_language db refl
