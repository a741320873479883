-- ===== src/Auth/Accounts.antt =====
-- server/app/domains/user/crud.py, server/app/domains/auth/schemas.py and utils.py.
use nalang_project.Prelude.{
  ℕ, suc, ◌+◌, ◌∷◌, String, Bool, true, false, ◌&&◌, Option, none, some, List, [], ◌++◌, leb,
  if◌then◌else◌, ◌==◌, nat_eq, string_eq, ℤ, pos, beq_ℤ,
}
use nalang_project.Raise.{
  Exec, Result, ok, err, integrity_error, validation_error, from_option, and_then, gets,
}
use nalang_project.Models.{User}
use nalang_project.Auth.World.{Libraries, Clock, Server}

pub record RegisterRequest : Type 0 where
  pub email : String
  pub name : String
  pub password : Option String
  pub provider : Option String
  pub profile_image : Option String

abbrev pub count : String → ℕ
count String.[] = 0
count (String.◌∷◌ c s) = suc (count s)

abbrev pub long_enough : Option String → Bool
long_enough none = true
long_enough (some p) = leb 8 (count p)

-- The construction of a `RegisterRequest`, which pydantic validates.
unfoldable pub validate : Libraries → RegisterRequest → Result RegisterRequest
validate x r = and_then (from_option validation_error (x.email r.email)) λ address.
    if leb 2 (count r.name) && leb (count r.name) 30 && long_enough r.password
    then ok (record r { email = address })
    else err validation_error

unfoldable pub find_by_email : String → List User → Option User
find_by_email email [] = none
find_by_email email (u ∷ us) = if u.email == email then some u else find_by_email email us

unfoldable pub find_by_id : ℤ → List User → Option User
find_by_id id [] = none
find_by_id id (u ∷ us) = if beq_ℤ (pos u.id) id then some u else find_by_id id us

unfoldable pub get_user_by_email : String → Exec Server (Option User)
unfolding find_by_email
get_user_by_email email = gets (λ s. find_by_email email s.db.users)

unfoldable pub get_user_by_id : ℤ → Exec Server (Option User)
unfolding find_by_id
get_user_by_id id = gets (λ s. find_by_id id s.db.users)

-- `if user_in.password: hash_password(user_in.password)`
abbrev pub hashed : Libraries → Option String → Option String
hashed x none = none
hashed x (some p) = if p == "" then none else some (x.hash p)

unfoldable pub new_user : Libraries → Clock → RegisterRequest → ℕ → User
new_user x t r id = record {
  id = id;
  email = r.email;
  hashed_password = hashed x r.password;
  name = r.name;
  profile_image = r.profile_image;
  provider = r.provider;
  birth_date = none;
  created_at = t.local_now;
  interest_links = [];
  language_links = [];
  gender_links = [];
}

abbrev pub is_some {ℓ} : {A : Type ℓ} → Option A → Bool
is_some none = false
is_some (some _) = true

-- The number that the failed insert took from the sequence is not given back.
insert_user : User → Bool → Exec Server User
insert_user u taken s =
    let d = s.db in
    let counted = record d { next_user = d.next_user + 1 } in
    if taken
    then (err integrity_error, record s { db = counted })
    else (ok u, record s { db = record counted { users = d.users ++ u ∷ [] } })

-- The commit fails on the unique constraint of `users.email`.
unfoldable pub create_user : Libraries → Clock → RegisterRequest → Exec Server User
unfolding insert_user
create_user x t r s =
    insert_user (new_user x t r s.db.next_user) (is_some (find_by_email r.email s.db.users)) s
