-- ===== src/Profile/UpdateLaws.antt =====
-- Laws of `update_user_profile`.
use nalang_project.Prelude.{
  ℕ, zero, suc, ◌≡◌, refl, ◌≢◌, ◌∙◌, inl, inr, String, Bool, true, false, not, ◌&&◌, ◌||◌, Option,
  none, some, List, [], ◌∷◌, ◌++◌, map, arith, if◌then◌else◌, ◌==◌, nat_eq, ==_refl, ==_ne, pos,
  Bool-cases, Option-cases, ap, ◌⊎◌, All, ==_iff, string_eq,
}
use mathlib.Core.List.{append-nil, append_assoc}
use nalang_project.Raise.{Error, ok, err, http, integrity_error}
use nalang_project.Models.{User, Item, Translation, Db}
use nalang_project.Auth.Accounts.{find_by_id, is_some}
use nalang_project.Profile.Update.{
  UserProfileUpdate, not_found, find_item, add_links, add_gender, repeats, replace_user,
  commit_user, new_links, update_user_profile,
}
use nalang_project.Profile.View.{
  get_user_profile, get_partner, get_full_user_with_relations, link_name, gender_name, translate,
  translations_of, first_name, search_locale,
}

-- Every number is that of a row.
abbrev pub all_known : List Item → List ℕ → Bool
all_known items [] = true
all_known items (id ∷ ids) = is_some (find_item id items) && all_known items ids

-- The links that `data.gender_id` asks for.
abbrev pub wanted : Option ℕ → List ℕ
wanted none = []
wanted (some zero) = []
wanted (some (suc k)) = suc k ∷ []

abbrev pub with_links : User → UserProfileUpdate → User
with_links u p = record u {
  interest_links = p.interests;
  language_links = p.languages;
  gender_links = wanted p.gender_id;
}

append_cons : (xs : List ℕ) (y : ℕ) (ys : List ℕ) → (xs ++ y ∷ []) ++ ys ≡ xs ++ y ∷ ys
append_cons xs y ys = append_assoc xs (y ∷ []) ys

pub add_links-known :
    (label : String) (items : List Item) (ids links : List ℕ)
    → all_known items ids ≡ true
    → add_links label items ids links ≡ ok (links ++ ids)
unfolding add_links
add_links-known label items [] links h = rw append-nil
add_links-known label items (id ∷ ids) links h =
    rw (← append_cons links id ids)
      (ground (arith, add_links-known label items ids (links ++ id ∷ [])))

add_gender-known :
    (items : List Item) (g : Option ℕ)
    → all_known items (wanted g) ≡ true
    → add_gender items g ≡ ok (wanted g)
unfolding add_gender
add_gender-known items none h = refl
add_gender-known items (some zero) h = refl
add_gender-known items (some (suc k)) h = ground arith

pub find_by_id-replace_user :
    (u : User) (us : List User) (k : ℕ)
    → find_by_id (pos k) (replace_user u us) ≡ (
        if k == u.id
        then (if is_some (find_by_id (pos k) us) then some u else none)
        else find_by_id (pos k) us)
unfolding find_by_id replace_user
find_by_id-replace_user u [] k = ground arith
find_by_id-replace_user u (v ∷ vs) k = ground (arith, find_by_id-replace_user u vs k)

pub add_links-unknown :
    (label : String) (items : List Item) (ids links : List ℕ)
    → all_known items ids ≡ false
    → (e : Error) × (add_links label items ids links ≡ err e)
unfolding add_links
add_links-unknown label items [] links h = cc
add_links-unknown label items (id ∷ ids) links h = elim (Option-cases (find_item id items)) [
  | inl e ↦ rw e (http 404 (not_found label id), refl)
  | inr (i, e) ↦ rw e (add_links-unknown label items ids (links ++ id ∷ []) (rw e at h))
]

add_gender-unknown :
    (items : List Item) (g : Option ℕ)
    → all_known items (wanted g) ≡ false
    → (e : Error) × (add_gender items g ≡ err e)
unfolding add_gender
add_gender-unknown items none h = cc
add_gender-unknown items (some zero) h = cc
add_gender-unknown items (some (suc k)) h = elim (Option-cases (find_item (suc k) items)) [
  | inl e ↦ rw e (http 404 (not_found "Gender" (suc k)), refl)
  | inr (i, e) ↦ cc (rw e at h)
]

-- All numbers are known.
abbrev pub is_known : UserProfileUpdate → Db → Bool
is_known p d =
    all_known d.interests p.interests
    && (all_known d.languages p.languages && all_known d.genders (wanted p.gender_id))

new_links-known :
    (u : User) (p : UserProfileUpdate) (d : Db)
    → is_known p d ≡ true
    → new_links u p d ≡ ok (with_links u p)
unfolding new_links
new_links-known u p d h = rw (
  add_links-known "Interest" d.interests p.interests [] (ground arith),
  add_links-known "Language" d.languages p.languages [] (ground arith),
  add_gender-known d.genders p.gender_id (ground arith),
)

new_links-unknown :
    (u : User) (p : UserProfileUpdate) (d : Db)
    → is_known p d ≡ false
    → (e : Error) × (new_links u p d ≡ err e)
unfolding new_links
new_links-unknown u p d h = elim (Bool-cases (all_known d.interests p.interests)) [
  | inr a ↦ let (e, k) = add_links-unknown "Interest" d.interests p.interests [] a in (e, rw k)
  | inl a ↦
      rw (add_links-known "Interest" d.interests p.interests [] a)
        (elim (Bool-cases (all_known d.languages p.languages)) [
          | inr b ↦
              let (e, k) = add_links-unknown "Language" d.languages p.languages [] b in (e, rw k)
          | inl b ↦
              let (e, k) = add_gender-unknown d.genders p.gender_id (ground arith) in
              (e, rw (add_links-known "Language" d.languages p.languages [] b, k))
        ])
]

-- A name in a language: that of a translation in it or, if there is none, the first name of all.
abbrev pub IsNameIn : String → List Translation → String → Type 0
IsNameIn lang ts name =
    ((front back : List Translation) × (t : Translation) × (ts ≡ front ++ t ∷ back)
      × (t.locale ≡ lang)
      × (t.name ≡ name))
    ⊎ (All (λ t. t.locale ≢ lang) ts × (name ≡ first_name ts))

search_locale-IsNameIn :
    (lang : String) (ts : List Translation) (other : String)
    → ((front back : List Translation) × (t : Translation) × (ts ≡ front ++ t ∷ back)
        × (t.locale ≡ lang)
        × (t.name ≡ search_locale lang ts other))
      ⊎ (All (λ t. t.locale ≢ lang) ts × (search_locale lang ts other ≡ other))
search_locale-IsNameIn lang [] other = inr (tt, refl)
search_locale-IsNameIn lang (t ∷ ts) other = elim (Bool-cases (t.locale == lang)) [
  | inl e ↦ rw e (inl ([], ts, t, refl, (==_iff t.locale lang).0 e, refl))
  | inr e ↦ rw e (elim (search_locale-IsNameIn lang ts other) [
    | inl (front, back, u, p, q, r) ↦ inl (t ∷ front, back, u, ap (λ l. t ∷ l) p, q, r)
    | inr (a, p) ↦ inr ((absent t.locale lang e, a), p)
  ])
]
  where
    absent : (a b : String) → (a == b) ≡ false → a ≢ b
    absent a b e h = ground (arith, ==_iff a b)

link_name-IsNameIn :
    (items : List Item) (lang : String) (id : ℕ)
    → IsNameIn lang (translations_of (find_item id items)) (link_name items lang id)
unfolding link_name translate
link_name-IsNameIn items lang id =
    let ts = translations_of (find_item id items) in search_locale-IsNameIn lang ts (first_name ts)

-- A profile of a stored user whose numbers are all known, with none twice, is saved as a whole:
-- it is then shown with the names of just these options, and another user is as before. The name of
-- an option is one in the requested language or, if it has none, its first name.
pub update_user_profile-saves :
    (u u0 : User) (p : UserProfileUpdate) (d : Db) (lang : String) (other : ℕ)
    → is_known p d ≡ true
    → (repeats p.interests || repeats p.languages) ≡ false
    → find_by_id (pos u.id) d.users ≡ some u0
    → other ≢ u.id
    → let (answer, d') = update_user_profile u p d in
      (answer ≡ ok tt)
      × (get_partner d' (pos u.id) lang
          ≡ ok (record {
            id = u.id;
            name = u.name;
            email = u.email;
            interests = map (link_name d.interests lang) p.interests;
            languages = map (link_name d.languages lang) p.languages;
            gender = gender_name d.genders lang (wanted p.gender_id);
            image_path = u.profile_image;
          }))
      × (find_by_id (pos other) d'.users ≡ find_by_id (pos other) d.users)
      × ((items : List Item) (id : ℕ)
          → IsNameIn lang (translations_of (find_item id items)) (link_name items lang id))
unfolding update_user_profile commit_user get_partner get_full_user_with_relations get_user_profile
update_user_profile-saves u u0 p d lang other h r known ne =
    rw (new_links-known u p d h, r)
      (
        refl,
        rw (find_by_id-replace_user (with_links u p) d.users u.id, ==_refl u.id, known),
        find_by_id-replace_user (with_links u p) d.users other ∙ rw (==_ne other u.id ne),
        λ items id. link_name-IsNameIn items lang id,
      )

repeated : (a b : Bool) → a ≡ true → (a && not b) ≡ false → b ≡ true
repeated a b h k = ground arith

-- A profile with an unknown number, or with an interest or a language twice, is refused, and
-- nothing is changed.
pub update_user_profile-refuses :
    (u : User) (p : UserProfileUpdate) (d : Db)
    → (is_known p d && not (repeats p.interests || repeats p.languages)) ≡ false
    → (e : Error) × (update_user_profile u p d ≡ (err e, d))
unfolding update_user_profile commit_user
update_user_profile-refuses u p d h = elim (Bool-cases (is_known p d)) [
  | inr k ↦ let (e, q) = new_links-unknown u p d k in (e, rw q)
  | inl k ↦ (integrity_error, rw (new_links-known u p d k, repeated _ _ k h))
]

-- Otherwise the row of the user is replaced.
pub update_user_profile-known :
    (u : User) (p : UserProfileUpdate) (d : Db)
    → is_known p d ≡ true
    → (repeats p.interests || repeats p.languages) ≡ false
    → update_user_profile u p d
      ≡ (ok tt, record d { users = replace_user (with_links u p) d.users })
unfolding update_user_profile commit_user
update_user_profile-known u p d h r = rw (new_links-known u p d h, r) refl
