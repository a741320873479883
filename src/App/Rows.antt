-- ===== src/App/Rows.antt =====
-- Lists of rows when one is added or replaced.
use nalang_project.Prelude.{
  ℕ, ◌<◌, ◌≡◌, ◌≢◌, refl, sym, ◌∙◌, ap, subst, String, true, some, List, [], ◌∷◌, ◌++◌, map, All,
  All-append, pos, ℤ, arith, ◌==◌, nat_eq, string_eq, ==_iff, Bool-cases, beq_ℤ, inl, inr, none,
  Option,
}
use nalang_project.Models.{User, Item, CallHistory}
use nalang_project.Auth.Accounts.{find_by_id, is_some}
use nalang_project.Auth.CurrentUser.{some-injective}
use nalang_project.Auth.AccountLaws.{Unique}
use nalang_project.Call.History.{set_url}
use nalang_project.Profile.Update
use nalang_project.Profile.Update.{find_item}
use nalang_project.Profile.UpdateLaws.{all_known, find_by_id-replace_user}
use nalang_project.App.Stable.{account}

-- No two calls have one number.
abbrev pub HasOwnIds : List CallHistory → Type 0
HasOwnIds [] = Unit
HasOwnIds (h ∷ hs) = All (λ g. g.id ≢ h.id) hs × HasOwnIds hs

pub All-implies :
    {A : Type 0} (P Q : A → Type 0) (xs : List A) → ((x : A) → P x → Q x) → All P xs → All Q xs
All-implies P Q [] f h = tt
All-implies P Q (x ∷ xs) f h = (f x h.0, All-implies P Q xs f h.1)

pub is_some-find_by_id-append :
    (id : ℕ) (us vs : List User)
    → is_some (find_by_id (pos id) us) ≡ true
    → is_some (find_by_id (pos id) (us ++ vs)) ≡ true
unfolding find_by_id
is_some-find_by_id-append id [] vs h = cc
is_some-find_by_id-append id (u ∷ us) vs h = ground (arith, is_some-find_by_id-append id us vs)

pub is_some-find_by_id-replace_user :
    (id : ℕ) (u : User) (us : List User)
    → is_some (find_by_id (pos id) us) ≡ true
    → is_some (find_by_id (pos id) (Update.replace_user u us)) ≡ true
is_some-find_by_id-replace_user id u us h = rw (find_by_id-replace_user u us id) (ground arith)

is_some-find_item-append :
    (id : ℕ) (items more : List Item)
    → is_some (find_item id items) ≡ true
    → is_some (find_item id (items ++ more)) ≡ true
unfolding find_item
is_some-find_item-append id [] more h = cc
is_some-find_item-append id (i ∷ is) more h = ground (arith, is_some-find_item-append id is more)

pub all_known-append :
    (items more : List Item) (ids : List ℕ)
    → all_known items ids ≡ true
    → all_known (items ++ more) ids ≡ true
all_known-append items more [] h = refl
all_known-append items more (id ∷ ids) h =
    ground (arith, is_some-find_item-append id items more, all_known-append items more ids)

pub HasOwnIds-append :
    (hs : List CallHistory) (h : CallHistory)
    → HasOwnIds hs
    → All (λ g. g.id < h.id) hs
    → HasOwnIds (hs ++ h ∷ [])
HasOwnIds-append [] h o b = (tt, tt)
HasOwnIds-append (g ∷ gs) h o b =
    (All-append _ gs (h ∷ []) o.0 (omega arith, tt), HasOwnIds-append gs h o.1 b.1)

-- Only `u` has the number of `u`.
abbrev pub Agrees : User → List User → Type 0
Agrees u us = All (λ v. v.id ≡ u.id → v ≡ u) us

Agrees-later :
    (u : User) (us : List User) → All (λ v. (v.email ≢ u.email) × (v.id ≢ u.id)) us → Agrees u us
Agrees-later u [] h = tt
Agrees-later u (v ∷ vs) h = ((λ e. absurd (h.0.1 e)), Agrees-later u vs h.1)

pub find_by_id-Agrees :
    (u : User) (us : List User) → Unique us → find_by_id (pos u.id) us ≡ some u → Agrees u us
unfolding find_by_id
find_by_id-Agrees u [] h e = tt
find_by_id-Agrees u (v ∷ vs) h e = elim (Bool-cases (beq_ℤ (pos v.id) (pos u.id))) [
  | inl b ↦
      let same : v ≡ u = some-injective (rw b at e) in
      ((λ _. same), subst (λ w. Agrees w vs) same (Agrees-later v vs h.0))
  | inr b ↦ ((λ p. absurd (ground arith)), find_by_id-Agrees u vs h.1 (rw b at e))
]

module _ (u u' : User) (i : u'.id ≡ u.id) (m : u'.email ≡ u.email) where
  -- What holds of the address and the number of `v` holds of those of the row that replaces it.
  with_keys :
      (Q : String → ℕ → Type 0) (v : User)
      → (v.id ≡ u.id → v ≡ u)
      → (v.id == u'.id) ≡ true
      → Q v.email v.id
      → Q u'.email u'.id
  with_keys Q v a e h =
      let same_id : v.id ≡ u'.id = (==_iff v.id u'.id).0 e in
      let same_email : v.email ≡ u'.email = ap (λ w. w.email) (a (same_id ∙ i)) ∙ sym m in
      subst (λ k. Q u'.email k) same_id (subst (λ address. Q address v.id) same_email h)

  pub All-replace_user-keys :
      (Q : String → ℕ → Type 0) (us : List User)
      → Agrees u us
      → All (λ v. Q v.email v.id) us
      → All (λ v. Q v.email v.id) (Update.replace_user u' us)
  unfolding Update.replace_user
  All-replace_user-keys Q [] a h = tt
  All-replace_user-keys Q (v ∷ vs) a h =
      let rest = All-replace_user-keys Q vs a.1 h.1 in
      elim (Bool-cases (v.id == u'.id)) [
        | inl e ↦ rw e (with_keys Q v a.0 e h.0, rest)
        | inr e ↦ rw e (h.0, rest)
      ]

  pub Unique-replace_user :
      (us : List User) → Agrees u us → Unique us → Unique (Update.replace_user u' us)
  unfolding Update.replace_user
  Unique-replace_user [] a h = tt
  Unique-replace_user (v ∷ vs) a h =
      let apart =
        All-replace_user-keys (λ address k. (address ≢ v.email) × (k ≢ v.id)) vs a.1 h.0 in
      let rest = Unique-replace_user vs a.1 h.1 in
      elim (Bool-cases (v.id == u'.id)) [
        | inl e ↦ rw e (
          with_keys
              (λ address k. All (λ w. (w.email ≢ address) × (w.id ≢ k)) (Update.replace_user u' vs))
              v a.0 e apart,
          rest,
        )
        | inr e ↦ rw e (apart, rest)
      ]

pub All-replace_user :
    (Q : User → Type 0) (u : User) (us : List User)
    → Q u
    → All Q us
    → All Q (Update.replace_user u us)
unfolding Update.replace_user
All-replace_user Q u [] q h = tt
All-replace_user Q u (v ∷ vs) q h = elim (Bool-cases (v.id == u.id)) [
  | inl e ↦ rw e (q, All-replace_user Q u vs q h.1)
  | inr e ↦ rw e (h.0, All-replace_user Q u vs q h.1)
]

pub All-find_by_id :
    (Q : User → Type 0) (id : ℤ) (us : List User) (u : User)
    → find_by_id id us ≡ some u
    → All Q us
    → Q u
unfolding find_by_id
All-find_by_id Q id [] u e h = cc
All-find_by_id Q id (v ∷ vs) u e h = elim (Bool-cases (beq_ℤ (pos v.id) id)) [
  | inl b ↦ subst Q (some-injective (rw b at e)) h.0
  | inr b ↦ All-find_by_id Q id vs u (rw b at e) h.1
]

pub map-account-replace_user :
    (u u' : User) (us : List User)
    → account u' ≡ account u
    → Agrees u us
    → map account (Update.replace_user u' us) ≡ map account us
unfolding Update.replace_user
map-account-replace_user u u' [] e a = refl
map-account-replace_user u u' (v ∷ vs) e a =
    let rest = map-account-replace_user u u' vs e a.1 in
    elim (Bool-cases (v.id == u'.id)) [
      | inl b ↦
          let same : v ≡ u = a.0 ((==_iff v.id u'.id).0 b ∙ ap (λ w. w.id) e) in
          rw (b, rest, e, same) refl
      | inr b ↦ rw (b, rest) refl
    ]

pub All-map-set_url :
    (Q : CallHistory → Type 0) (room : String) (url : Option String) (hs : List CallHistory)
    → ((h : CallHistory) → Q h → Q (set_url room url h))
    → All Q hs
    → All Q (map (set_url room url) hs)
All-map-set_url Q room url [] f a = tt
All-map-set_url Q room url (h ∷ hs) f a = (f h a.0, All-map-set_url Q room url hs f a.1)

-- What does not depend on the address of the recording.
pub set_url_keeps :
    (Q : CallHistory → Type 0) (room : String) (url : Option String) (h : CallHistory)
    → Q h
    → Q (record h { recording_url = url })
    → Q (set_url room url h)
unfolding set_url
set_url_keeps Q room url h p q = elim (Bool-cases (h.room_name == room)) [
  | inl e ↦ rw e q
  | inr e ↦ rw e p
]

pub HasOwnIds-set_url :
    (room : String) (url : Option String) (hs : List CallHistory)
    → HasOwnIds hs
    → HasOwnIds (map (set_url room url) hs)
HasOwnIds-set_url room url [] o = tt
HasOwnIds-set_url room url (h ∷ hs) o =
    let rest : All (λ g. g.id ≢ h.id) (map (set_url room url) hs) =
      All-map-set_url (λ g. g.id ≢ h.id) room url hs
        (λ g p. set_url_keeps (λ w. w.id ≢ h.id) room url g p p) o.0 in
    (
      set_url_keeps (λ w. All (λ g. g.id ≢ w.id) (map (set_url room url) hs)) room url h rest rest,
      HasOwnIds-set_url room url hs o.1,
    )

-- A call without the address of its recording.
abbrev pub call : CallHistory → CallHistory
call h = record h { recording_url = none }

pub map-call-set_url :
    (room : String) (url : Option String) (hs : List CallHistory)
    → map call (map (set_url room url) hs) ≡ map call hs
map-call-set_url room url [] = refl
map-call-set_url room url (h ∷ hs) =
    rw (map-call-set_url room url hs)
      (set_url_keeps (λ w. call w ∷ map call hs ≡ call h ∷ map call hs) room url h refl refl)
