-- ===== src/Auth/AccountLaws.antt =====
-- Laws of the table of accounts.
use nalang_project.Prelude.{
  ℕ, ◌+◌, ◌<◌, ◌≡◌, refl, sym, ◌≢◌, ◌⊎◌, Option-cases, String, true, false, none, some, List, [],
  ◌∷◌, ◌++◌, All, All-append, subst, arith, ◌==◌, nat_eq, string_eq, ==_iff, ==_refl, pos,
  Bool-cases, inl, inr,
}
use nalang_project.Raise.{ok, err, integrity_error, http}
use nalang_project.Models.{User, Db}
use nalang_project.Auth.World.{Settings, Libraries, Clock, Server}
use nalang_project.Auth.Accounts.{
  RegisterRequest, find_by_email, find_by_id, new_user, create_user, is_some, get_user_by_email,
}
use nalang_project.Auth.Login.{register_user}

-- No two rows have one address or one number, and the sequence is ahead of all numbers.
abbrev pub Unique : List User → Type 0
Unique [] = Unit
Unique (u ∷ us) = All (λ v. (v.email ≢ u.email) × (v.id ≢ u.id)) us × Unique us

pub record IsConsistent (d : Db) : Type 0 where
  pub unique : Unique d.users
  pub below : All (λ u. u.id < d.next_user) d.users

find_by_email-none :
    (email : String) (us : List User)
    → find_by_email email us ≡ none
    → All (λ u. u.email ≢ email) us
unfolding find_by_email
find_by_email-none email [] h = tt
find_by_email-none email (u ∷ us) h = elim (Bool-cases (u.email == email)) [
  | inl e ↦ cc (rw e at h)
  | inr e ↦ ((λ p. cc (e, (==_iff u.email email).1 p)), find_by_email-none email us (rw e at h))
]

pub find_by_email-append :
    (email : String) (us : List User) (u : User)
    → find_by_email email us ≡ none
    → u.email ≡ email
    → find_by_email email (us ++ u ∷ []) ≡ some u
unfolding find_by_email
find_by_email-append email [] u h e = rw (e, ==_refl email)
find_by_email-append email (v ∷ us) u h e =
    ground (arith, find_by_email-append email us u, ==_iff v.email email)

pub find_by_id-append :
    (id : ℕ) (us : List User) (u : User)
    → All (λ v. v.id < id) us
    → u.id ≡ id
    → find_by_id (pos id) (us ++ u ∷ []) ≡ some u
unfolding find_by_id
find_by_id-append id [] u h e = ground arith
find_by_id-append id (v ∷ us) u h e = ground (arith, find_by_id-append id us u h.1 e)

All-weaken : (n : ℕ) (us : List User) → All (λ u. u.id < n) us → All (λ u. u.id < n + 1) us
All-weaken n [] h = tt
All-weaken n (u ∷ us) h = (omega arith, All-weaken n us h.1)

Unique-append :
    (us : List User) (u : User)
    → Unique us
    → All (λ v. v.email ≢ u.email) us
    → All (λ v. v.id < u.id) us
    → Unique (us ++ u ∷ [])
Unique-append [] u h p q = (tt, tt)
Unique-append (v ∷ us) u h p q = (
  All-append _ us (u ∷ []) h.0 (((λ e. p.0 (sym e)), omega arith), tt),
  Unique-append us u h.1 p.1 q.1,
)

-- An address that is taken: the insert fails and only the sequence has moved.
pub create_user-taken :
    (x : Libraries) (t : Clock) (r : RegisterRequest) (s : Server) {u : User}
    → find_by_email r.email s.db.users ≡ some u
    → create_user x t r s
      ≡ (err integrity_error, record s { db = record s.db { next_user = s.db.next_user + 1 } })
unfolding create_user
create_user-taken x t r s h = rw h

pub create_user-fresh :
    (x : Libraries) (t : Clock) (r : RegisterRequest) (s : Server)
    → find_by_email r.email s.db.users ≡ none
    → create_user x t r s ≡ (
      ok (new_user x t r s.db.next_user),
      record s {
        db = record s.db {
          next_user = s.db.next_user + 1;
          users = s.db.users ++ new_user x t r s.db.next_user ∷ [];
        };
      },
    )
unfolding create_user
create_user-fresh x t r s h = rw h

-- A row with a new address and the next number.
pub insert-IsConsistent :
    (u : User) (d : Db)
    → find_by_email u.email d.users ≡ none
    → u.id ≡ d.next_user
    → IsConsistent d
    → IsConsistent (record d { next_user = d.next_user + 1; users = d.users ++ u ∷ [] })
insert-IsConsistent u d e n h = record {
  unique =
      Unique-append d.users u h.unique (find_by_email-none u.email d.users e)
        (subst (λ k. All (λ v. v.id < k) d.users) (sym n) h.below);
  below =
      All-append (λ v. v.id < d.next_user + 1) d.users (u ∷ [])
        (All-weaken d.next_user d.users h.below) (omega arith, tt);
}

pub count-IsConsistent :
    (d : Db) → IsConsistent d → IsConsistent (record d { next_user = d.next_user + 1 })
count-IsConsistent d h = record {
  unique = h.unique;
  below = All-weaken d.next_user d.users h.below;
}

abbrev pub Outcome : Libraries → Clock → RegisterRequest → Server → Type 0
Outcome x t r s =
    let after = create_user x t r s in
    ((is_some (find_by_email r.email s.db.users) ≡ true)
      × (after.0 ≡ err integrity_error)
      × (after.1.db.users ≡ s.db.users))
    ⊎ ((is_some (find_by_email r.email s.db.users) ≡ false)
        × (after.0 ≡ ok (new_user x t r s.db.next_user))
        × (find_by_email r.email after.1.db.users ≡ some (new_user x t r s.db.next_user)))

-- In a table where addresses and numbers are unique and the sequence is ahead: an account is
-- made with the next number if its address is new; otherwise the request fails, and the rows are
-- as before. Either way the table stays so.
pub create_user-IsConsistent :
    (x : Libraries) (t : Clock) (r : RegisterRequest) (s : Server)
    → IsConsistent s.db
    → IsConsistent (create_user x t r s).1.db × Outcome x t r s
create_user-IsConsistent x t r s h = elim (Option-cases (find_by_email r.email s.db.users)) [
  | inl e ↦
      let u = new_user x t r s.db.next_user in
      rw (create_user-fresh x t r s e) (
        insert-IsConsistent u s.db (unfold new_user in e) (unfold new_user in refl) h,
        inr (rw e, refl, find_by_email-append r.email s.db.users u e (unfold new_user in refl)),
      )
  | inr (u, e) ↦
      rw (create_user-taken x t r s e) (count-IsConsistent s.db h, inl (rw e, refl, refl))
]

-- Registration with an address that is taken is refused with status 400, and nothing changes.
pub register_user-taken :
    (c : Settings) (x : Libraries) (t : Clock) (r : RegisterRequest) (s : Server) (u : User)
    → find_by_email r.email s.db.users ≡ some u
    → register_user c x t r s ≡ (err (http 400 "Existing Email"), s)
unfolding register_user get_user_by_email
register_user-taken c x t r s u h = rw h
