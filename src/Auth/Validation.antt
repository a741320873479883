-- ===== src/Auth/Validation.antt =====
-- The validation of a `RegisterRequest`.
use nalang_project.Prelude.{
  ◌≤◌, ◌≡◌, refl, sym, ◌∙◌, ap, subst, ◌↔◌, String, Bool, true, ◌&&◌, Option, none, some, leb,
  arith, Bool-cases, Option-cases, inl, inr,
}
use nalang_project.Raise.{ok}
use nalang_project.Auth.World.{Libraries}
use nalang_project.Auth.Accounts.{RegisterRequest, count, long_enough, validate}

-- A password is left out or has eight characters.
abbrev pub HasLength : Option String → Type 0
HasLength none = Unit
HasLength (some p) = 8 ≤ count p

-- The address is one that the library accepts, in its normal form.
abbrev pub IsAddress : Libraries → String → Type 0
IsAddress x address = (raw : String) × (x.email raw ≡ some address)

pub record IsValid (x : Libraries) (r : RegisterRequest) : Type 0 where
  pub address : IsAddress x r.email
  pub name_long : 2 ≤ count r.name
  pub name_short : count r.name ≤ 30
  pub password : HasLength r.password

abbrev pub Accepts : Libraries → RegisterRequest → RegisterRequest → Type 0
Accepts x r r' =
    (x.email r.email ≡ some r'.email)
    × (r' ≡ record r { email = r'.email })
    × (2 ≤ count r.name)
    × (count r.name ≤ 30)
    × HasLength r.password

long_enough_iff : (p : Option String) → (long_enough p ≡ true) ↔ HasLength p
long_enough_iff none = ((λ _. tt), (λ _. refl))
long_enough_iff (some p) = ((λ h. ground arith), (λ h. ground arith))

pub ok-injective : {A : Type 0} {a b : A} → ok a ≡ ok b → a ≡ b
ok-injective h = cc

module _ (x : Libraries) (r r' : RegisterRequest) where
  abbrev is_accepted : Bool
  is_accepted = leb 2 (count r.name) && leb (count r.name) 30 && long_enough r.password

  validate-Accepts : validate x r ≡ ok r' → Accepts x r r'
  unfolding validate
  validate-Accepts h = elim (Option-cases (x.email r.email)) [
    | inl e ↦ cc (rw e at h)
    | inr (address, e) ↦ elim (Bool-cases is_accepted) [
      | inr b ↦ cc (rw (e, b) at h)
      | inl b ↦
          let made : record r { email = address } ≡ r' = ok-injective (rw (e, b) at h) in
          let same : address ≡ r'.email = ap (λ q. q.email) made in
          (
            e ∙ ap some same,
            sym made ∙ ap (λ a. record r { email = a }) same,
            ground arith,
            ground arith,
            (long_enough_iff r.password).0 (ground arith),
          )
    ]
  ]

  Accepts-validate : Accepts x r r' → validate x r ≡ ok r'
  unfolding validate
  Accepts-validate (e, made, long, short, p) =
      let lengths : is_accepted ≡ true =
        let enough : long_enough r.password ≡ true = (long_enough_iff r.password).1 p in
        ground arith in
      rw (e, lengths) (ap ok (sym made))

  -- A registration is accepted if and only if the address is one, the name has 2 to 30 characters and
  -- the password, if there is one, at least 8. The address is then in its normal form, and nothing else
  -- is changed.
  pub validate_iff : (validate x r ≡ ok r') ↔ Accepts x r r'
  validate_iff = (validate-Accepts, Accepts-validate)

pub validate-IsValid :
    (x : Libraries) (r r' : RegisterRequest) → validate x r ≡ ok r' → IsValid x r'
validate-IsValid x r r' h =
    let (e, made, long, short, p) = (validate_iff x r r').0 h in
    record {
      address = (r.email, e);
      name_long = subst (λ q. 2 ≤ count q.name) (sym made) long;
      name_short = subst (λ q. count q.name ≤ 30) (sym made) short;
      password = subst (λ q. HasLength q.password) (sym made) p;
    }
