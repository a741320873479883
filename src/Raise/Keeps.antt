-- ===== src/Raise/Keeps.antt =====
-- A property of the state that a handler keeps, whether it returns or raises.
use nalang_project.Prelude.{Bool, true, false, if◌then◌else◌}
use nalang_project.Raise.{Result, ok, err, Exec, continue, ◌>>=◌, ◌>>◌}

module _ {ℓ} {S : Type ℓ} (P : S → Type ℓ) where
  abbrev pub Keeps : {A : Type ℓ} → Exec S A → Type ℓ
  Keeps m = (s : S) → P s → P (m s).1

  pub Keeps-continue :
      {A B : Type ℓ} (r : Result A) (f : A → Exec S B)
      → ((a : A) → Keeps (f a))
      → Keeps (continue r f)
  Keeps-continue (ok a) f k s h = k a s h
  Keeps-continue (err e) f k s h = h

  pub Keeps-bind :
      {A B : Type ℓ} (m : Exec S A) (f : A → Exec S B)
      → Keeps m
      → ((a : A) → Keeps (f a))
      → Keeps (m >>= f)
  Keeps-bind m f km kf s h = Keeps-continue (m s).0 f kf (m s).1 (km s h)

  pub Keeps-then : {A B : Type ℓ} (m : Exec S A) (k : Exec S B) → Keeps m → Keeps k → Keeps (m >> k)
  Keeps-then m k km kk = Keeps-bind m (λ _. k) km (λ _. kk)

  pub Keeps-if :
      {A : Type ℓ} (b : Bool) (m n : Exec S A) → Keeps m → Keeps n → Keeps (if b then m else n)
  Keeps-if true m n km kn = km
  Keeps-if false m n km kn = kn
