-- ===== src/Raise.antt =====
-- Handlers that change state and may raise. What was written before a raise stays written, so the
-- state comes back beside the error too.
pub mod Keeps
use nalang_project.Prelude.{ℕ, String, Bool, true, false, Option, none, some, if◌then◌else◌}

-- The exceptions that the server's code raises or lets through.
pub data Error : Type 0 where
  -- `HTTPException(status_code, detail)`
  http : ℕ → String → Error
  value_error key_error type_error attribute_error runtime_error : Error
  -- raised by the database, by pydantic, by `send_json` on a closed socket, by other services
  integrity_error data_error no_result_found validation_error send_error service_error : Error

pub data Result {ℓ} (A : Type ℓ) : Type ℓ where
  ok : A → Result A
  err : Error → Result A

abbrev pub Exec {ℓ} : Type ℓ → Type ℓ → Type ℓ
Exec S A = S → Result A × S

abbrev pub from_option {ℓ} : {A : Type ℓ} → Error → Option A → Result A
from_option e none = err e
from_option e (some a) = ok a

abbrev pub is_ok {ℓ} : {A : Type ℓ} → Result A → Bool
is_ok (ok _) = true
is_ok (err _) = false

-- A chain of calls that touch no state.
abbrev pub and_then {ℓ κ} : {A : Type ℓ} {B : Type κ} → Result A → (A → Result B) → Result B
and_then (ok a) f = f a
and_then (err e) f = err e

module _ {ℓ} {S A : Type ℓ} where
  abbrev pub pure : A → Exec S A
  pure a s = (ok a, s)

  abbrev pub raise : Error → Exec S A
  raise e s = (err e, s)

  abbrev pub lift : Result A → Exec S A
  lift r s = (r, s)

  abbrev pub gets : (S → A) → Exec S A
  gets f s = (ok (f s), s)

abbrev pub raise_if {ℓ} : {S : Type ℓ} → Bool → Error → S → Result (Unit {ℓ}) × S
raise_if c e s = (if c then err e else ok tt, s)

abbrev pub modify {ℓ} : {S : Type ℓ} → (S → S) → S → Result (Unit {ℓ}) × S
modify f s = (ok tt, f s)

abbrev pub continue {ℓ} : {S A B : Type ℓ} → Result A → (A → Exec S B) → Exec S B
continue (ok a) f s = f a s
continue (err e) f s = (err e, s)

infixl 5 ◌>>=◌ ◌>>◌
abbrev pub ◌>>=◌ {ℓ} : {S A B : Type ℓ} → Exec S A → (A → Exec S B) → Exec S B
◌>>=◌ m f s = let (r, s') = m s in continue r f s'

abbrev pub ◌>>◌ {ℓ} : {S A B : Type ℓ} → Exec S A → Exec S B → Exec S B
m >> k = m >>= λ _. k
