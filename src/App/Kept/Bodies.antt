-- ===== src/App/Kept/Bodies.antt =====
-- What FastAPI has checked of the body of a request.
use nalang_project.Prelude.{◌≡◌, refl, ◌∙◌, ap, Option, none, some}
use nalang_project.Raise.{Result, ok, err}
use nalang_project.Auth.World.{Libraries}
use nalang_project.Auth.Accounts.{RegisterRequest, validate}
use nalang_project.Auth.Validation.{IsValid, validate-IsValid}
use nalang_project.Auth.CurrentUser.{some-injective}
use nalang_project.Routes.Table
use nalang_project.Routes.Table.{Handler}
use nalang_project.App.{Input, accepted, valid}

abbrev pub IsAccepted : Libraries → (h : Handler) → Input h → Type 0
IsAccepted x Table.register_user r = IsValid x r
IsAccepted x _ i = Unit

valid-IsValid :
    (x : Libraries) (r q : RegisterRequest) (a : Result RegisterRequest)
    → validate x r ≡ a
    → valid a ≡ some q
    → IsValid x q
valid-IsValid x r q (ok p) e h = validate-IsValid x r q (e ∙ ap ok (some-injective h))
valid-IsValid x r q (err _) e h = cc

pub accepted-IsAccepted :
    (x : Libraries) (h : Handler) (o : Option (Input h)) (i : Input h)
    → accepted x h o ≡ some i
    → IsAccepted x h i
accepted-IsAccepted x Table.register_user none i e = cc
accepted-IsAccepted x Table.register_user (some r) i e = valid-IsValid x r i (validate x r) refl e
accepted-IsAccepted x _ o i e = tt
