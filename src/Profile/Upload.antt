-- ===== src/Profile/Upload.antt =====
-- `upload_profile_image` of server/app/domains/user/routes.py and `upload_image_to_s3` of
-- server/app/core/utils.py. The upload itself, which may raise, is an argument.
use Prim.Native.Char.{code}
use nalang_project.Prelude.{
  String, Bool, false, ◌||◌, some, if◌then◌else◌, ◌==◌, string_eq, nat_beq,
}
use nalang_project.Text.{◌+s◌}
use nalang_project.Raise.{Result, ok, err, http}
use nalang_project.Models.{User, Db}
use nalang_project.Profile.Update.{replace_user}

pub record UploadFile : Type 0 where
  pub filename : String
  pub content_type : String

-- `text.split(".")[-1]`
abbrev has_dot : String → Bool
has_dot String.[] = false
has_dot (String.◌∷◌ c s) = nat_beq (code c) b'.' || has_dot s

unfoldable pub last_part : String → String
last_part String.[] = ""
last_part (String.◌∷◌ c s) =
    let rest = last_part s in
    if has_dot s then rest else if nat_beq (code c) b'.' then s else String.◌∷◌ c s

unfoldable pub image_key : String → String → UploadFile → String
unfolding last_part
image_key folder uuid file = folder +s "/" +s uuid +s "." +s last_part file.filename

unfoldable pub upload_image_to_s3 :
    (String → String → Result (Unit {0})) → String → String → String → UploadFile → Result String
upload_image_to_s3 upload bucket folder uuid file =
    elim (upload (image_key folder uuid file) file.content_type) [
      | ok _ ↦ ok ("https://" +s bucket +s ".s3.amazonaws.com/" +s image_key folder uuid file)
      | err e ↦ err e
    ]

abbrev pub is_allowed : String → Bool
is_allowed t = t == "image/jpeg" || t == "image/png" || t == "image/gif" || t == "image/webp"

abbrev pub set_image : User → Result String → Db → Result String × Db
set_image u (err e) d = (err e, d)
set_image u (ok url) d =
    (ok url, record d { users = replace_user (record u { profile_image = some url }) d.users })

unfoldable pub upload_profile_image :
    (String → String → Result (Unit {0}))
    → String
    → String
    → UploadFile
    → User
    → Db
    → Result String × Db
unfolding upload_image_to_s3
upload_profile_image upload bucket uuid file u d =
    if is_allowed file.content_type
    then set_image u (upload_image_to_s3 upload bucket "profile_image" uuid file) d
    else (err (http 400 "이미지 파일만 업로드할 수 있습니다."), d)
