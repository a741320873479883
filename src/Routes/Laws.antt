-- ===== src/Routes/Laws.antt =====
-- Routes that ask for the user, and registration.
use nalang_project.Prelude.{String, ◌≡◌, refl, Option, none, [], ◌∷◌}
use nalang_project.Raise.{Result, err, http}
use nalang_project.Auth.World.{Settings, Libraries, Clock, Server}
use nalang_project.Auth.Login.{get_current_user}
use nalang_project.Profile.Update.{UserProfileUpdate}
use nalang_project.Profile.Upload.{UploadFile}
use nalang_project.Routes.{
  register_for_call_waiting, history_list, get_me, save_profile, save_profile_image,
}

-- With a token that cannot be decoded, the routes for waiting, for the history and for one's own
-- profile and image are refused with status 401, and nothing is read or changed.
pub save_profile-unauthorized :
    (c : Settings) (x : Libraries) (t : Clock) (token : String) (header : Option String)
    (p : UserProfileUpdate) (upload : String → String → Result (Unit {0})) (bucket uuid : String)
    (file : UploadFile) (s : Server)
    → x.decode t.now token c.jwt_secret_key ("HS256" ∷ []) ≡ none
    → (save_profile c x t token p s ≡ (err (http 401 "Could not validate Credentials"), s))
      × (save_profile_image c x t upload bucket uuid token file s
          ≡ (err (http 401 "Could not validate Credentials"), s))
      × (get_me c x t token header s ≡ (err (http 401 "Could not validate Credentials"), s))
      × (history_list c x t token s ≡ (err (http 401 "Could not validate Credentials"), s))
      × (register_for_call_waiting c x t token s
          ≡ (err (http 401 "Could not validate Credentials"), s))
unfolding save_profile save_profile_image get_me history_list register_for_call_waiting
    get_current_user
save_profile-unauthorized c x t token header p upload bucket uuid file s h =
    rw h (refl, refl, refl, refl, refl)
