-- ===== src/App/Kept/Changes.antt =====
-- What every change keeps is kept by the updates of profiles and by the queue of callers.
use nalang_project.Prelude.{
  ℕ, ◌≡◌, refl, String, true, false, not, ◌&&◌, ◌||◌, some, List, [], ◌∷◌, pos, arith, ◌==◌,
  string_eq, Bool-cases, inl, inr,
}
use nalang_project.Redis
use nalang_project.Redis.{Redis}
use nalang_project.Models.{User, Db}
use nalang_project.Raise.{Result, ok, err}
use nalang_project.Waiting.State.{Value}
use nalang_project.Auth.World.{Libraries}
use nalang_project.Auth.Accounts.{find_by_id}
use nalang_project.Call.Queue.{waiting_key, register_for_call_queue, call_loop, call_websocket}
use nalang_project.Profile.Update.{UserProfileUpdate, update_user_profile, repeats}
use nalang_project.Profile.UpdateLaws.{
  is_known, with_links, update_user_profile-known, update_user_profile-refuses,
}
use nalang_project.Profile.Upload.{
  UploadFile, is_allowed, set_image, upload_profile_image, upload_image_to_s3,
}
use nalang_project.App.Stable.{HasLinks, IsStable}

with_links-HasLinks :
    (u : User) (p : UserProfileUpdate) (d : Db)
    → is_known p d ≡ true
    → (repeats p.interests || repeats p.languages) ≡ false
    → HasLinks d (with_links u p)
with_links-HasLinks u p d h r =
    (ground arith, ground arith, ground arith, ground arith, ground arith)

module _ {x : Libraries} {P : Db → Redis Value → Type 0} (k : IsStable x P) where
  pub update_user_profile-keeps :
      (u : User) (p : UserProfileUpdate) (d : Db) (redis : Redis Value)
      → find_by_id (pos u.id) d.users ≡ some u
      → P d redis
      → P (update_user_profile u p d).1 redis
  update_user_profile-keeps u p d redis found h =
      elim (Bool-cases (is_known p d && not (repeats p.interests || repeats p.languages))) [
        | inr e ↦ let (_, q) = update_user_profile-refuses u p d e in rw q h
        | inl e ↦
            let known : is_known p d ≡ true = ground arith in
            let once : (repeats p.interests || repeats p.languages) ≡ false = ground arith in
            rw (update_user_profile-known u p d known once) (
              k.replace_user u (with_links u p) d redis found refl
                (λ _. with_links-HasLinks u p d known once) h)
      ]

  set_image-keeps :
      (u : User) (r : Result String) (d : Db) (redis : Redis Value)
      → find_by_id (pos u.id) d.users ≡ some u
      → P d redis
      → P (set_image u r d).1 redis
  set_image-keeps u (err e) d redis found h = h
  set_image-keeps u (ok url) d redis found h =
      k.replace_user u (record u { profile_image = some url }) d redis found refl (λ l. l) h

  pub upload_profile_image-keeps :
      (upload : String → String → Result (Unit {0})) (bucket uuid : String) (file : UploadFile)
      (u : User) (d : Db) (redis : Redis Value)
      → find_by_id (pos u.id) d.users ≡ some u
      → P d redis
      → P (upload_profile_image upload bucket uuid file u d).1 redis
  unfolding upload_profile_image
  upload_profile_image-keeps upload bucket uuid file u d redis found h =
      elim (Bool-cases (is_allowed file.content_type)) [
        | inl e ↦ rw e (
            set_image-keeps u (upload_image_to_s3 upload bucket "profile_image" uuid file) d redis
              found h)
        | inr e ↦ rw e h
      ]

  pub register_for_call_queue-keeps :
      (now id : ℕ) (d : Db) (redis : Redis Value)
      → P d redis
      → P d (register_for_call_queue now id redis).1
  unfolding register_for_call_queue
  register_for_call_queue-keeps now id d redis h =
      elim (Bool-cases (Redis.exists now (waiting_key id) redis)) [
        | inl e ↦ rw e h
        | inr e ↦ rw e (k.start_waiting now id d redis h)
      ]

  call_loop-keeps :
      (id : ℕ) (messages : List String) (d : Db) (redis : Redis Value)
      → P d redis
      → P d (call_loop id messages redis).1
  unfolding call_loop
  call_loop-keeps id [] d redis h = k.delete (waiting_key id) d redis h
  call_loop-keeps id (message ∷ rest) d redis h = elim (Bool-cases (message == "cancel")) [
    | inl e ↦ rw e (call_loop-keeps id rest d _ (k.delete (waiting_key id) d redis h))
    | inr e ↦ rw e (call_loop-keeps id rest d redis h)
  ]

  pub call_websocket-keeps :
      (now id : ℕ) (messages : List String) (d : Db) (redis : Redis Value)
      → P d redis
      → P d (call_websocket now id messages redis).1
  unfolding call_websocket
  call_websocket-keeps now id messages d redis h =
      call_loop-keeps id messages d _ (k.start_waiting now id d redis h)
