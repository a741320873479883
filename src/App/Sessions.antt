-- ===== src/App/Sessions.antt =====
-- What Redis holds: the refresh tokens of users, the callers who wait and the profiles of the users in
-- the waiting room.
use nalang_project.Prelude.{
  ℕ, ◌+◌, ◌≡◌, refl, ◌⊎◌, inl, inr, true, String, [], ◌∷◌, ◌++◌, All, string_eq,
}
use nalang_project.Text.{str}
use nalang_project.Dict.{All-insert, All-erase}
use nalang_project.Redis
use nalang_project.Redis.{Redis}
use nalang_project.Models.{User, Db}
use nalang_project.Waiting.State.{Value, text, profile, user_key}
use nalang_project.Waiting.Filter.{UserData, Filters}
use nalang_project.Waiting.Connect.{user_data_of}
use nalang_project.Auth.World.{Libraries}
use nalang_project.Call.History.{has_user}
use nalang_project.Call.Queue.{start_waiting}
use nalang_project.Profile.Update
use nalang_project.App.Rows.{
  All-implies, is_some-find_by_id-append, is_some-find_by_id-replace_user,
}
use nalang_project.App.Sound.{IsSound, IsSound-IsStable}
use nalang_project.App.Stable.{IsStable}

-- "waiting", or the number of a user, or the profile of a user with filters.
abbrev pub IsSession : Db → Value → Type 0
IsSession d v =
    (v ≡ text "waiting")
    ⊎ ((id : ℕ) × (v ≡ text (str id)) × (has_user id d ≡ true))
    ⊎ ((mine : UserData) × (f : Filters) × (v ≡ profile mine f) × (has_user mine.id d ≡ true))

abbrev pub HasSessions : Db → Redis Value → Type 0
HasSessions d redis = All (λ e. IsSession d e.1.value) redis

IsSession-of_users :
    (d d' : Db) (v : Value)
    → ((id : ℕ) → has_user id d ≡ true → has_user id d' ≡ true)
    → IsSession d v
    → IsSession d' v
IsSession-of_users d d' v f (inl e) = inl e
IsSession-of_users d d' v f (inr (inl (id, e, known))) = inr (inl (id, e, f id known))
IsSession-of_users d d' v f (inr (inr (mine, g, e, known))) =
    inr (inr (mine, g, e, f mine.id known))

HasSessions-of_users :
    (d d' : Db) (redis : Redis Value)
    → ((id : ℕ) → has_user id d ≡ true → has_user id d' ≡ true)
    → HasSessions d redis
    → HasSessions d' redis
HasSessions-of_users d d' redis f h =
    All-implies _ _ redis (λ e p. IsSession-of_users d d' e.1.value f p) h

HasSessions-token :
    (now id : ℕ) (token : String) (d : Db) (redis : Redis Value)
    → has_user id d ≡ true
    → HasSessions d redis
    → HasSessions d (Redis.set now token (text (str id)) 604800 redis)
unfolding Redis.set
HasSessions-token now id token d redis known h =
    All-insert (λ e. IsSession d e.value) token _ redis (inr (inl (id, refl, known))) h

HasSessions-waiting :
    (now id : ℕ) (d : Db) (redis : Redis Value)
    → HasSessions d redis
    → HasSessions d (start_waiting now id redis)
unfolding start_waiting Redis.set
HasSessions-waiting now id d redis h = All-insert (λ e. IsSession d e.value) _ _ redis (inl refl) h

HasSessions-profile :
    (now : ℕ) (u : User) (f : Filters) (d : Db) (redis : Redis Value)
    → has_user u.id d ≡ true
    → HasSessions d redis
    → HasSessions d (Redis.set now (user_key u.id) (profile (user_data_of u) f) 600 redis)
unfolding Redis.set user_data_of
HasSessions-profile now u f d redis known h =
    All-insert (λ e. IsSession d e.value) _ _ redis (inr (inr (user_data_of u, f, refl, known))) h

HasSessions-delete :
    (key : String) (d : Db) (redis : Redis Value)
    → HasSessions d redis
    → HasSessions d (Redis.delete key redis)
unfolding Redis.delete
HasSessions-delete key d redis h = All-erase (λ e. IsSession d e.value) key redis h

pub HasSessions-IsStable :
    (x : Libraries) → IsStable x (λ d redis. IsSound x d × HasSessions d redis)
HasSessions-IsStable x =
    let k = IsSound-IsStable x in
    record {
      insert_user = λ u d redis e n a l h. (
        k.insert_user u d redis e n a l h.0,
        HasSessions-of_users d (record d { next_user = d.next_user + 1; users = d.users ++ u ∷ [] })
            redis (λ id known. is_some-find_by_id-append id d.users (u ∷ []) known) h.1,
      );
      count_user = λ d redis h. (k.count_user d redis h.0, h.1);
      replace_user = λ u u' d redis found e l h. (
        k.replace_user u u' d redis found e l h.0,
        HasSessions-of_users d (record d { users = Update.replace_user u' d.users }) redis
            (λ id known. is_some-find_by_id-replace_user id u' d.users known) h.1,
      );
      insert_history = λ r d redis e p q long h. (k.insert_history r d redis e p q long h.0, h.1);
      count_history = λ d redis h. (k.count_history d redis h.0, h.1);
      set_urls = λ room url d redis h. (k.set_urls room url d redis h.0, h.1);
      insert_options = λ i l g d redis h. (k.insert_options i l g d redis h.0, h.1);
      store_token =
          λ now id token d redis known h. (h.0, HasSessions-token now id token d redis known h.1);
      start_waiting = λ now id d redis h. (h.0, HasSessions-waiting now id d redis h.1);
      store_profile =
          λ now u f d redis known h. (h.0, HasSessions-profile now u f d redis known h.1);
      delete = λ key d redis h. (h.0, HasSessions-delete key d redis h.1);
    }
