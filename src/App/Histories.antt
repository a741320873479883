-- ===== src/App/Histories.antt =====
-- What holds of the server after any history of requests.
use nalang_project.Prelude.{ℕ, ◌≡◌, sym, ◌∙◌, ap, List, [], ◌∷◌, ◌++◌, map}
use mathlib.Core.List.{append-nil, append_assoc, map-append}
use nalang_project.Models.{User, CallHistory, Db}
use nalang_project.Auth.World.{Settings, Libraries, Server}
use nalang_project.Call.History.{set_url}
use nalang_project.Profile.Update
use nalang_project.App.{Services, Event, run_events}
use nalang_project.App.Rows.{call, find_by_id-Agrees, map-account-replace_user, map-call-set_url}
use nalang_project.App.Sound.{IsSound, IsSound-IsStable, empty_db, empty_db-IsSound}
use nalang_project.App.Sessions.{HasSessions, HasSessions-IsStable}
use nalang_project.App.Stable.{account, IsStable}
use nalang_project.App.Kept.Handlers.{run_events-keeps}

abbrev pub empty_server : Server
empty_server = record { db = empty_db; redis = [] }

-- Whatever requests come, valid or not, and whenever the seeds are run, from the empty server: the
-- database is sound, and every value that Redis holds is "waiting", or the number of a user whose row
-- is there, or a profile of such a user with filters. Each request, the whole life of a web socket
-- too, ends before the next begins.
pub run_events-IsSound :
    (c : Settings) (x : Libraries) (v : Services) (es : List Event)
    → let last = run_events c x v es empty_server in
      IsSound x last.db × HasSessions last.db last.redis
run_events-IsSound c x v es =
    run_events-keeps (HasSessions-IsStable x) c v es empty_server (empty_db-IsSound x, tt)

abbrev Extends : {A : Type 0} → List A → List A → Type 0
Extends {A} xs ys = (more : List A) × (ys ≡ xs ++ more)

Extends-refl : {A : Type 0} (xs : List A) → Extends xs xs
Extends-refl xs = ([], sym (append-nil xs))

Extends-append : {A : Type 0} (xs ys more : List A) → Extends xs ys → Extends xs (ys ++ more)
Extends-append xs ys more (front, e) =
    (front ++ more, ap (λ l. l ++ more) e ∙ append_assoc xs front more)

Extends-map :
    {A B : Type 0} (f : A → B) (xs : List B) (ys more : List A)
    → Extends xs (map f ys)
    → Extends xs (map f (ys ++ more))
Extends-map f xs ys more h = rw (map-append f ys more) (Extends-append xs (map f ys) (map f more) h)

-- All that the tables of `d` hold stands in those of `d'`, in its order and before what is new, up to
-- the pictures and links of users and the addresses of recordings.
pub record IsLater (d d' : Db) : Type 0 where
  pub users : Extends (map account d.users) (map account d'.users)
  pub histories : Extends (map call d.histories) (map call d'.histories)
  pub interests : Extends d.interests d'.interests
  pub languages : Extends d.languages d'.languages
  pub genders : Extends d.genders d'.genders

IsLater-refl : (d : Db) → IsLater d d
IsLater-refl d = record {
  users = Extends-refl _;
  histories = Extends-refl _;
  interests = Extends-refl _;
  languages = Extends-refl _;
  genders = Extends-refl _;
}

abbrev IsSoundLater : Libraries → Db → Db → Type 0
IsSoundLater x d d' = IsSound x d' × IsLater d d'

-- Only one of the tables changes.
module _ {d d1 : Db} (h : IsLater d d1) where
  with_users :
      (n : ℕ) (us : List User)
      → Extends (map account d.users) (map account us)
      → IsLater d (record d1 { next_user = n; users = us })
  with_users n us e = record {
    users = e;
    histories = h.histories;
    interests = h.interests;
    languages = h.languages;
    genders = h.genders;
  }

  with_histories :
      (n : ℕ) (hs : List CallHistory)
      → Extends (map call d.histories) (map call hs)
      → IsLater d (record d1 { next_history = n; histories = hs })
  with_histories n hs e = record {
    users = h.users;
    histories = e;
    interests = h.interests;
    languages = h.languages;
    genders = h.genders;
  }

IsSoundLater-IsStable : (x : Libraries) (d : Db) → IsStable x (λ d1 redis. IsSoundLater x d d1)
IsSoundLater-IsStable x d =
    let k = IsSound-IsStable x in
    record {
      insert_user = λ u d1 redis e n a l h. (
        k.insert_user u d1 redis e n a l h.0,
        with_users h.1 _ _ (Extends-map account _ d1.users (u ∷ []) h.1.users),
      );
      count_user = λ d1 redis h. (k.count_user d1 redis h.0, with_users h.1 _ d1.users h.1.users);
      replace_user = λ u u' d1 redis found e l h. (
        k.replace_user u u' d1 redis found e l h.0,
        with_users h.1 d1.next_user (Update.replace_user u' d1.users) (
            rw
              (map-account-replace_user u u' d1.users e
                (find_by_id-Agrees u d1.users h.0.accounts.unique found))
              h.1.users),
      );
      insert_history = λ r d1 redis e p q long h. (
        k.insert_history r d1 redis e p q long h.0,
        with_histories h.1 _ _ (Extends-map call _ d1.histories (r ∷ []) h.1.histories),
      );
      count_history = λ d1 redis h.
          (k.count_history d1 redis h.0, with_histories h.1 _ d1.histories h.1.histories);
      set_urls = λ room url d1 redis h. (
        k.set_urls room url d1 redis h.0,
        with_histories h.1 d1.next_history (map (set_url room url) d1.histories)
            (rw (map-call-set_url room url d1.histories) h.1.histories),
      );
      insert_options = λ i l g d1 redis h. (
        k.insert_options i l g d1 redis h.0,
        record {
          users = h.1.users;
          histories = h.1.histories;
          interests = Extends-append _ d1.interests i h.1.interests;
          languages = Extends-append _ d1.languages l h.1.languages;
          genders = Extends-append _ d1.genders g h.1.genders;
        },
      );
      store_token = λ now id token d1 redis known h. h;
      start_waiting = λ now id d1 redis h. h;
      store_profile = λ now u f d1 redis known h. h;
      delete = λ key d1 redis h. h;
    }

-- In a sound database nothing is lost, whatever requests come, valid or not, and whenever the seeds
-- are run: accounts, calls and options stay in their order before the new ones, and of an account
-- only the picture and the links change, of a call only the address of its recording.
pub run_events-IsLater :
    (c : Settings) (x : Libraries) (v : Services) (es : List Event) (s : Server)
    → IsSound x s.db
    → IsLater s.db (run_events c x v es s).db
run_events-IsLater c x v es s h =
    let (_, later) =
      run_events-keeps (IsSoundLater-IsStable x s.db) c v es s (h, IsLater-refl s.db) in
    later
