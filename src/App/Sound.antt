-- ===== src/App/Sound.antt =====
-- What it means that the database is sound, which every change that the code makes keeps.
use nalang_project.Prelude.{
  subst, sym, ◌<◌, ◌≡◌, ap, true, some, List, [], map, All, All-append, pos, arith, Option, ◌+◌,
  String, ◌∷◌, ◌++◌, none,
}
use nalang_project.Models.{User, Item, CallHistory, Db}
use nalang_project.Auth.World.{Libraries}
use nalang_project.Auth.Accounts.{find_by_email, find_by_id}
use nalang_project.Auth.AccountLaws.{IsConsistent, insert-IsConsistent, count-IsConsistent}
use nalang_project.Call.History.{has_user, set_url}
use nalang_project.Call.HistoryLaws.{IsLinked}
use nalang_project.Profile.Update
use nalang_project.App.Rows.{
  HasOwnIds, All-implies, is_some-find_by_id-append, is_some-find_by_id-replace_user,
  all_known-append, HasOwnIds-append, All-map-set_url, set_url_keeps, HasOwnIds-set_url,
  find_by_id-Agrees, All-replace_user-keys, Unique-replace_user, All-replace_user, All-find_by_id,
}
use nalang_project.App.Stable.{HasDuration, IsAccount, HasLinks, account, IsStable}

-- Addresses and numbers of users and numbers of calls are unique and the sequences are ahead of them;
-- calls are between users and have a duration that fits its column; users have an address, and a name of 2 to 30 characters, and are linked with options, with none twice.
pub record IsSound (x : Libraries) (d : Db) : Type 0 where
  pub named : All (IsAccount x) d.users
  pub accounts : IsConsistent d
  pub calls : IsLinked d
  pub numbers : HasOwnIds d.histories
  pub below : All (λ h. h.id < d.next_history) d.histories
  pub durations : All HasDuration d.histories
  pub links : All (HasLinks d) d.users

abbrev HasUsers : Db → CallHistory → Type 0
HasUsers d r = (has_user r.user_id d ≡ true) × (has_user r.partner_id d ≡ true)

module _ (x : Libraries) where
  insert_user-IsSound :
      (u : User) (d : Db)
      → find_by_email u.email d.users ≡ none
      → u.id ≡ d.next_user
      → IsAccount x u
      → HasLinks d u
      → IsSound x d
      → IsSound x (record d { next_user = d.next_user + 1; users = d.users ++ u ∷ [] })
  insert_user-IsSound u d e n a l h = record {
    named = All-append _ d.users (u ∷ []) h.named (a, tt);
    accounts = insert-IsConsistent u d e n h.accounts;
    calls =
        All-implies _ _ d.histories
          (λ r p. (
            is_some-find_by_id-append r.user_id d.users (u ∷ []) p.0,
            is_some-find_by_id-append r.partner_id d.users (u ∷ []) p.1,
          ))
          h.calls;
    durations = h.durations;
    numbers = h.numbers;
    below = h.below;
    links = All-append _ d.users (u ∷ []) h.links (l, tt);
  }

  count_user-IsSound : (d : Db) → IsSound x d → IsSound x (record d { next_user = d.next_user + 1 })
  count_user-IsSound d h = record {
    named = h.named;
    accounts = count-IsConsistent d h.accounts;
    calls = h.calls;
    durations = h.durations;
    numbers = h.numbers;
    below = h.below;
    links = h.links;
  }

  replace_user-IsSound :
      (u u' : User) (d : Db)
      → find_by_id (pos u.id) d.users ≡ some u
      → account u' ≡ account u
      → (HasLinks d u → HasLinks d u')
      → IsSound x d
      → IsSound x (record d { users = Update.replace_user u' d.users })
  replace_user-IsSound u u' d found e l h =
      let agrees = find_by_id-Agrees u d.users h.accounts.unique found in
      let same_id : u'.id ≡ u.id = ap (λ w. w.id) e in
      let same_email : u'.email ≡ u.email = ap (λ w. w.email) e in
      record {
        named =
            All-replace_user (IsAccount x) u' d.users
              (subst (IsAccount x) (sym e)
                (All-find_by_id (IsAccount x) (pos u.id) d.users u found h.named))
              h.named;
        accounts = record {
          unique = Unique-replace_user u u' same_id same_email d.users agrees h.accounts.unique;
          below =
              All-replace_user-keys u u' same_id same_email (λ _ k. k < d.next_user) d.users agrees
                h.accounts.below;
        };
        calls =
            All-implies _ _ d.histories
              (λ r p. (
                is_some-find_by_id-replace_user r.user_id u' d.users p.0,
                is_some-find_by_id-replace_user r.partner_id u' d.users p.1,
              ))
              h.calls;
        durations = h.durations;
        numbers = h.numbers;
        below = h.below;
        links =
            All-replace_user (HasLinks d) u' d.users
              (l (All-find_by_id (HasLinks d) (pos u.id) d.users u found h.links)) h.links;
      }

  insert_history-IsSound :
      (r : CallHistory) (d : Db)
      → r.id ≡ d.next_history
      → has_user r.user_id d ≡ true
      → has_user r.partner_id d ≡ true
      → HasDuration r
      → IsSound x d
      → IsSound x
          (record d { next_history = d.next_history + 1; histories = d.histories ++ r ∷ [] })
  insert_history-IsSound r d e p q long h = record {
    durations = All-append HasDuration d.histories (r ∷ []) h.durations (long, tt);
    named = h.named;
    accounts = record { unique = h.accounts.unique; below = h.accounts.below };
    calls = All-append _ d.histories (r ∷ []) h.calls ((p, q), tt);
    numbers = HasOwnIds-append d.histories r h.numbers (rw e h.below);
    below =
        All-append (λ g. g.id < d.next_history + 1) d.histories (r ∷ [])
          (All-implies (λ g. g.id < d.next_history) (λ g. g.id < d.next_history + 1) d.histories
            (λ g lt. omega arith) h.below)
          (omega arith, tt);
    links = h.links;
  }

  count_history-IsSound :
      (d : Db) → IsSound x d → IsSound x (record d { next_history = d.next_history + 1 })
  count_history-IsSound d h = record {
    named = h.named;
    accounts = record { unique = h.accounts.unique; below = h.accounts.below };
    calls = h.calls;
    durations = h.durations;
    numbers = h.numbers;
    below =
        All-implies (λ g. g.id < d.next_history) (λ g. g.id < d.next_history + 1) d.histories
          (λ g lt. omega arith) h.below;
    links = h.links;
  }

  set_urls-IsSound :
      (room : String) (url : Option String) (d : Db)
      → IsSound x d
      → IsSound x (record d { histories = map (set_url room url) d.histories })
  set_urls-IsSound room url d h = record {
    named = h.named;
    accounts = record { unique = h.accounts.unique; below = h.accounts.below };
    calls =
        All-map-set_url (HasUsers d) room url d.histories
          (λ g p. set_url_keeps (HasUsers d) room url g p p) h.calls;
    durations =
        All-map-set_url HasDuration room url d.histories
          (λ g p. set_url_keeps HasDuration room url g p p) h.durations;
    numbers = HasOwnIds-set_url room url d.histories h.numbers;
    below =
        All-map-set_url (λ r. r.id < d.next_history) room url d.histories
          (λ g p. set_url_keeps (λ r. r.id < d.next_history) room url g p p) h.below;
    links = h.links;
  }

  insert_options-IsSound :
      (i l g : List Item) (d : Db)
      → IsSound x d
      → IsSound x (record d {
        interests = d.interests ++ i;
        languages = d.languages ++ l;
        genders = d.genders ++ g;
      })
  insert_options-IsSound i l g d h = record {
    named = h.named;
    accounts = record { unique = h.accounts.unique; below = h.accounts.below };
    calls = h.calls;
    durations = h.durations;
    numbers = h.numbers;
    below = h.below;
    links =
        All-implies (HasLinks d) _ d.users
          (λ u (a, b, c, once, once_too). (
            all_known-append d.interests i u.interest_links a,
            all_known-append d.languages l u.language_links b,
            all_known-append d.genders g u.gender_links c,
            once,
            once_too,
          ))
          h.links;
  }

  pub IsSound-IsStable : IsStable x (λ d redis. IsSound x d)
  IsSound-IsStable = record {
    insert_user = λ u d redis. insert_user-IsSound u d;
    count_user = λ d redis. count_user-IsSound d;
    replace_user = λ u u' d redis. replace_user-IsSound u u' d;
    insert_history = λ h d redis. insert_history-IsSound h d;
    count_history = λ d redis. count_history-IsSound d;
    set_urls = λ room url d redis. set_urls-IsSound room url d;
    insert_options = λ i l g d redis. insert_options-IsSound i l g d;
    store_token = λ now id token d redis known h. h;
    start_waiting = λ now id d redis h. h;
    store_profile = λ now u f d redis known h. h;
    delete = λ key d redis h. h;
  }

abbrev pub empty_db : Db
empty_db = record {
  users = [];
  next_user = 1;
  interests = [];
  languages = [];
  genders = [];
  histories = [];
  next_history = 1;
}

pub empty_db-IsSound : (x : Libraries) → IsSound x empty_db
empty_db-IsSound x = record {
  named = tt;
  durations = tt;
  accounts = record { unique = tt; below = tt };
  calls = tt;
  numbers = tt;
  below = tt;
  links = tt;
}
