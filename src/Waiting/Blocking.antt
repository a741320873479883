-- ===== src/Waiting/Blocking.antt =====
-- Laws of `is_match` where a filter or a birth date cannot be read.
use Prim.Native.Char.{Char}
use nalang_project.Prelude.{
  ℕ, String, ◌≡◌, refl, sym, ◌≢◌, ◌∙◌, Bool, true, false, ◌||◌, none, some, List, ◌∷◌, arith,
  nat_eq, string_eq, ==_refl, ==_ne,
}
use nalang_project.Text.{int}
use nalang_project.Calendar.{Date, DateTime, str_datetime}
use nalang_project.Calendar.Unparsed.{strptime-str_datetime}
use nalang_project.Dict.{lookup}
use nalang_project.Raise.{Result, ok, err, value_error}
use nalang_project.Models.{User}
use nalang_project.Waiting.Filter.{
  UserData, Filters, is_set, text_of, age_passes, is_match, both, gender_passes, language_passes,
}
use nalang_project.Waiting.State.{Socket, profile, Lobby, World}
use nalang_project.Waiting.Connect.{user_data_of, store_profile, find_match, handle_connect, suits}
use nalang_project.Waiting.Requeue.{profile_of, profile_of-store_profile}
use nalang_project.Waiting.Session.{step, connects}
use nalang_project.Waiting.Disconnect.{handle_disconnect}
use nalang_project.Waiting.Leaving.{waiting-handle_disconnect}
use nalang_project.Waiting.Closing.{IsGone, handle_disconnect-IsGone, close_lem}

cons-is_set : (c : Char) (s : String) → is_set (some (String.◌∷◌ c s)) ≡ true
cons-is_set c s = rw (==_ne (String.◌∷◌ c s) "" (λ e. cc))

printed-is_set : (t : DateTime) → is_set (some (str_datetime t)) ≡ true
unfolding str_datetime
printed-is_set t = cons-is_set _ _

age_passes-printed :
    (today : Date) (u : UserData) (f : Filters) (t : DateTime)
    → u.birth_date ≡ some (str_datetime t)
    → (is_set f.min_age || is_set f.max_age) ≡ true
    → age_passes today u f ≡ false
unfolding age_passes
age_passes-printed today u f t b h = rw (b, printed-is_set t, h, strptime-str_datetime t)

both-false_last : (a b : Result Bool) → both a (both b (ok false)) ≢ ok true
both-false_last a b h = ground arith

-- A user with a birth date passes no filter that asks for an age, whatever the age and the limits.
pub is_match-birth_date :
    (today : Date) (user : User) (t : DateTime) (f : Filters)
    → user.birth_date ≡ some t
    → (is_set f.min_age || is_set f.max_age) ≡ true
    → is_match today (user_data_of user) f ≢ ok true
unfolding is_match user_data_of
is_match-birth_date today user t f b h e =
    both-false_last (gender_passes (user_data_of user) f) (language_passes (user_data_of user) f)
      (rw (age_passes-printed today (user_data_of user) f t (rw b) h) at e)

is_match-bad_gender :
    (today : Date) (u : UserData) (f : Filters)
    → is_set f.gender_id ≡ true
    → int (text_of f.gender_id) ≡ none
    → is_match today u f ≡ err value_error
unfolding is_match gender_passes
is_match-bad_gender today u f h e = rw (h, e)

module _ (w : World) (sock : Socket) (user : User) (f : Filters) (l : Lobby) (other : ℕ)
    (s : Socket) (rest : List (ℕ × Socket)) (data_ : UserData) (theirs : Filters)
    (first : l.waiting_users ≡ (other, s) ∷ rest) (ne : user.id ≢ other)
    (known : profile_of w.now other l ≡ some (profile data_ theirs))
    (admits : is_match w.today data_ f ≡ ok true) (filters : is_set theirs.gender_id ≡ true)
    (bad : int (text_of theirs.gender_id) ≡ none) where
  mine : UserData
  mine = user_data_of user

  stored : Lobby
  stored = store_profile w mine f l

  still_known : profile_of w.now other stored ≡ some (profile data_ theirs)
  unfolding stored mine
  still_known =
      profile_of-store_profile w (user_data_of user) f l w.now other (unfold user_data_of in ne)
      ∙ known

  find_match_fails : find_match w stored.redis mine f l.waiting_users ≡ err value_error
  unfolding find_match suits mine user_data_of
  find_match_fails = rw (
    first,
    ==_ne other user.id (λ e. ne (sym e)),
    still_known,
    admits,
    is_match-bad_gender w.today (user_data_of user) theirs filters bad,
  )

  handle_connect_fails : handle_connect w sock user f l ≡ (err value_error, stored)
  unfolding handle_connect stored mine store_profile
  handle_connect_fails = rw find_match_fails

  step_fails : step w (connects sock user f) l ≡ handle_disconnect w user.id stored
  unfolding step
  step_fails = rw handle_connect_fails (close_lem w user.id false stored)

  -- While the first waiting user has a gender filter that is no number, every user whose own filters
  -- admit it fails to connect: the handler raises, the user is nowhere in the lobby, and the waiting
  -- user stays.
  pub handle_connect-blocked :
      ((handle_connect w sock user f l).0 ≡ err value_error)
      × IsGone user.id (step w (connects sock user f) l)
      × (lookup other (step w (connects sock user f) l).waiting_users ≡ some s)
  handle_connect-blocked =
      rw (handle_connect_fails, step_fails)
        (
          refl,
          handle_disconnect-IsGone w user.id stored,
          waiting-handle_disconnect w user.id stored other
              ∙ rw (==_ne user.id other ne)
                  (unfold stored store_profile in rw (first, ==_refl other)),
        )
