-- ===== src/Waiting/Filter.antt =====
-- `is_match` of server/app/domains/call/services/ws_service.py.
use nalang_project.Prelude.{
  ℕ, ◌+◌, String, Bool, true, false, not, ◌&&◌, ◌||◌, Option, none, some, List, if◌then◌else◌, ℤ,
  pos, sub_ℕ, ltb_ℤ, beq_ℤ, any, ◌==◌, string_eq,
}
use nalang_project.Raise.{Result, ok, err, value_error, from_option, and_then}
use nalang_project.Text.{int}
use nalang_project.Calendar.{Date, strptime, earlier_in_year}

-- `user_data`, the part of a user that is stored for matching
pub record UserData : Type 0 where
  pub id : ℕ
  pub gender_id : Option ℕ
  pub languages : List ℕ
  pub birth_date : Option String

-- `filters`, the query parameters of the web socket
pub record Filters : Type 0 where
  pub gender_id : Option String
  pub language_id : Option String
  pub min_age : Option String
  pub max_age : Option String

-- A query parameter that is absent or empty is false.
abbrev pub is_set : Option String → Bool
is_set none = false
is_set (some s) = not (s == "")

abbrev pub text_of : Option String → String
text_of none = ""
text_of (some s) = s

-- `int(filters[key])` of a parameter that is set
abbrev pub int_of : Option String → Result ℤ
int_of p = from_option value_error (int (text_of p))

abbrev pub is_gender : Option ℕ → ℤ → Bool
is_gender none g = false
is_gender (some k) g = beq_ℤ (pos k) g

-- The test of one filter: passed at once where the filter is not set.
abbrev pub when_set : Option String → (ℤ → Bool) → Result Bool
when_set p test = if is_set p then and_then (int_of p) (λ n. ok (test n)) else ok true

unfoldable pub gender_passes : UserData → Filters → Result Bool
gender_passes u f = when_set f.gender_id (is_gender u.gender_id)

unfoldable pub language_passes : UserData → Filters → Result Bool
language_passes u f = when_set f.language_id (λ n. any (λ l. beq_ℤ (pos l) n) u.languages)

-- Years between the two dates, one less before the birthday.
unfoldable pub age : Date → Date → ℤ
age today birth = sub_ℕ today.year (birth.year + (if earlier_in_year today birth then 1 else 0))

abbrev pub both : Result Bool → Result Bool → Result Bool
both (ok true) r = r
both (ok false) r = ok false
both (err e) r = err e

-- The body of the `try` block: ValueErrors of `strptime` and `int` are raised.
unfoldable pub age_in_range : Date → Option String → Filters → Result Bool
unfolding age
age_in_range today birth_date f =
    and_then (from_option value_error (strptime (text_of birth_date))) λ birth.
      both (when_set f.min_age (λ n. not (ltb_ℤ (age today birth) n)))
        (when_set f.max_age (λ n. not (ltb_ℤ n (age today birth))))

-- `except Exception: return False`
abbrev pub caught : Result Bool → Bool
caught (ok b) = b
caught (err e) = false

unfoldable pub age_passes : Date → UserData → Filters → Bool
unfolding age_in_range
age_passes today u f =
    if is_set u.birth_date && (is_set f.min_age || is_set f.max_age)
    then caught (age_in_range today u.birth_date f)
    else true

unfoldable pub is_match : Date → UserData → Filters → Result Bool
unfolding gender_passes language_passes age_passes
is_match today u f =
    both (gender_passes u f) (both (language_passes u f) (ok (age_passes today u f)))
