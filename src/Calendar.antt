-- ===== src/Calendar.antt =====
-- Dates as Python's `datetime` prints and reads them: `str(dt)` and `strptime(s, "%Y-%m-%d")`.
pub mod Unparsed
use Prim.Native.String
use nalang_project.Prelude.{
  ℕ, zero, suc, ◌+◌, ◌-◌, ◌*◌, ◌/◌, ◌%◌, ◌≤◌, ◌<◌, String, Bool, true, false, ◌&&◌, ◌||◌, Option,
  none, some, List, [], ◌∷◌, ◌++◌, ltb, leb, nat_beq, if◌then◌else◌,
}
use nalang_project.Text.{digit_char, is_digit, codes}

pub record Date : Type 0 where
  pub year : ℕ
  pub month : ℕ
  pub day : ℕ

pub record DateTime : Type 0 where
  pub date : Date
  pub hour : ℕ
  pub minute : ℕ
  pub second : ℕ
  pub microsecond : ℕ

-- `%04d`, `%02d` and `%06d` before `rest`
abbrev pub put_digit : ℕ → String → String
put_digit n rest = String.◌∷◌ (digit_char (n % 10)) rest

abbrev pub put2 : ℕ → String → String
put2 n rest = put_digit (n / 10) (put_digit n rest)

abbrev pub put4 : ℕ → String → String
put4 n rest = put2 (n / 100) (put2 n rest)

pub micro : ℕ → String
micro zero = ""
micro n = String.◌∷◌ "." (put4 (n / 100) (put2 n ""))

abbrev pub put_time : DateTime → String
put_time t =
    put2 t.hour
      (String.◌∷◌ ":" (put2 t.minute (String.◌∷◌ ":" (put2 t.second (micro t.microsecond)))))

-- `str(dt)`: the date, a space and the time
unfoldable pub str_datetime : DateTime → String
unfolding micro
str_datetime t = put4 t.date.year (
    String.◌∷◌ "-"
      (put2 t.date.month (String.◌∷◌ "-" (put2 t.date.day (String.◌∷◌ " " (put_time t))))))

abbrev pub value : ℕ → ℕ
value c = c - b'0'

-- `%Y`
abbrev pub take_year : List ℕ → Option (ℕ × List ℕ)
take_year (a ∷ b ∷ c ∷ d ∷ rest) =
    if is_digit a && is_digit b && is_digit c && is_digit d
    then some (value a * 1000 + value b * 100 + value c * 10 + value d, rest)
    else none
take_year _ = none

abbrev pub from_to : ℕ → ℕ → ℕ → Bool
from_to lo hi c = leb lo c && leb c hi

-- `%m`: 1[0-2] or 0[1-9] or [1-9]
abbrev pub take_month : List ℕ → Option (ℕ × List ℕ)
take_month [] = none
take_month (a ∷ []) = if from_to b'1' b'9' a then some (value a, []) else none
take_month (a ∷ b ∷ rest) =
    if nat_beq a b'1' && from_to b'0' b'2' b
    then some (10 + value b, rest)
    else if nat_beq a b'0' && from_to b'1' b'9' b
    then some (value b, rest)
    else if from_to b'1' b'9' a
    then some (value a, b ∷ rest)
    else none

-- `%d`: 3[0-1] or [1-2][0-9] or 0[1-9] or [1-9] or a space and [1-9]
abbrev pub take_day : List ℕ → Option (ℕ × List ℕ)
take_day [] = none
take_day (a ∷ []) = if from_to b'1' b'9' a then some (value a, []) else none
take_day (a ∷ b ∷ rest) =
    if nat_beq a b'3' && from_to b'0' b'1' b
    then some (30 + value b, rest)
    else if from_to b'1' b'2' a && is_digit b
    then some (value a * 10 + value b, rest)
    else if nat_beq a b'0' && from_to b'1' b'9' b
    then some (value b, rest)
    else if from_to b'1' b'9' a
    then some (value a, b ∷ rest)
    else if nat_beq a b' ' && from_to b'1' b'9' b
    then some (value b, rest)
    else none

abbrev pub expect : ℕ → List ℕ → Option (List ℕ)
expect c [] = none
expect c (a ∷ rest) = if nat_beq a c then some rest else none

abbrev pub is_leap : ℕ → Bool
is_leap y = nat_beq (y % 4) 0 && (nat_beq (y % 400) 0 || ltb 0 (y % 100))

abbrev pub days_in : ℕ → ℕ → ℕ
days_in y m =
    if nat_beq m 2
    then (if is_leap y then 29 else 28)
    else if nat_beq m 4 || nat_beq m 6 || nat_beq m 9 || nat_beq m 11
    then 30
    else 31

-- The whole text must have been read, and the date must exist.
abbrev pub finish : ℕ → ℕ → ℕ × List ℕ → Option Date
finish y m (d, []) =
    if ltb 0 y && leb d (days_in y m) then some (record { year = y; month = m; day = d }) else none
finish y m (d, c ∷ rest) = none

infixl 5 ◌>>=◌
abbrev pub ◌>>=◌ {ℓ κ} : {A : Type ℓ} {B : Type κ} → Option A → (A → Option B) → Option B
none >>= f = none
some a >>= f = f a

abbrev pub after_month : ℕ → ℕ × List ℕ → Option Date
after_month y (m, rest) = do r ← expect b'-' rest; found ← take_day r; finish y m found

abbrev pub after_year : ℕ × List ℕ → Option Date
after_year (y, rest) = do r ← expect b'-' rest; found ← take_month r; after_month y found

-- `datetime.strptime(s, "%Y-%m-%d")`, `none` for its ValueError
unfoldable pub strptime : String → Option Date
strptime s = take_year (codes s) >>= after_year

-- `(a.month, a.day) < (b.month, b.day)`
abbrev pub earlier_in_year : Date → Date → Bool
earlier_in_year a b = ltb a.month b.month || (nat_beq a.month b.month && ltb a.day b.day)
