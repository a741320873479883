-- ===== src/Calendar/Unparsed.antt =====
-- What `strptime` with "%Y-%m-%d" makes of a printed `datetime`, behind whose date the time stands.
use Prim.Native.Char.{code}
use nalang_project.Prelude.{ℕ, ◌/◌, ◌%◌, ◌≤◌, ◌≡◌, List, ◌∷◌, none, arith}
use nalang_project.Text.{codes, digit_char}
use nalang_project.Text.RoundTrip.{code-digit_char}
use nalang_project.Calendar.{
  DateTime, put_time, str_datetime, strptime, take_year, after_month, after_year, ◌>>=◌,
}

abbrev IsDigit : ℕ → Type 0
IsDigit c = (48 ≤ c) × (c ≤ 57)

-- A day of two characters with a space behind it leaves something unread.
after_month-none :
    (y m a b : ℕ) (rest : List ℕ) → after_month y (m, b'-' ∷ a ∷ b ∷ b' ' ∷ rest) ≡ none
after_month-none y m a b rest = ground arith

after_year-none :
    (y a b c d : ℕ) (rest : List ℕ)
    → IsDigit b
    → after_year (y, b'-' ∷ a ∷ b ∷ b'-' ∷ c ∷ d ∷ b' ' ∷ rest) ≡ none
after_year-none y a b c d rest h = ground arith

take_year-none :
    (k l m n a b c d : ℕ) (rest : List ℕ)
    → IsDigit b
    → (take_year (k ∷ l ∷ m ∷ n ∷ b'-' ∷ a ∷ b ∷ b'-' ∷ c ∷ d ∷ b' ' ∷ rest) >>= after_year) ≡ none
take_year-none k l m n a b c d rest h = ground (arith, after_year-none 0 a b c d rest h)

abbrev last_digit : ℕ → ℕ
last_digit n = code (digit_char (n % 10))

last_digit-IsDigit : (n : ℕ) → IsDigit (last_digit n)
last_digit-IsDigit n = omega (arith, code-digit_char (n % 10) (omega arith))

-- `strptime(str(t), "%Y-%m-%d")` raises for every `t`.
pub strptime-str_datetime : (t : DateTime) → strptime (str_datetime t) ≡ none
unfolding strptime str_datetime
strptime-str_datetime t =
    take_year-none (last_digit (t.date.year / 100 / 10)) (last_digit (t.date.year / 100))
      (last_digit (t.date.year / 10)) (last_digit t.date.year) (last_digit (t.date.month / 10))
      (last_digit t.date.month) (last_digit (t.date.day / 10)) (last_digit t.date.day)
      (codes (put_time t)) (last_digit-IsDigit t.date.month)
