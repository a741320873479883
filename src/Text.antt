-- ===== src/Text.antt =====
-- The Python built-ins on texts that the server uses: `str(n)`, `int(s)`, f-string concatenation,
-- `split`, `strip` and `lower`. Only ASCII white space, digits and letters are told apart.
pub mod RoundTrip
pub mod Keys
use Prim.Native.Char.{Char, code}
use Prim.Native.String
use nalang_project.Prelude.{
  ℕ, zero, suc, ◌+◌, ◌-◌, ◌*◌, ◌/◌, ◌%◌, String, Bool, true, false, ◌&&◌, ◌||◌, Option, none, some,
  List, [], ◌∷◌, ltb, leb, nat_beq, if◌then◌else◌, ℤ, pos, sub_ℕ,
}

-- `s + t`, and the pieces of an f-string.
infixr 66 ◌+s◌
abbrev pub ◌+s◌ : String → String → String
String.[] +s t = t
(String.◌∷◌ c s) +s t = String.◌∷◌ c (s +s t)

abbrev pub digit_char : ℕ → Char
digit_char zero = "0"
digit_char (suc zero) = "1"
digit_char (suc (suc zero)) = "2"
digit_char (suc (suc (suc zero))) = "3"
digit_char (suc (suc (suc (suc zero)))) = "4"
digit_char (suc (suc (suc (suc (suc zero))))) = "5"
digit_char (suc (suc (suc (suc (suc (suc zero)))))) = "6"
digit_char (suc (suc (suc (suc (suc (suc (suc zero))))))) = "7"
digit_char (suc (suc (suc (suc (suc (suc (suc (suc zero)))))))) = "8"
digit_char (suc (suc (suc (suc (suc (suc (suc (suc (suc n))))))))) = "9"

-- The digits of `n` before `rest`; `fuel` above `n` is enough.
pub digits : ℕ → ℕ → String → String
digits zero n rest = rest
digits (suc fuel) n rest =
    let more = digits fuel (n / 10) (String.◌∷◌ (digit_char (n % 10)) rest) in
    if ltb n 10 then String.◌∷◌ (digit_char n) rest else more

-- `str(n)` of a number that is not negative
unfoldable pub str : ℕ → String
unfolding digits
str n = digits (suc n) n ""

abbrev pub is_digit : ℕ → Bool
is_digit c = leb b'0' c && leb c b'9'

abbrev pub is_space : ℕ → Bool
is_space c = nat_beq c 32 || (leb 9 c && leb c 13) || (leb 28 c && leb c 31)

pub only_space : String → Bool
only_space String.[] = true
only_space (String.◌∷◌ c s) = is_space (code c) && only_space s

-- The digits of `int(s)`: `started` after a digit, where an underscore or the end may follow.
pub scan : Bool → ℕ → String → Option ℕ
unfolding only_space
scan started n String.[] = if started then some n else none
scan started n (String.◌∷◌ c s) =
    let k = code c in
    let digit = scan true (n * 10 + (k - b'0')) s in
    let underscore = scan false n s in
    if is_digit k
    then digit
    else if started && nat_beq k b'_'
    then underscore
    else if started && is_space k && only_space s
    then some n
    else none

pub signed : Option ℕ → Option ℕ → Option ℤ
signed none none = none
signed none (some n) = some (sub_ℕ 0 n)
signed (some n) _ = some (pos n)

-- `int(s)`, `none` for its ValueError
unfoldable pub int : String → Option ℤ
unfolding scan signed
int String.[] = none
int (String.◌∷◌ c s) =
    let k = code c in
    let rest = int s in
    if is_space k
    then rest
    else if nat_beq k b'-'
    then signed none (scan false 0 s)
    else if nat_beq k b'+'
    then signed (scan false 0 s) none
    else signed (scan false 0 (String.◌∷◌ c s)) none

-- The code points of a text.
abbrev pub codes : String → List ℕ
codes String.[] = []
codes (String.◌∷◌ c s) = code c ∷ codes s
