-- ===== src/Text/RoundTrip.antt =====
-- Printing a number and reading it back.
use Prim.Native.Char.{code}
use nalang_project.Prelude.{
  ℕ, zero, suc, ◌+◌, ◌*◌, ◌/◌, ◌%◌, ◌<◌, String, ◌≡◌, refl, Bool, true, false, some, none, arith,
  ltb, Bool-cases, inl, inr, pos, ◌∙◌, ap,
}
use nalang_project.Text.{digit_char, digits, str, scan, signed, int}

pub code-digit_char : (d : ℕ) → d < 10 → code (digit_char d) ≡ d + 48
code-digit_char zero h = refl
code-digit_char (suc zero) h = refl
code-digit_char (suc (suc zero)) h = refl
code-digit_char (suc (suc (suc zero))) h = refl
code-digit_char (suc (suc (suc (suc zero)))) h = refl
code-digit_char (suc (suc (suc (suc (suc zero))))) h = refl
code-digit_char (suc (suc (suc (suc (suc (suc zero)))))) h = refl
code-digit_char (suc (suc (suc (suc (suc (suc (suc zero))))))) h = refl
code-digit_char (suc (suc (suc (suc (suc (suc (suc (suc zero)))))))) h = refl
code-digit_char (suc (suc (suc (suc (suc (suc (suc (suc (suc n))))))))) h = omega arith

scan-digit_char :
    (b : Bool) (n d : ℕ) (s : String)
    → d < 10
    → scan b n (String.◌∷◌ (digit_char d) s) ≡ scan true (n * 10 + d) s
unfolding scan
scan-digit_char b n d s h = ground (arith, code-digit_char d h)

scan-digits : (f n : ℕ) (s : String) → n < f → scan false 0 (digits f n s) ≡ scan true n s
unfolding digits
scan-digits zero n s h = elim h [ ]
scan-digits (suc f) n s h = elim (Bool-cases (ltb n 10)) [
  | inl e ↦
      rw e (scan-digit_char false 0 n s (ground arith) ∙ ap (λ k. scan true k s) (omega arith))
  | inr e ↦ rw e (
      scan-digits f (n / 10) (String.◌∷◌ (digit_char (n % 10)) s) (ground arith)
      ∙ scan-digit_char true (n / 10) (n % 10) s (omega arith)
      ∙ ap (λ k. scan true k s) (omega arith))
]

int-digit_char :
    (d : ℕ) (s : String)
    → d < 10
    → int (String.◌∷◌ (digit_char d) s) ≡ signed (scan false 0 (String.◌∷◌ (digit_char d) s)) none
unfolding int
int-digit_char d s h = ground (arith, code-digit_char d h)

int-digits :
    (f n : ℕ) (s : String) → n < f → int (digits f n s) ≡ signed (scan false 0 (digits f n s)) none
unfolding digits
int-digits zero n s h = elim h [ ]
int-digits (suc f) n s h = elim (Bool-cases (ltb n 10)) [
  | inl e ↦ rw e (int-digit_char n s (ground arith))
  | inr e ↦ rw e (int-digits f (n / 10) (String.◌∷◌ (digit_char (n % 10)) s) (ground arith))
]

scan-end : (n : ℕ) → scan true n "" ≡ some n
unfolding scan
scan-end n = refl

scan-str : (n : ℕ) → scan false 0 (digits (suc n) n "") ≡ some n
scan-str n = scan-digits (suc n) n "" (omega arith) ∙ scan-end n

-- Reading back a printed number gives the number.
pub int-str : (n : ℕ) → int (str n) ≡ some (pos n)
unfolding str signed
int-str n = int-digits (suc n) n "" (omega arith) ∙ rw (scan-str n)

-- Two numbers with the same text are the same number.
pub str-injective : (a b : ℕ) → str a ≡ str b → a ≡ b
str-injective a b h = ground (arith, int-str a, int-str b)
