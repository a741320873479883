-- ===== src/Text/Keys.antt =====
-- When formatted keys are equal.
use nalang_project.Prelude.{ℕ, String, ◌≡◌, ap, Bool, true, ◌==◌, ==_iff, nat_eq, string_eq, arith}
use nalang_project.Text.{◌+s◌, str}
use nalang_project.Text.RoundTrip.{str-injective}

tail : String → String
tail String.[] = String.[]
tail (String.◌∷◌ c s) = s

pub +s-injective : (p s t : String) → p +s s ≡ p +s t → s ≡ t
unfolding tail
+s-injective String.[] s t h = h
+s-injective (String.◌∷◌ c p) s t h = +s-injective p s t (ap tail h)

same_bool : (a b : Bool) → (a ≡ true → b ≡ true) → (b ≡ true → a ≡ true) → a ≡ b
same_bool a b f g = ground arith

-- The texts of two numbers are compared as the numbers are.
pub ==-str : (a b : ℕ) → (str a == str b) ≡ (a == b)
==-str a b =
    same_bool (str a == str b) (a == b)
      (λ h. (==_iff a b).1 (str-injective a b ((==_iff (str a) (str b)).0 h)))
      (λ h. (==_iff (str a) (str b)).1 (ap str ((==_iff a b).0 h)))

-- A key made of a prefix and a number tells the numbers apart.
pub ==-prefix : (p : String) (a b : ℕ) → ((p +s str a) == (p +s str b)) ≡ (a == b)
==-prefix p a b =
    same_bool ((p +s str a) == (p +s str b)) (a == b)
      (λ h. (==_iff a b).1 (
        str-injective a b
          (+s-injective p (str a) (str b) ((==_iff (p +s str a) (p +s str b)).0 h))))
      (λ h. (==_iff (p +s str a) (p +s str b)).1 (ap (λ n. p +s str n) ((==_iff a b).0 h)))
