-- ===== src/Tables/Ordering.antt =====
-- `order_by(id)`: with different numbers, the answer does not depend on the order of the rows.
use nalang_project.Prelude.{◌≡◌, ◌≢◌, refl, sym, ◌∙◌, subst, List, [], ◌∷◌, All, arith}
use mathlib.Core.List.{Permᴰ}
use nalang_project.Profile.View.{SetUpOption, put_option, order_by_id}

put_option-put_option :
    (x y : SetUpOption) (l : List SetUpOption)
    → x.id ≢ y.id
    → put_option x (put_option y l) ≡ put_option y (put_option x l)
unfolding put_option
put_option-put_option x y [] ne = ground arith
put_option-put_option x y (z ∷ l) ne = ground (arith, put_option-put_option x y l ne)

-- No number stands twice.
abbrev pub HaveDistinctIds : List SetUpOption → Type 0
HaveDistinctIds [] = Unit
HaveDistinctIds (o ∷ os) = All (λ p. o.id ≢ p.id) os × HaveDistinctIds os

All-Permᴰ :
    (P : SetUpOption → Type 0) (xs ys : List SetUpOption) → Permᴰ xs ys → All P xs → All P ys
All-Permᴰ P _ _ Permᴰ.nil h = tt
All-Permᴰ P _ _ (Permᴰ.cons e p) h = (subst P e h.0, All-Permᴰ P _ _ p h.1)
All-Permᴰ P _ _ (Permᴰ.swap e f) h = (subst P f h.1.0, (subst P e h.0, h.1.1))
All-Permᴰ P _ _ (Permᴰ.trans p q) h = All-Permᴰ P _ _ q (All-Permᴰ P _ _ p h)

Permᴰ-HaveDistinctIds :
    (xs ys : List SetUpOption) → Permᴰ xs ys → HaveDistinctIds xs → HaveDistinctIds ys
Permᴰ-HaveDistinctIds _ _ Permᴰ.nil h = tt
Permᴰ-HaveDistinctIds _ _ (Permᴰ.cons {a} {b} {l₁ = xs} {l₂ = ys} e p) h = (
  subst (λ o. All (λ q. o.id ≢ q.id) ys) e (All-Permᴰ (λ q. a.id ≢ q.id) xs ys p h.0),
  Permᴰ-HaveDistinctIds xs ys p h.1,
)
Permᴰ-HaveDistinctIds _ _ (Permᴰ.swap {a} {b} {a'} {b'} {l} e f) h =
    subst (λ o. All (λ q. o.id ≢ q.id) (b' ∷ l) × HaveDistinctIds (b' ∷ l)) f
      (subst (λ o. All (λ q. b.id ≢ q.id) (o ∷ l) × HaveDistinctIds (o ∷ l)) e
        (((λ same. h.0.0 (sym same)), h.1.0), (h.0.1, h.1.1)))
Permᴰ-HaveDistinctIds _ _ (Permᴰ.trans p q) h =
    Permᴰ-HaveDistinctIds _ _ q (Permᴰ-HaveDistinctIds _ _ p h)

-- Ordered by numbers that differ, the same rows give the same list, whatever their order was.
pub order_by_id-Permᴰ :
    (xs ys : List SetUpOption) → Permᴰ xs ys → HaveDistinctIds xs → order_by_id xs ≡ order_by_id ys
unfolding order_by_id
order_by_id-Permᴰ _ _ Permᴰ.nil h = refl
order_by_id-Permᴰ _ _ (Permᴰ.cons {a} {b} {l₁ = xs} {l₂ = ys} e p) h =
    rw (e, order_by_id-Permᴰ xs ys p h.1) refl
order_by_id-Permᴰ _ _ (Permᴰ.swap {a} {b} {a'} {b'} {l} e f) h =
    rw (e, f) (put_option-put_option b' a' (order_by_id l) (rw (← e, ← f) h.0.0))
order_by_id-Permᴰ _ _ (Permᴰ.trans {l₁ = xs} {l₂ = ys} {l₃ = zs} p q) h =
    order_by_id-Permᴰ xs ys p h ∙ order_by_id-Permᴰ ys zs q (Permᴰ-HaveDistinctIds xs ys p h)
