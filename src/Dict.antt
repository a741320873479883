-- ===== src/Dict.antt =====
-- Python's `dict`: an association list in insertion order, which is the order of iteration.
use nalang_project.Prelude.{
  All, ◌≡◌, refl, Bool, true, false, Option, none, some, List, [], ◌∷◌, arith, HasEq, ◌==◌,
  if◌then◌else◌,
}

abbrev pub Dict {ℓ κ} : Type ℓ → Type κ → Type (ℓ ⊔ κ)
Dict K V = List (K × V)

abbrev pub is_some {ℓ} : {A : Type ℓ} → Option A → Bool
is_some none = false
is_some (some _) = true

module _ {ℓ κ} {K : Type ℓ} {V : Type κ} ⦃e : HasEq K⦄ where
  -- `d.get(k)`
  abbrev pub lookup : K → Dict K V → Option V
  lookup k [] = none
  lookup k ((j, v) ∷ d) = if j == k then some v else lookup k d

  -- `k in d`
  abbrev pub contains : K → Dict K V → Bool
  contains k d = is_some (lookup k d)

  -- `d[k] = v`: an existing key keeps its place
  abbrev pub insert : K → V → Dict K V → Dict K V
  insert k v [] = (k, v) ∷ []
  insert k v ((j, w) ∷ d) = if j == k then (j, v) ∷ d else (j, w) ∷ insert k v d

  -- `d.pop(k, None)`
  abbrev pub erase : K → Dict K V → Dict K V
  erase k [] = []
  erase k ((j, w) ∷ d) = let rest = erase k d in if j == k then rest else (j, w) ∷ rest

  pub lookup-insert :
      (k j : K) (v : V) (d : Dict K V)
      → lookup j (insert k v d) ≡ (if k == j then some v else lookup j d)
  lookup-insert k j v [] = refl
  lookup-insert k j v ((i, w) ∷ d) =
      ground (arith, e.test_iff k j, e.test_iff i k, e.test_iff i j, lookup-insert k j v d)

  pub lookup-erase :
      (k j : K) (d : Dict K V) → lookup j (erase k d) ≡ (if k == j then none else lookup j d)
  lookup-erase k j [] = ground arith
  lookup-erase k j ((i, w) ∷ d) =
      ground (arith, e.test_iff k j, e.test_iff i k, e.test_iff i j, lookup-erase k j d)

  pub erase-absent : (k : K) (d : Dict K V) → lookup k d ≡ none → erase k d ≡ d
  erase-absent k [] h = refl
  erase-absent k ((i, w) ∷ d) h = ground (arith, erase-absent k d)

pub ruleset dict_laws = (lookup-insert, lookup-erase)

-- No key stands twice, as in every Python dict.
abbrev pub HasDistinctKeys {ℓ κ} : {K : Type ℓ} {V : Type κ} ⦃e : HasEq K⦄ → Dict K V → Type κ
HasDistinctKeys [] = Unit
HasDistinctKeys ((k, v) ∷ d) = (lookup k d ≡ none) × HasDistinctKeys d

module _ {ℓ κ} {K : Type ℓ} {V : Type κ} ⦃e : HasEq K⦄ where
  pub insert-HasDistinctKeys :
      (k : K) (v : V) (d : Dict K V) → HasDistinctKeys d → HasDistinctKeys (insert k v d)
  insert-HasDistinctKeys k v [] h = (refl, tt)
  insert-HasDistinctKeys k v ((j, w) ∷ d) h = ground (
    arith,
    insert-HasDistinctKeys k v d h.1,
    lookup-insert k j v d,
    e.test_iff k j,
    e.test_iff j k,
  )

  pub erase-HasDistinctKeys :
      (k : K) (d : Dict K V) → HasDistinctKeys d → HasDistinctKeys (erase k d)
  erase-HasDistinctKeys k [] h = tt
  erase-HasDistinctKeys k ((j, w) ∷ d) h =
      ground (arith, erase-HasDistinctKeys k d h.1, lookup-erase k j d)

module _ {ℓ κ μ} {K : Type ℓ} {V : Type κ} ⦃e : HasEq K⦄ (P : V → Type μ) where
  pub All-insert :
      (k : K) (v : V) (d : Dict K V) → P v → All (λ x. P x.1) d → All (λ x. P x.1) (insert k v d)
  All-insert k v [] p h = (p, tt)
  All-insert k v ((j, w) ∷ d) p h = ground (arith, All-insert k v d p h.1)

  pub All-erase : (k : K) (d : Dict K V) → All (λ x. P x.1) d → All (λ x. P x.1) (erase k d)
  All-erase k [] h = tt
  All-erase k ((j, w) ∷ d) h = ground (arith, All-erase k d h.1)

  pub All-lookup : (k : K) (v : V) (d : Dict K V) → All (λ x. P x.1) d → lookup k d ≡ some v → P v
  All-lookup k v [] h p = cc
  All-lookup k v ((j, w) ∷ d) h p = ground (arith, All-lookup k v d h.1)
