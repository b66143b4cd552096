-- ===== src/Overrides/Slices.antt =====
-- Slices by their position: the entries before an index, the entry at it, and those behind it.
use mathlib.Core.List.{append_assoc}
use mimir_operator.Base.{
  ℕ, zero, suc, ◌≡◌, ◌⊎◌, inl, inr, refl, sym, ap, arith, List, [], ◌∷◌, ◌++◌, some, length,
  get_elem?, set,
}

module _ {ℓ} {A : Type ℓ} where
  pub get_elem?-append :
      (front : List A) (x : A) (rest : List A) (r : ℕ)
      → r ≡ length front
      → get_elem? (front ++ (x ∷ rest)) r ≡ some x
  get_elem?-append [] x rest zero e = refl
  get_elem?-append [] x rest (suc r) e = absurd (omega arith)
  get_elem?-append (y ∷ front) x rest zero e = absurd (omega arith)
  get_elem?-append (y ∷ front) x rest (suc r) e = get_elem?-append front x rest r (omega arith)

  pub set-append :
      (front : List A) (x v : A) (rest : List A) (r : ℕ)
      → r ≡ length front
      → set (front ++ (x ∷ rest)) r v ≡ front ++ (v ∷ rest)
  set-append [] x v rest zero e = refl
  set-append [] x v rest (suc r) e = absurd (omega arith)
  set-append (y ∷ front) x v rest zero e = absurd (omega arith)
  set-append (y ∷ front) x v rest (suc r) e = ap (◌∷◌ y) (set-append front x v rest r (omega arith))

  pub append_shift :
      (front : List A) (x : A) (rest : List A) → front ++ (x ∷ rest) ≡ (front ++ (x ∷ [])) ++ rest
  append_shift front x rest = sym (append_assoc front (x ∷ []) rest)

  -- A list is empty, or it has a last entry.
  pub last-cases : (xs : List A) → (xs ≡ []) ⊎ ((ys : List A) × (y : A) × (xs ≡ ys ++ (y ∷ [])))
  last-cases [] = inl refl
  last-cases (x ∷ xs) = elim (last-cases xs) [
    | inl e ↦ inr ([], x, ap (◌∷◌ x) e)
    | inr (ys, y, e) ↦ inr (x ∷ ys, y, ap (◌∷◌ x) e)
  ]
