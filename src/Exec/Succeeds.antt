-- ===== src/Exec/Succeeds.antt =====
-- Calls that return a value in every world.
use mimir_operator.Base.{◌≡◌, refl, ap, ◌∙◌, List, [], ◌∷◌, All}
use mimir_operator.Exec.{Exec, ok, continue, for_each, ◌>>=◌}

abbrev pub Succeeds : {S A : Type 0} → Exec S A → Type 0
Succeeds {S = S} {A = A} m = (s : S) → (a : A) × (s' : S) × (m s ≡ (ok a, s'))

-- A call that returns a value from one state on.
abbrev pub Returns : {S A : Type 0} → Exec S A → S → Type 0
Returns {S = S} {A = A} m s = (a : A) × (s' : S) × (m s ≡ (ok a, s'))

module _ {S A B : Type 0} where
  pub Returns-bind :
      (m : Exec S A) (f : A → Exec S B) {s s' : S} {a : A}
      → m s ≡ (ok a, s')
      → Returns (f a) s'
      → Returns (m >>= f) s
  Returns-bind m f e (b, s'', e') = (b, s'', ap (λ p. continue p f) e ∙ e')

  pub Succeeds-bind :
      (m : Exec S A) (f : A → Exec S B)
      → Succeeds m
      → ((a : A) → Succeeds (f a))
      → Succeeds (m >>= f)
  Succeeds-bind m f first rest s = let (a, s', e) = first s in Returns-bind m f e (rest a s')

pub for_each-Succeeds :
    {S A : Type 0} (f : A → Exec S (Unit {0})) (xs : List A)
    → All (λ a. Succeeds (f a)) xs
    → Succeeds (for_each f xs)
unfolding for_each
for_each-Succeeds f [] each = λ s. (tt, s, refl)
for_each-Succeeds f (x ∷ xs) (first, each) =
    Succeeds-bind (f x) _ first (λ _. for_each-Succeeds f xs each)
