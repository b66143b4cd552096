-- ===== src/Exec/Keeps.antt =====
-- What a chain of calls leaves as it was, however it ends.
use mimir_operator.Base.{
  String, Bool, true, false, List, [], ◌∷◌, Option, none, some, if◌then◌else◌,
}
use mimir_operator.Exec.{Exec, Outcome, ok, err, continue, with_prefix, for_each}

-- A property of the state that holds before the call holds after it, whether it gives a value, an
-- error or a panic.
abbrev pub Keeps {ℓ} : {S A : Type ℓ} → (S → Type 0) → Exec S A → Type ℓ
Keeps {S = S} P m = (s : S) → P s → P ((m s).1)

module _ {ℓ} {S A : Type ℓ} (P : S → Type 0) where
  pub continue-Keeps :
      {B : Type ℓ} (p : Outcome A × S) (f : A → Exec S B)
      → P (p.1)
      → ((a : A) → Keeps P (f a))
      → P ((continue p f).1)
  continue-Keeps (ok a, s) f h k = k a s h
  continue-Keeps (err e, s) f h k = h
  continue-Keeps (Outcome.panic, s) f h k = h

  pub with_prefix-Keeps :
      (prefix : String) (p : Outcome A × S) → P (p.1) → P ((with_prefix prefix p).1)
  with_prefix-Keeps prefix (ok a, s) h = h
  with_prefix-Keeps prefix (err e, s) h = h
  with_prefix-Keeps prefix (Outcome.panic, s) h = h

  pub if-Keeps :
      (b : Bool) (m n : Exec S A) (s : S)
      → P ((m s).1)
      → P ((n s).1)
      → P (((if b then m else n) s).1)
  if-Keeps true m n s h k = h
  if-Keeps false m n s h k = k

  pub option-Keeps :
      {B : Type 0} (o : Option B) (m : Exec S A) (f : B → Exec S A) (s : S)
      → P ((m s).1)
      → ((b : B) → P ((f b s).1))
      → P (((elim o as (λ _. Exec S A) [ none ↦ m | some b ↦ f b ]) s).1)
  option-Keeps none m f s h k = h
  option-Keeps (some b) m f s h k = k b

pub for_each-Keeps {ℓ} :
    {S A : Type ℓ} (P : S → Type 0) (f : A → Exec S (Unit {ℓ})) (xs : List A)
    → ((a : A) → Keeps P (f a))
    → Keeps P (for_each f xs)
unfolding for_each
for_each-Keeps P f [] h s p = p
for_each-Keeps P f (x ∷ xs) h s p =
    continue-Keeps P (f x s) (λ _. for_each f xs) (h x s p) (λ _. for_each-Keeps P f xs h)
