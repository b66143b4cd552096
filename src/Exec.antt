-- ===== src/Exec.antt =====
-- Go functions that return an error, and the world that they act on. What was done before an
-- error stays done, so the state comes back beside the error too. `panic` is a Go panic.
pub mod Keeps
pub mod Succeeds
use mimir_operator.Base.{
  ◌≡◌, ◌⊎◌, inl, inr, refl, sym, ap, String, ◌<>◌, Bool, true, false, List, [], ◌∷◌,
}

-- An error value: one that the Kubernetes API marks as not found, any other, or one with a prefix
-- (`fmt.Errorf("…: %w")` and `errors.Wrap`).
pub data Error : Type 0 where
  not_found failure : String → Error
  wrapped : String → Error → Error

-- `err.Error()`
unfoldable pub message : Error → String
message (not_found m) = m
message (failure m) = m
message (wrapped m e) = m <> ": " <> message e

-- `errors.IsNotFound(err)`
unfoldable pub is_not_found : Error → Bool
is_not_found (not_found m) = true
is_not_found (failure m) = false
is_not_found (wrapped m e) = is_not_found e

pub data Outcome {ℓ} (A : Type ℓ) : Type ℓ where
  ok : A → Outcome A
  err : Error → Outcome A
  panic : Outcome A

pub Outcome-cases {ℓ} :
    {A : Type ℓ} (o : Outcome A)
    → ((a : A) × (o ≡ ok a)) ⊎ ((e : Error) × (o ≡ err e)) ⊎ (o ≡ panic)
Outcome-cases (ok a) = inl (a, refl)
Outcome-cases (err e) = inr (inl (e, refl))
Outcome-cases panic = inr (inr refl)

abbrev pub Exec {ℓ} : Type ℓ → Type ℓ → Type ℓ
Exec S A = S → Outcome A × S

module _ {ℓ} {S A : Type ℓ} where
  abbrev pub pure : A → Exec S A
  pure a s = (ok a, s)

  abbrev pub throw : Error → Exec S A
  throw e s = (err e, s)

  -- A computation that only returns a value or an error.
  abbrev pub lift : Outcome A → Exec S A
  lift r s = (r, s)

  abbrev pub with_prefix : String → Outcome A × S → Outcome A × S
  with_prefix prefix (ok a, s) = (ok a, s)
  with_prefix prefix (err e, s) = (err (wrapped prefix e), s)
  with_prefix prefix (panic, s) = (panic, s)

  -- `if err != nil { return fmt.Errorf("prefix: %w", err) }`
  abbrev pub wrap : String → Exec S A → Exec S A
  wrap prefix m s = with_prefix prefix (m s)

module _ {ℓ} {S A B : Type ℓ} where
  abbrev pub continue : Outcome A × S → (A → Exec S B) → Outcome B × S
  continue (ok a, s) f = f a s
  continue (err e, s) f = (err e, s)
  continue (panic, s) f = (panic, s)

  infixl 5 ◌>>=◌ ◌>>◌
  abbrev pub ◌>>=◌ : Exec S A → (A → Exec S B) → Exec S B
  ◌>>=◌ m f s = continue (m s) f

  abbrev pub ◌>>◌ : Exec S A → Exec S B → Exec S B
  ◌>>◌ m n s = continue (m s) (λ _. n)

-- `for _, x := range xs { if err := f(x); err != nil { return err } }`
unfoldable pub for_each {ℓ} : {S A : Type ℓ} → (A → Exec S (Unit {ℓ})) → List A → Exec S (Unit {ℓ})
for_each f [] = pure tt
for_each f (x ∷ xs) = do f x; for_each f xs

pub err_inj {ℓ} : {A : Type ℓ} {e f : Error} → ◌≡◌ {A = Outcome A} (err e) (err f) → e ≡ f
err_inj h = cc

pub ok_inj {ℓ} : {A : Type ℓ} {a b : A} → ok a ≡ ok b → a ≡ b
ok_inj h = cc

module _ {ℓ} {S A : Type ℓ} where
  -- A chain that returns a value went through each of its parts.
  pub continue-eq-ok :
      {B : Type ℓ} (p : Outcome A × S) (f : A → Exec S B) {b : B} {s' : S}
      → continue p f ≡ (ok b, s')
      → (a : A) × (s : S) × (p ≡ (ok a, s)) × (f a s ≡ (ok b, s'))
  continue-eq-ok (ok a, s) f h = (a, s, refl, h)
  continue-eq-ok (err e, s) f h = cc
  continue-eq-ok (panic, s) f h = cc

  -- An error of a chain is that of its first part, or of the rest.
  pub continue-eq-err :
      {B : Type ℓ} (p : Outcome A × S) (f : A → Exec S B) {e : Error} {s' : S}
      → continue p f ≡ (err e, s')
      → (p ≡ (err e, s')) ⊎ ((a : A) × (s : S) × (p ≡ (ok a, s)) × (f a s ≡ (err e, s')))
  continue-eq-err (ok a, s) f h = inr (a, s, refl, h)
  continue-eq-err (err e, s) f h = inl (let same = h in cc)
  continue-eq-err (panic, s) f h = absurd (cc)

  pub with_prefix-eq-err :
      (prefix : String) (p : Outcome A × S) {e : Error} {s : S}
      → with_prefix prefix p ≡ (err e, s)
      → (f : Error) × (p ≡ (err f, s)) × (e ≡ wrapped prefix f)
  with_prefix-eq-err prefix (ok a, s) h = absurd (cc)
  with_prefix-eq-err prefix (err f, s) h =
      (f, ap (λ q. (err f, q)) (ap (λ p. p.1) h), sym (err_inj (ap (λ p. p.0) h)))
  with_prefix-eq-err prefix (panic, s) h = absurd (cc)

  pub with_prefix-eq-ok :
      (prefix : String) (p : Outcome A × S) {a : A} {s : S}
      → with_prefix prefix p ≡ (ok a, s)
      → p ≡ (ok a, s)
  with_prefix-eq-ok prefix (ok a, s) h = h
  with_prefix-eq-ok prefix (err e, s) h = cc
  with_prefix-eq-ok prefix (panic, s) h = cc
