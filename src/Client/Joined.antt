-- ===== src/Client/Joined.antt =====
-- `strings.TrimSuffix(base, "/") + target`, by what it is to be.
use Prim.Native.Char.{code}
use text.Mathlib.TextLemmas
use text.Mathlib.TextEquality.{Char-path}
use mimir_operator.Base.{
  ◌≡◌, ◌≢◌, ◌⊎◌, inl, inr, refl, sym, ap, ◌∙◌, String, ◌<>◌, string_eq, nat_eq, ◌==◌, Bool-cases,
}
use mimir_operator.Client.{trim_slash, join_path}

-- The result is the target behind the base, less one slash at its end where it has one.
abbrev pub Joined : String → String → String → Type 0
Joined base target result =
    ((stem : String) × (base ≡ stem <> "/") × (result ≡ stem <> target))
    ⊎ (((stem : String) → base ≢ stem <> "/") × (result ≡ base <> target))

trim_slash-stem : (stem : String) → trim_slash (stem <> "/") ≡ stem
unfolding trim_slash
trim_slash-stem String.[] = ap trim_slash (TextLemmas.nil-append "/") ∙ refl
trim_slash-stem (String.◌∷◌ c String.[]) =
    ap trim_slash (TextLemmas.cons-append c "" "/" ∙ ap (String.◌∷◌ c) (TextLemmas.nil-append "/"))
    ∙ refl
trim_slash-stem (String.◌∷◌ c (String.◌∷◌ d s)) =
    let tail = TextLemmas.cons-append d s "/" in
    ap trim_slash (TextLemmas.cons-append c (String.◌∷◌ d s) "/" ∙ ap (String.◌∷◌ c) tail)
    ∙ ap (String.◌∷◌ c) (ap trim_slash (sym tail) ∙ trim_slash-stem (String.◌∷◌ d s))

trim_slash-cases : (base : String) → (trim_slash base ≡ base) ⊎ (base ≡ trim_slash base <> "/")
unfolding trim_slash
trim_slash-cases String.[] = inl refl
trim_slash-cases (String.◌∷◌ c String.[]) = elim (Bool-cases (code c == b'/')) [
  | inl e ↦
      let slash = Char-path c "/" ((nat_eq.same_iff (code c) b'/').0 e) in
      inr (rw e (ap (λ c. String.◌∷◌ c "") slash ∙ sym (TextLemmas.nil-append "/")))
  | inr e ↦ inl (rw e refl)
]
trim_slash-cases (String.◌∷◌ c (String.◌∷◌ d s)) = elim (trim_slash-cases (String.◌∷◌ d s)) [
  | inl e ↦ inl (ap (String.◌∷◌ c) e)
  | inr e ↦ inr (ap (String.◌∷◌ c) e ∙ sym (TextLemmas.cons-append c _ "/"))
]

pub join_path-Joined : (base target : String) → Joined base target (join_path base target)
unfolding join_path
join_path-Joined base target = elim (Bool-cases (base == trim_slash base <> "/")) [
  | inl e ↦ inl (trim_slash base, (string_eq.same_iff base (trim_slash base <> "/")).0 e, refl)
  | inr e ↦
      let ne : (stem : String) → base ≢ stem <> "/" = λ stem same.
        let trimmed : trim_slash base ≡ stem = ap trim_slash same ∙ trim_slash-stem stem in
        let t =
          (string_eq.same_iff base (trim_slash base <> "/")).1
            (same ∙ ap (λ s. s <> "/") (sym trimmed)) in
        absurd (cc) in
      inr (
        ne,
        elim (trim_slash-cases base) [
          | inl kept ↦ ap (λ s. s <> target) kept
          | inr cut ↦ absurd (ne (trim_slash base) cut)
        ],
      )
]

pub Joined-join_path :
    (base target result : String) → Joined base target result → result ≡ join_path base target
unfolding join_path
Joined-join_path base target result (inl (stem, same, joined)) =
    joined ∙ ap (λ s. s <> target) (sym (ap trim_slash same ∙ trim_slash-stem stem))
Joined-join_path base target result (inr (ne, joined)) = elim (trim_slash-cases base) [
  | inl kept ↦ joined ∙ ap (λ s. s <> target) (sym kept)
  | inr cut ↦ absurd (ne (trim_slash base) cut)
]
