-- ===== src/Tests/RulerListing.antt =====
-- What a ruler with two namespaces lists is what it holds.
use mimir_operator.Base.{
  ◌≡◌, ◌≢◌, ◌↔◌, inl, inr, refl, sym, ◌∙◌, String, ◌==◌, string_eq, Bool, true, false, List, [],
  ◌∷◌, none, some, if◌then◌else◌, Bool-cases,
}
use mimir_operator.Base.Dict.{lookup}
use mimir_operator.Ruler.{RuleGroup}
use mimir_operator.Server.{In, Lists}
use mimir_operator.Tests.TwoNamespaces.{Flags, up, held, listing, Holds}

some_same : {A : Type 0} {a b : A} → some a ≡ some b → a ≡ b
some_same h = cc

only : (gs : List RuleGroup) (x : RuleGroup) → gs ≡ up ∷ [] → In x gs → x ≡ up
only gs x e i = let i' : In x (up ∷ []) = rw e at i in elim i' [ inl h ↦ h | inr b ↦ absurd b ]

pub ne_false : (a b : String) → a ≢ b → (a == b) ≡ false
ne_false a b ne = elim (Bool-cases (a == b)) [
  | inl e ↦ absurd (ne ((string_eq.same_iff a b).0 e))
  | inr e ↦ e
]

at_old :
    (old new : Bool)
    → lookup "old" (listing (old, new)) ≡ (if held (old, new) "old" then some (up ∷ []) else none)
unfolding held listing lookup
at_old true true = refl
at_old true false = refl
at_old false true = refl
at_old false false = refl

at_new :
    (old new : Bool)
    → lookup "tempo_alerts" (listing (old, new))
      ≡ (if held (old, new) "tempo_alerts" then some (up ∷ []) else none)
unfolding held listing lookup
at_new true true = refl
at_new true false = refl
at_new false true = refl
at_new false false = refl

at_other :
    (old new : Bool) (namespace : String)
    → ("old" == namespace) ≡ false
    → ("tempo_alerts" == namespace) ≡ false
    → lookup namespace (listing (old, new)) ≡ none
unfolding listing lookup
at_other true true namespace e f = rw (e, f) refl
at_other true false namespace e f = rw e refl
at_other false true namespace e f = rw f refl
at_other false false namespace e f = refl

-- The two namespaces are looked up in what is listed.
lookup-listing :
    (w : Flags) (namespace : String)
    → lookup namespace (listing w) ≡ (if held w namespace then some (up ∷ []) else none)
unfolding held listing lookup
lookup-listing (old, new) namespace = elim (Bool-cases (namespace == "old")) [
  | inl e ↦ let same = (string_eq.same_iff namespace "old").0 e in rw same (at_old old new)
  | inr e ↦ elim (Bool-cases (namespace == "tempo_alerts")) [
    | inl f ↦
        let same = (string_eq.same_iff namespace "tempo_alerts").0 f in rw same (at_new old new)
    | inr f ↦
        let e' =
          ne_false "old" namespace
            (λ s. let t = (string_eq.same_iff namespace "old").1 (sym s) in absurd (cc)) in
        let f' =
          ne_false "tempo_alerts" namespace
            (λ s. let t = (string_eq.same_iff namespace "tempo_alerts").1 (sym s) in absurd (cc)) in
        at_other old new namespace e' f' ∙ rw (e, f) refl
  ]
]

pub listed_Holds :
    (w : Flags) (namespace : String) (x : RuleGroup)
    → Holds w namespace x ↔ Lists (listing w) namespace x
listed_Holds w namespace x = elim (Bool-cases (held w namespace)) [
  | inl h ↦
      let found : lookup namespace (listing w) ≡ some (up ∷ []) =
        rw h at (lookup-listing w namespace) in
      (
        λ (_, e). (up ∷ [], found, inl e),
        λ (gs, known, i). (h, only gs x (some_same (sym known ∙ found)) i),
      )
  | inr h ↦
      let found : lookup namespace (listing w) ≡ none = rw h at (lookup-listing w namespace) in
      (λ (t, e). absurd (cc), λ (gs, known, i). absurd (cc))
]
