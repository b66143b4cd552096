-- ===== src/Sync/Loops.antt =====
-- What the loops of a synchronisation leave in the ruler and in the status.
use mimir_operator.Base.{
  ◌≡◌, ◌≢◌, ◌↔◌, inl, inr, refl, sym, ap, String, string_eq, ◌==◌, List, [], ◌∷◌, Option, none,
  some, Bool-cases, Option-cases,
}
use mimir_operator.Base.Dict.{Dict, lookup, keys}
use mimir_operator.Exec.{Exec, Outcome, continue, ok, err, for_each, continue-eq-ok}
use mimir_operator.Client.{MimirClient}
use mimir_operator.Domain.{MimirRules}
use mimir_operator.Ruler.{RuleGroup, create_rule_group_str, delete_namespace}
use mimir_operator.Cluster.{Cluster}
use mimir_operator.Server.{AfterPuts, Server}
use mimir_operator.Server.Listing.{Among, lookup→Among}
use mimir_operator.Sync.Keys.{Distinct}
use mimir_operator.Server.Calls.{
  groups_in, AfterPuts-iff, iff_refl, iff_trans, delete_namespace-Holds,
  create_rule_group_str-Holds,
}
use mimir_operator.Sync.{create_loop}

-- A namespace for which a text was sent, or none.
abbrev pub AfterText : Cluster → Option String → (RuleGroup → Type 0) → RuleGroup → Type 0
AfterText C none P x = P x
AfterText C (some text) P x = AfterPuts (groups_in C text) P x

pub AfterText-iff :
    (C : Cluster) (text : Option String) {P Q : RuleGroup → Type 0}
    → ((x : RuleGroup) → P x ↔ Q x)
    → (x : RuleGroup) → AfterText C text P x ↔ AfterText C text Q x
AfterText-iff C none h x = h x
AfterText-iff C (some text) h x = AfterPuts-iff (groups_in C text) h x

pub not-Among :
    (name : String) (entries : Dict String)
    → ¬ Among name (keys entries)
    → lookup name entries ≡ none
not-Among name entries out = elim (Option-cases (lookup name entries)) [
  | inl e ↦ e
  | inr (text, e) ↦ absurd (out (lookup→Among name entries e))
]

-- A call on the world alone, inside a function that also keeps the object.
pub on_world-eq-ok :
    {W : Type 0} {A B : Type 0} (mr : MimirRules) (p : Outcome A × W)
    (f : A → Exec (MimirRules × W) B) {b : B} {s' : MimirRules × W}
    → continue (p.0, (mr, p.1)) f ≡ (ok b, s')
    → (a : A) × (w : W) × (p ≡ (ok a, w)) × (f a (mr, w) ≡ (ok b, s'))
on_world-eq-ok mr (ok a, w) f h = (a, w, refl, h)
on_world-eq-ok mr (err e, w) f h = cc
on_world-eq-ok mr (Outcome.panic, w) f h = cc

pub keep-eq-ok :
    {W A : Type 0} (mr : MimirRules) (p : Outcome A × W) {a : A} {mr' : MimirRules} {w' : W}
    → ◌≡◌ {A = Outcome A × (MimirRules × W)} (p.0, (mr, p.1)) (ok a, (mr', w'))
    → (p ≡ (ok a, w')) × (mr ≡ mr')
keep-eq-ok mr p h = (ap (λ q. (q.0, q.1.1)) h, ap (λ q. q.1.0) h)

module _ (C : Cluster) (r : MimirClient) (S : Server C r) where
  open C use {World, send, net, yaml}
  open S use {Holds}

  -- What follows the deletion of the namespaces of a list.
  pub delete_loop-Holds :
      (namespaces : List String) (w w' : World)
      → for_each (delete_namespace net yaml send r) namespaces w ≡ (ok tt, w')
      → (other : String) (x : RuleGroup)
      → Holds w' other x ↔ (¬ Among other namespaces × Holds w other x)
  unfolding for_each
  delete_loop-Holds [] w w' h other x =
      let same : w ≡ w' = ap (λ p. p.1) h in rw same (λ held. (λ a. a, held), λ p. p.1)
  delete_loop-Holds (namespace ∷ namespaces) w w' h other x =
      let (_, w₁, first, h₁) =
        continue-eq-ok (delete_namespace net yaml send r namespace w)
          (λ _. for_each (delete_namespace net yaml send r) namespaces) h in
      let (gone, elsewhere) = delete_namespace-Holds C r S namespace w w₁ first in
      let rest = delete_loop-Holds namespaces w₁ w' h₁ other x in
      (
        λ held.
            let (out, before) = rest.0 held in
            elim (Bool-cases (namespace == other)) [
              | inl e ↦
                  let same = (string_eq.same_iff namespace other).0 e in
                  absurd (gone x (rw (← same) at before))
              | inr e ↦
                  let ne : other ≢ namespace = λ same.
                    let t = (string_eq.same_iff namespace other).1 (sym same) in absurd (cc) in
                  (
                    λ a. elim a [ inl same ↦ ne (sym same) | inr b ↦ out b ],
                    (elsewhere other x ne).0 before,
                  )
            ],
        λ (out, held).
            rest.1 (λ a. out (inr a), (elsewhere other x (λ same. out (inl (sym same)))).1 held),
      )

  pub create_loop-Holds :
      (entries : Dict String) (mr mr' : MimirRules) (w w' : World)
      → Distinct (keys entries)
      → create_loop C r entries (mr, w) ≡ (ok tt, (mr', w'))
      → (other : String) (x : RuleGroup)
      → Holds w' other x ↔ AfterText C (lookup other entries) (Holds w other) x
  unfolding create_loop lookup
  create_loop-Holds [] mr mr' w w' d h other x =
      let same : w ≡ w' = ap (λ p. p.1.1) h in rw same iff_refl
  create_loop-Holds ((namespace, text) ∷ entries) mr mr' w w' (new, d) h other x =
      let (_, w₁, first, h₁) =
        on_world-eq-ok mr (create_rule_group_str net yaml send r namespace text w) _ h in
      let (there, elsewhere) = create_rule_group_str-Holds C r S namespace text w w₁ first in
      let rest = create_loop-Holds entries _ mr' w₁ w' d h₁ other x in
      elim (Bool-cases (namespace == other)) [
        | inl e ↦
            let same = (string_eq.same_iff namespace other).0 e in
            let last = not-Among other entries (rw (← same) new) in
            rw e (iff_trans (rw last at rest) (rw same at there x))
        | inr e ↦
            let ne : other ≢ namespace =
              λ same. let t = (string_eq.same_iff namespace other).1 (sym same) in absurd (cc) in
            rw e (
              iff_trans rest (AfterText-iff C (lookup other entries) (λ y. elsewhere other y ne) x))
      ]
