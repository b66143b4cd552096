-- ===== src/Sync/Again.antt =====
-- A synchronisation that is done again.
use mimir_operator.Base.{
  ◌≡◌, ◌≢◌, ◌↔◌, ◌⊎◌, inl, inr, sym, ap, ◌∙◌, String, List, [], ◌∷◌, Option, none, some,
}
use mimir_operator.Base.Dict.{Dict, lookup, keys}
use mimir_operator.Exec.{ok}
use mimir_operator.Domain.{MimirRules, MimirRulesSpec}
use mimir_operator.Client.{MimirClient}
use mimir_operator.Ruler.{RuleGroup, sort_strings}
use mimir_operator.Cluster.{Cluster}
use mimir_operator.Server.{AfterPuts, Server}
use mimir_operator.Server.Calls.{iff_trans, groups_in, AfterPuts-iff}
use mimir_operator.Sync.{wanted_rules, sync_rules_to_ruler}
use mimir_operator.Sync.Visits.{VisitsAll}
use mimir_operator.Sync.Ruler.{Synced, sync_rules_to_ruler-Synced}

-- No group of the list has the name of the group.
abbrev Fresh : List RuleGroup → RuleGroup → Type 0
Fresh [] x = Unit
Fresh (g ∷ gs) x = (x.name ≢ g.name) × Fresh gs x

abbrev PutIn : List RuleGroup → RuleGroup → Type 0
PutIn gs = AfterPuts gs (λ _. ⊥)

iff_sym : {A B : Type 0} → A ↔ B → B ↔ A
iff_sym f = (f.1, f.0)

-- What the puts leave is what they put, and what was there under other names.
puts_split :
    (gs : List RuleGroup) (P : RuleGroup → Type 0) (x : RuleGroup)
    → AfterPuts gs P x ↔ (PutIn gs x ⊎ (Fresh gs x × P x))
puts_split [] P x = (λ p. inr (tt, p), λ h. elim h [ inl b ↦ absurd b | inr (_, p) ↦ p ])
puts_split (g ∷ gs) P x =
    let all = puts_split gs (λ y. (y ≡ g) ⊎ ((y.name ≢ g.name) × P y)) x in
    let new = puts_split gs (λ y. (y ≡ g) ⊎ ((y.name ≢ g.name) × ⊥)) x in
    (
      λ h. elim (all.0 h) [
        | inl put ↦ inl (new.1 (inl put))
        | inr (fresh, inl e) ↦ inl (new.1 (inr (fresh, inl e)))
        | inr (fresh, inr (ne, p)) ↦ inr ((ne, fresh), p)
      ],
      λ h. elim h [
        | inl put ↦ elim (new.0 put) [
          | inl put' ↦ all.1 (inl put')
          | inr (fresh, inl e) ↦ all.1 (inr (fresh, inl e))
          | inr (fresh, inr (ne, b)) ↦ absurd b
        ]
        | inr ((ne, fresh), p) ↦ all.1 (inr (fresh, inr (ne, p)))
      ],
    )

puts_again :
    (gs : List RuleGroup) (P : RuleGroup → Type 0) (x : RuleGroup)
    → AfterPuts gs (AfterPuts gs P) x ↔ AfterPuts gs P x
puts_again gs P x =
    let once = puts_split gs P x in
    let twice = puts_split gs (AfterPuts gs P) x in
    (
      λ h. elim (twice.0 h) [ inl put ↦ once.1 (inl put) | inr (_, before) ↦ before ],
      λ h. elim (once.0 h) [
        | inl put ↦ twice.1 (inl put)
        | inr (fresh, p) ↦ twice.1 (inr (fresh, h))
      ],
    )

Synced-again :
    (C : Cluster) (text : Option String) (P Q : RuleGroup → Type 0)
    → ((x : RuleGroup) → Q x ↔ Synced C text P x)
    → (x : RuleGroup) → Synced C text Q x ↔ Q x
Synced-again C none P Q same x = iff_sym (same x)
Synced-again C (some text) P Q same x =
    iff_trans (AfterPuts-iff (groups_in C text) same x)
      (iff_trans (puts_again (groups_in C text) P x) (iff_sym (same x)))

module _ (C : Cluster) (r : MimirClient) (S : Server C r) where
  open C use {World}
  open S use {Holds}

  -- Against a ruler that obeys the laws of `Server`, and whatever order Go visits a map in, at each
  -- range another one: where two synchronisations succeed and the same rules are wanted in both,
  -- and the ruler holds, once those of the second are computed, what the first left, the second
  -- leaves in the ruler and on the list of the status what the first left.
  pub sync_rules_to_ruler-again :
      (spec : MimirRulesSpec) (mr mr' mr₁ mr₂ : MimirRules) (w w' w₁ w₂ v v₁ : World)
      (unpacked : Dict String)
      → VisitsAll C
      → wanted_rules C spec w ≡ (ok unpacked, v)
      → sync_rules_to_ruler C r spec (mr, w) ≡ (ok tt, (mr', w'))
      → wanted_rules C spec w₁ ≡ (ok unpacked, v₁)
      → ((namespace : String) (x : RuleGroup) → Holds v₁ namespace x ↔ Holds w' namespace x)
      → sync_rules_to_ruler C r spec (mr₁, w₁) ≡ (ok tt, (mr₂, w₂))
      → ((namespace : String) (x : RuleGroup) → Holds w₂ namespace x ↔ Holds w' namespace x)
        × (mr₂.status.ref_rules ≡ mr'.status.ref_rules)
  sync_rules_to_ruler-again spec mr mr' mr₁ mr₂ w w' w₁ w₂ v v₁ unpacked visits wanted ran wanted₁
        kept ran₁ =
      let (u, z, e, held, refs) = sync_rules_to_ruler-Synced C r S spec mr mr' w w' visits ran in
      let (u₁, z₁, e₁, held₁, refs₁) =
        sync_rules_to_ruler-Synced C r S spec mr₁ mr₂ w₁ w₂ visits ran₁ in
      let pair = sym e ∙ wanted in
      let pair₁ = sym e₁ ∙ wanted₁ in
      let same : u ≡ unpacked = cc in
      let same₁ : u₁ ≡ unpacked = cc in
      let after : z₁ ≡ v₁ = ap (λ p. p.1) pair₁ in
      let first = rw same at held in
      let second = rw (same₁, after) at held₁ in
      (
        λ namespace x. iff_trans (second namespace x) (
            iff_trans
              (Synced-again C (lookup namespace unpacked) (Holds z namespace) (Holds v₁ namespace)
                (λ y. iff_trans (kept namespace y) (first namespace y)) x)
              (kept namespace x)),
        refs₁ ∙ ap (λ u. sort_strings (keys u)) (same₁ ∙ sym same) ∙ sym refs,
      )
