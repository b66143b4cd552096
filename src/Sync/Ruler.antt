-- ===== src/Sync/Ruler.antt =====
-- The rule groups that the ruler holds after a synchronisation, and after the deletion of a tenant.
use mimir_operator.Base.{
  ◌≡◌, ◌≢◌, ◌↔◌, inl, inr, refl, sym, ap, ◌∙◌, arith, String, string_eq, ◌==◌, List, [], ◌∷◌,
  Option, none, some, Bool-cases,
}
use mimir_operator.Base.Dict.{Dict, lookup, keys}
use mimir_operator.Exec.{◌>>=◌, ◌>>◌, ok, for_each, continue-eq-ok}
use mimir_operator.Client.{MimirClient}
use mimir_operator.Domain.{MimirRules, MimirRulesSpec}
use mimir_operator.Selection.{remove_duplicate}
use mimir_operator.Selection.Unique.{remove_duplicate_once}
use mimir_operator.Ruler.{
  RuleGroup, RuleElement, sort_strings, list_rules_element, delete_namespace,
}
use mimir_operator.Cluster.{Cluster}
use mimir_operator.Server.{AfterPuts, Server}
use mimir_operator.Server.Listing.{Named}
use mimir_operator.Sync.Keys.{unwanted-Named, unwanted→none, Among→mem, mem→Among}
use mimir_operator.Server.Calls.{
  groups_in, iff_trans, delete_namespace-Holds, list_rules_element-Holds,
}
use mimir_operator.Sync.{
  on_world, set_ref_rules, unwanted, create_loop, diff_rule_namespaces, wanted_rules,
  sync_rules_to_ruler, delete_rules_for_tenant,
}
use mimir_operator.Sync.Loops.{
  AfterText, on_world-eq-ok, keep-eq-ok, delete_loop-Holds, create_loop-Holds,
}
use mimir_operator.Sync.Visits.{VisitsAll, range_order-sorted}
use mimir_operator.Sync.Refs.{wanted_rules-Distinct, create_loop-refs}

-- A wanted namespace has the groups of its text over what it held; any other holds nothing.
abbrev pub Synced : Cluster → Option String → (RuleGroup → Type 0) → RuleGroup → Type 0
Synced C none P x = ⊥
Synced C (some text) P x = AfterPuts (groups_in C text) P x

module _ (C : Cluster) (r : MimirClient) (S : Server C r) where
  open C use {World, send, net, yaml}
  open S use {Holds}

  -- The deletions after the groups are written: what is wanted stays, and nothing else is held.
  diff_deleted :
      (unpacked : Dict String) (tenant : String) (w w₁ w₂ : World) (namespaces : List String)
      → diff_rule_namespaces C r unpacked tenant w ≡ (ok namespaces, w₁)
      → for_each (delete_namespace net yaml send r) namespaces w₁ ≡ (ok tt, w₂)
      → (other : String) (x : RuleGroup)
      → Holds w₂ other x ↔ ((lookup other unpacked ≢ none) × Holds w other x)
  unfolding diff_rule_namespaces
  diff_deleted unpacked tenant w w₁ w₂ namespaces listed gone other x =
      let (rules, w₃, got, done) =
        continue-eq-ok (list_rules_element net yaml send r tenant w) _ listed in
      let same : w₃ ≡ w₁ = ap (λ p. p.1) done in
      let dups : remove_duplicate (unwanted unpacked rules) ≡ namespaces =
        ground (arith, ap (λ p. p.0) done) in
      let (kept, named) =
        list_rules_element-Holds C r S tenant w w₁ rules (rw same at got) other x in
      let deleted = delete_loop-Holds C r S namespaces w₁ w₂ gone other x in
      let once = (remove_duplicate_once (unwanted unpacked rules)).1 other in
      (
        λ held.
            let (out, held₁) = deleted.0 held in
            let before = kept.0 held₁ in
            (
              λ e. out (
                  rw dups at (
                    mem→Among other (remove_duplicate (unwanted unpacked rules)) (
                      once
                      ∙ Among→mem other (unwanted unpacked rules)
                          (unwanted-Named unpacked rules other (named before) e)))),
              before,
            ),
        λ (wanted, held). deleted.1 (
          λ a. wanted (
              unwanted→none unpacked rules other (
                mem→Among other (unwanted unpacked rules) (
                  sym once
                  ∙ Among→mem other (remove_duplicate (unwanted unpacked rules))
                      (rw (← dups) at a)))),
          kept.1 held,
        ),
      )

  -- The wanted namespaces alone are left.
  wanted-Synced :
      (text : Option String) {P : Type 0} (H : RuleGroup → Type 0) (x : RuleGroup)
      → (P ↔ AfterText C text H x)
      → ((text ≢ none) × P) ↔ Synced C text H x
  wanted-Synced none H x h = (λ (ne, p). absurd (ne refl), λ b. absurd b)
  wanted-Synced (some text) H x h = (λ (ne, p). h.0 p, λ q. (λ e. absurd (cc), h.1 q))

  -- The end of a synchronisation: the status is sorted, and the unwanted namespaces are deleted.
  sync_end :
      (unpacked : Dict String) (tenant : String) (mr mr' : MimirRules) (w w' : World)
      → (set_ref_rules C sort_strings
            >> (on_world C (diff_rule_namespaces C r unpacked tenant) >>= λ namespaces.
                on_world C (for_each (delete_namespace net yaml send r) namespaces)))
          (mr, w)
        ≡ (ok tt, (mr', w'))
      → ((other : String) (x : RuleGroup)
          → Holds w' other x ↔ ((lookup other unpacked ≢ none) × Holds w other x))
        × (mr'.status.ref_rules ≡ sort_strings mr.status.ref_rules)
  sync_end unpacked tenant mr mr' w w' h =
      let mr₁ = record mr {
        status = record (mr.status) { ref_rules = sort_strings mr.status.ref_rules };
      } in
      let (namespaces, w₁, listed, h₁) =
        on_world-eq-ok mr₁ (diff_rule_namespaces C r unpacked tenant w) _ h in
      let (gone, object) =
        keep-eq-ok mr₁ (for_each (delete_namespace net yaml send r) namespaces w₁) h₁ in
      (
        diff_deleted unpacked tenant w w₁ w' namespaces listed gone,
        sym (ap (λ m. m.status.ref_rules) object),
      )

  -- After a synchronisation that succeeds the ruler holds for the tenant, in each namespace that
  -- was sent, its groups over the groups that it held there under other names, and nothing in any
  -- other namespace; the status lists the namespaces that were sent, in order.
  pub sync_rules_to_ruler-Synced :
      (spec : MimirRulesSpec) (mr mr' : MimirRules) (w w' : World)
      → VisitsAll C
      → sync_rules_to_ruler C r spec (mr, w) ≡ (ok tt, (mr', w'))
      → (unpacked : Dict String) × (w₁ : World) × (wanted_rules C spec w ≡ (ok unpacked, w₁))
        × ((other : String) (x : RuleGroup)
            → Holds w' other x ↔ Synced C (lookup other unpacked) (Holds w₁ other) x)
        × (mr'.status.ref_rules ≡ sort_strings (keys unpacked))
  unfolding sync_rules_to_ruler
  sync_rules_to_ruler-Synced spec mr mr' w w' visits h =
      let (unpacked, w₁, wanted, h₁) = on_world-eq-ok mr (wanted_rules C spec w) _ h in
      let entries = C.range_order w₁ unpacked in
      let (_, s, created, h₂) =
        continue-eq-ok
          (create_loop C r entries
            (record mr { status = record (mr.status) { ref_rules = [] } }, w₁))
          _ h₁ in
      let (held, refs) = sync_end unpacked spec.id (s.0) mr' (s.1) w' h₂ in
      let distinct = wanted_rules-Distinct C spec w w₁ unpacked wanted in
      let d = visits.once w₁ unpacked distinct in
      let put = create_loop-Holds C r S entries _ (s.0) w₁ (s.1) d created in
      (
        unpacked,
        w₁,
        wanted,
        λ other x. iff_trans (held other x) (
            wanted-Synced (lookup other unpacked) (Holds w₁ other) x
              (rw (visits.same w₁ unpacked other distinct) at (put other x))),
        refs
            ∙ ap sort_strings (create_loop-refs C r entries _ (s.0) w₁ (s.1) created)
            ∙ range_order-sorted C visits w₁ unpacked distinct,
      )

  -- The loop of `deleteRulesForTenant` deletes the namespace of each element.
  element_loop-Holds :
      (rules : List RuleElement) (w w' : World)
      → for_each (λ rule. delete_namespace net yaml send r rule.namespace) rules w ≡ (ok tt, w')
      → (other : String) (x : RuleGroup) → Holds w' other x
      → (¬ Named other rules) × Holds w other x
  unfolding for_each
  element_loop-Holds [] w w' h other x held =
      let same : w ≡ w' = ap (λ p. p.1) h in (λ a. a, rw same held)
  element_loop-Holds (rule ∷ rules) w w' h other x held =
      let (_, w₁, first, h₁) =
        continue-eq-ok (delete_namespace net yaml send r rule.namespace w)
          (λ _.
            for_each (λ (rule : RuleElement). delete_namespace net yaml send r rule.namespace)
              rules)
          h in
      let (gone, elsewhere) = delete_namespace-Holds C r S rule.namespace w w₁ first in
      let (out, before) = element_loop-Holds rules w₁ w' h₁ other x held in
      elim (Bool-cases (rule.namespace == other)) [
        | inl e ↦
            let same = (string_eq.same_iff rule.namespace other).0 e in
            absurd (gone x (rw (← same) at before))
        | inr e ↦
            let ne : other ≢ rule.namespace = λ same.
              let t = (string_eq.same_iff rule.namespace other).1 (sym same) in absurd (cc) in
            (
              λ a. elim a [ inl same ↦ ne (sym same) | inr b ↦ out b ],
              (elsewhere other x ne).0 before,
            )
      ]

  -- After a deletion of the rules of a tenant that succeeds, the ruler holds no group for it.
  pub delete_rules_for_tenant-empty :
      (mr : MimirRules) (w w' : World)
      → delete_rules_for_tenant C mr r w ≡ (ok tt, w')
      → (namespace : String) (x : RuleGroup) → ¬ Holds w' namespace x
  unfolding delete_rules_for_tenant
  delete_rules_for_tenant-empty mr w w' h namespace x held =
      let (rules, w₁, listed, h₁) =
        continue-eq-ok (list_rules_element net yaml send r mr.spec.id w) _ h in
      let (out, before) = element_loop-Holds rules w₁ w' h₁ namespace x held in
      let (kept, named) = list_rules_element-Holds C r S mr.spec.id w w₁ rules listed namespace x in
      out (named (kept.0 before))
