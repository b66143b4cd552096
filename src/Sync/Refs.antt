-- ===== src/Sync/Refs.antt =====
-- The namespaces that the status lists after a synchronisation.
use mathlib.Core.List.{append-nil, append_assoc}
use mimir_operator.Base.{◌≡◌, sym, ap, ◌∙◌, String, [], ◌∷◌, ◌++◌}
use mimir_operator.Base.Dict.{Dict, keys}
use mimir_operator.Exec.{ok, for_each, continue-eq-ok}
use mimir_operator.Domain.{MimirRules, MimirRulesSpec}
use mimir_operator.Client.{MimirClient}
use mimir_operator.Ruler.{sort_strings, create_rule_group_str, delete_namespace}
use mimir_operator.Cluster.{Cluster}
use mimir_operator.Selection.{find_prometheus_rules}
use mimir_operator.Overrides.{apply_overrides}
use mimir_operator.ExternalLabels.{apply_external_labels}
use mimir_operator.Sync.Keys.{Distinct, unpack_loop-Distinct}
use mimir_operator.Sync.{
  encode, or_panic, unpack_rules, create_loop, wanted_rules, diff_rule_namespaces,
  sync_rules_to_ruler,
}
use mimir_operator.Sync.Visits.{VisitsAll, range_order-sorted}
use mimir_operator.Sync.Loops.{on_world-eq-ok, keep-eq-ok}

module _ (C : Cluster) where
  pub wanted_rules-Distinct :
      (spec : MimirRulesSpec) (w w' : C.World) (unpacked : Dict String)
      → wanted_rules C spec w ≡ (ok unpacked, w')
      → Distinct (keys unpacked)
  unfolding wanted_rules unpack_rules
  wanted_rules-Distinct spec w w' unpacked h =
      let (rules, w₁, _, h₁) = continue-eq-ok (or_panic spec.rules, w) _ h in
      let (found, w₂, _, h₂) =
        continue-eq-ok (find_prometheus_rules C.list_prometheus_rules rules.selectors w₁) _ h₁ in
      let (changed, w₃, _, h₃) =
        continue-eq-ok (or_panic (apply_overrides spec.overrides found), w₂) _ h₂ in
      unpack_loop-Distinct (encode C) (apply_external_labels spec.external_labels changed) []
        unpacked tt (ap (λ p. p.0) h₃)

module _ (C : Cluster) (r : MimirClient) where
  open C use {World, send, net, yaml}

  pub create_loop-refs :
      (entries : Dict String) (mr mr' : MimirRules) (w w' : World)
      → create_loop C r entries (mr, w) ≡ (ok tt, (mr', w'))
      → mr'.status.ref_rules ≡ mr.status.ref_rules ++ keys entries
  unfolding create_loop
  create_loop-refs [] mr mr' w w' h =
      sym (ap (λ p. p.1.0.status.ref_rules) h) ∙ sym (append-nil mr.status.ref_rules)
  create_loop-refs ((namespace, text) ∷ entries) mr mr' w w' h =
      let (_, w₁, first, h₁) =
        on_world-eq-ok mr (create_rule_group_str net yaml send r namespace text w) _ h in
      create_loop-refs entries _ mr' w₁ w' h₁
      ∙ append_assoc mr.status.ref_rules (namespace ∷ []) (keys entries)

  pub sync_rules_to_ruler-refs :
      (spec : MimirRulesSpec) (mr mr' : MimirRules) (w w' : World)
      → VisitsAll C
      → sync_rules_to_ruler C r spec (mr, w) ≡ (ok tt, (mr', w'))
      → (unpacked : Dict String) × (w₁ : World) × (wanted_rules C spec w ≡ (ok unpacked, w₁))
        × (mr'.status.ref_rules ≡ sort_strings (keys unpacked))
  unfolding sync_rules_to_ruler
  sync_rules_to_ruler-refs spec mr mr' w w' visits h =
      let (unpacked, w₁, wanted, h₁) = on_world-eq-ok mr (wanted_rules C spec w) _ h in
      let entries = C.range_order w₁ unpacked in
      let (_, s, created, h₂) =
        continue-eq-ok
          (create_loop C r entries
            (record mr { status = record (mr.status) { ref_rules = [] } }, w₁))
          _ h₁ in
      let sorted = record (s.0) {
        status = record (s.0.status) { ref_rules = sort_strings s.0.status.ref_rules };
      } in
      let (namespaces, w₂, listed, h₃) =
        on_world-eq-ok sorted (diff_rule_namespaces C r unpacked spec.id (s.1)) _ h₂ in
      let (_, object) =
        keep-eq-ok sorted (for_each (delete_namespace net yaml send r) namespaces w₂) h₃ in
      (
        unpacked,
        w₁,
        wanted,
        sym (ap (λ m. m.status.ref_rules) object)
            ∙ ap sort_strings (create_loop-refs entries _ (s.0) w₁ (s.1) created)
            ∙ range_order-sorted C visits w₁ unpacked
                (wanted_rules-Distinct C spec w w₁ unpacked wanted),
      )
