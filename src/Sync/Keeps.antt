-- ===== src/Sync/Keeps.antt =====
-- What a synchronisation, and the deletion of a tenant, leave as it was, when the calls do.
use mimir_operator.Base.{String, string_eq, List, [], ◌∷◌}
use mimir_operator.Base.Dict.{Dict}
use mimir_operator.Exec.Keeps.{Keeps, continue-Keeps, for_each-Keeps}
use mimir_operator.Client.{Request, MimirClient}
use mimir_operator.Ruler.{create_rule_group_str, list_rules_element}
use mimir_operator.Prometheus.{PrometheusRule}
use mimir_operator.Domain.{LabelSelector, MimirRules, MimirRulesSpec}
use mimir_operator.Selection.{find_loop, find_prometheus_rules, concatenate}
use mimir_operator.Overrides.{apply_overrides}
use mimir_operator.Cluster.{Cluster}
use mimir_operator.Server.Signed.{Signed, RulerCall}
use mimir_operator.Sync.{
  or_panic, on_world, create_loop, diff_rule_namespaces, wanted_rules, sync_rules_to_ruler,
  delete_rules_for_tenant,
}
use mimir_operator.Server.Keeps.{
  delete_namespace-Keeps, create_rule_group_str-Keeps, list_rules_element-Keeps,
}

module _ (C : Cluster) (P : C.World → Type 0) where
  open C use {World, send, net, yaml, list_prometheus_rules}

  module _ (r : MimirClient)
      (kept : (req : Request) (s : Signed C r req)
        → RulerCall net r.api_path s.method s.path
        → Keeps P (send req)) where
    pub delete_rules_for_tenant-Keeps : (mr : MimirRules) → Keeps P (delete_rules_for_tenant C mr r)
    unfolding delete_rules_for_tenant
    delete_rules_for_tenant-Keeps mr w h =
        continue-Keeps P (list_rules_element net yaml send r mr.spec.id w) _
          (list_rules_element-Keeps C P r kept mr.spec.id w h)
          (λ rules.
            for_each-Keeps P _ rules (λ rule. delete_namespace-Keeps C P r kept rule.namespace))

  module _ (kept : (s : LabelSelector) → Keeps P (list_prometheus_rules s)) where
    find_loop-Keeps :
        (selectors : List LabelSelector) (found : List PrometheusRule)
        → Keeps P (find_loop list_prometheus_rules selectors found)
    unfolding find_loop
    find_loop-Keeps [] found w h = h
    find_loop-Keeps (s ∷ selectors) found w h =
        continue-Keeps P (list_prometheus_rules s w) _ (kept s w h)
          (λ rules. find_loop-Keeps selectors (concatenate found rules))

    pub wanted_rules-Keeps : (spec : MimirRulesSpec) → Keeps P (wanted_rules C spec)
    unfolding wanted_rules find_prometheus_rules
    wanted_rules-Keeps spec w h =
        continue-Keeps P (or_panic spec.rules, w) _ h
          (λ rules w h.
            continue-Keeps P (find_prometheus_rules list_prometheus_rules rules.selectors w) _
              (find_loop-Keeps rules.selectors [] w h)
              (λ found w h.
                continue-Keeps P (or_panic (apply_overrides spec.overrides found), w) _ h
                  (λ changed w h. h)))

  abbrev Beside : MimirRules × World → Type 0
  Beside s = P (s.1)

  module _ (r : MimirClient)
      (sends : (req : Request) (s : Signed C r req)
        → RulerCall net r.api_path s.method s.path
        → Keeps P (send req))
      (lists : (s : LabelSelector) → Keeps P (list_prometheus_rules s)) where
    create_loop-Keeps : (entries : Dict String) → Keeps Beside (create_loop C r entries)
    unfolding create_loop
    create_loop-Keeps [] s h = h
    create_loop-Keeps ((namespace, text) ∷ entries) s h =
        continue-Keeps Beside (on_world C (create_rule_group_str net yaml send r namespace text) s)
          _ (create_rule_group_str-Keeps C P r sends namespace text (s.1) h)
          (λ _ s h. create_loop-Keeps entries _ h)

    pub sync_rules_to_ruler-Keeps :
        (spec : MimirRulesSpec) → Keeps (λ s. P (s.1)) (sync_rules_to_ruler C r spec)
    unfolding sync_rules_to_ruler diff_rule_namespaces
    sync_rules_to_ruler-Keeps spec s h =
        continue-Keeps Beside (on_world C (wanted_rules C spec) s) _
          (wanted_rules-Keeps lists spec (s.1) h)
          (λ unpacked s h.
            continue-Keeps Beside (create_loop C r (C.range_order (s.1) unpacked) _) _
              (create_loop-Keeps (C.range_order (s.1) unpacked) _ h)
              (λ _ s h.
                continue-Keeps Beside (on_world C (diff_rule_namespaces C r unpacked spec.id) _) _
                  (continue-Keeps P (list_rules_element net yaml send r spec.id (s.1)) _
                    (list_rules_element-Keeps C P r sends spec.id (s.1) h) (λ _ w h. h))
                  (λ namespaces s h.
                    for_each-Keeps P _ namespaces (delete_namespace-Keeps C P r sends) (s.1) h)))
