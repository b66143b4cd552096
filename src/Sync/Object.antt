-- ===== src/Sync/Object.antt =====
-- A synchronisation changes nothing of the object but the list in its status.
use mimir_operator.Base.{◌≡◌, String, [], ◌∷◌}
use mimir_operator.Base.Dict.{Dict}
use mimir_operator.Exec.Keeps.{Keeps, continue-Keeps}
use mimir_operator.Domain.{ObjectMeta, MimirRules, MimirRulesSpec}
use mimir_operator.Client.{MimirClient}
use mimir_operator.Ruler.{create_rule_group_str}
use mimir_operator.Cluster.{Cluster}
use mimir_operator.Sync.{
  on_world, create_loop, diff_rule_namespaces, wanted_rules, sync_rules_to_ruler,
}

module _ (C : Cluster) (m : ObjectMeta) where
  open C use {World, send, net, yaml}

  abbrev HasMeta : MimirRules × World → Type 0
  HasMeta s = s.0.meta ≡ m

  create_loop-HasMeta :
      (r : MimirClient) (entries : Dict String) → Keeps HasMeta (create_loop C r entries)
  unfolding create_loop
  create_loop-HasMeta r [] s h = h
  create_loop-HasMeta r ((namespace, text) ∷ entries) s h =
      continue-Keeps HasMeta (on_world C (create_rule_group_str net yaml send r namespace text) s) _
        h (λ _ s h. create_loop-HasMeta r entries _ h)

  pub sync_rules_to_ruler-meta :
      (r : MimirClient) (spec : MimirRulesSpec)
      → Keeps (λ s. s.0.meta ≡ m) (sync_rules_to_ruler C r spec)
  unfolding sync_rules_to_ruler
  sync_rules_to_ruler-meta r spec s h =
      continue-Keeps HasMeta (on_world C (wanted_rules C spec) s) _ h (λ unpacked s h.
        continue-Keeps HasMeta (create_loop C r (C.range_order (s.1) unpacked) _) _
          (create_loop-HasMeta r (C.range_order (s.1) unpacked) _ h)
          (λ _ s h.
            continue-Keeps HasMeta (on_world C (diff_rule_namespaces C r unpacked spec.id) _) _ h
              (λ namespaces s h. h)))
