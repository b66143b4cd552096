-- ===== src/Watch/Tracked.antt =====
-- A synchronisation and the watch together: the deletion of a resource that was synchronised is
-- seen.
use mimir_operator.Base.{
  ◌≡◌, inl, inr, refl, ap, ◌∙◌, String, true, List, [], ◌∷◌, map, Any, Bool-cases,
}
use mimir_operator.Exec.{Error, is_not_found, ok, err}
use mimir_operator.Prometheus.{PrometheusRule}
use mimir_operator.Names.{namespace_key}
use mimir_operator.Selection.{mem, contains}
use mimir_operator.Domain.{MimirRules, MimirRulesSpec}
use mimir_operator.Client.{MimirClient}
use mimir_operator.Cluster.{Cluster}
use mimir_operator.Sync.{sync_rules_to_ruler}
use mimir_operator.Sync.Unpacked.{key_of}
use mimir_operator.Sync.Visits.{VisitsAll}
use mimir_operator.Sync.Tracked.{contains→mem, Selected, sync_rules_to_ruler-tracks}
use mimir_operator.Reconcile.{NamespacedName}
use mimir_operator.Watch.{request, deleted_loop, reconcile_on_prometheus_rule_change}

-- The watch asks for a reconciliation of the object.
abbrev pub Requests : MimirRules → List NamespacedName → Type 0
Requests item = Any (λ q. q ≡ request item)

deleted_loop-Requests :
    (key : String) (item : MimirRules) (items : List MimirRules)
    → Any (λ i. i ≡ item) items
    → mem key item.status.ref_rules ≡ true
    → Requests item (deleted_loop key items)
unfolding deleted_loop
deleted_loop-Requests key item [] h used = absurd h
deleted_loop-Requests key item (i ∷ items) (inl e) used =
    let same : mem key i.status.ref_rules ≡ true = ap (λ i. mem key i.status.ref_rules) e ∙ used in
    rw same (inl (ap request e))
deleted_loop-Requests key item (i ∷ items) (inr h) used =
    let rest = deleted_loop-Requests key item items h used in
    elim (Bool-cases (mem key i.status.ref_rules)) [ inl e ↦ rw e (inr rest) | inr e ↦ rw e rest ]

module _ (C : Cluster) (r : MimirClient) where
  open C use {World}

  Selected-same :
      (spec : MimirRulesSpec) (w : World) (found other : List PrometheusRule)
      → Selected C spec w found
      → Selected C spec w other
      → found ≡ other
  Selected-same spec w found other (rules, w₁, e, h) (rules', w₂, e', h') =
      let same : rules ≡ rules' = cc in let h'' = rw same at h in cc

  -- Whatever order Go visits a map in: where a synchronisation of an object succeeded and its
  -- selectors listed a resource then, and a later listing has the object with the status that was
  -- left, the watch asks for a reconciliation of the object when it finds that the resource is
  -- gone.
  pub watch_deleted-tracked :
      (spec : MimirRulesSpec) (mr mr' item : MimirRules) (w w' w₁ w₂ w₃ : World)
      (found : List PrometheusRule) (items : List MimirRules) (namespace name : String) (e : Error)
      → VisitsAll C
      → sync_rules_to_ruler C r spec (mr, w) ≡ (ok tt, (mr', w'))
      → Selected C spec w found
      → contains found namespace name ≡ true
      → Any (λ i. i ≡ item) items
      → item.status.ref_rules ≡ mr'.status.ref_rules
      → C.list_mimir_rules w₁ ≡ (ok items, w₂)
      → C.get_prometheus_rule namespace name w₂ ≡ (err e, w₃)
      → is_not_found e ≡ true
      → (requests : List NamespacedName) × (reconcile_on_prometheus_rule_change C namespace name w₁
          ≡ (ok requests, w₃))
        × Requests item requests
  unfolding reconcile_on_prometheus_rule_change
  watch_deleted-tracked spec mr mr' item w w' w₁ w₂ w₃ found items namespace name e visits ran
        selected has among status listed gone missing =
      let key = namespace_key namespace name in
      let (other, selected', tracks) = sync_rules_to_ruler-tracks C r spec mr mr' w w' visits ran in
      let same : other ≡ found = Selected-same spec w other found selected' selected in
      let used : mem key item.status.ref_rules ≡ true =
        ap (mem key) status
        ∙ tracks key
        ∙ ap (λ l. mem key (map key_of l)) same
        ∙ contains→mem found namespace name has in
      (
        deleted_loop key items,
        rw (listed, gone, missing) refl,
        deleted_loop-Requests key item items among used,
      )
