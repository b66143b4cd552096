-- ===== src/Watch.antt =====
-- `reconcileOnPrometheusRuleChange` of internal/controller/mimirrules/mimirrules_controller.go: the
-- MimirRules to reconcile when the PrometheusRule `name` in `namespace` has changed.
pub mod Requests
pub mod Panics
pub mod Tracked
use mimir_operator.Base.{
  String, Bool, true, false, ◌||◌, List, [], ◌∷◌, Option, none, some, if◌then◌else◌,
}
use mimir_operator.Exec.{Exec, is_not_found, Outcome, ok, err, pure}
use mimir_operator.Prometheus.{PrometheusRule}
use mimir_operator.Names.{namespace_key}
use mimir_operator.Selection.{find_prometheus_rules, contains, mem}
use mimir_operator.Domain.{MimirRules}
use mimir_operator.Cluster.{Cluster}
use mimir_operator.Reconcile.{NamespacedName}

abbrev pub request : MimirRules → NamespacedName
request item = record { namespace = item.meta.namespace; name = item.meta.name }

-- The loop after a deletion: the MimirRules whose last synchronisation used the resource.
unfoldable pub deleted_loop : String → List MimirRules → List NamespacedName
unfolding mem
deleted_loop key [] = []
deleted_loop key (item ∷ items) =
    let rest = deleted_loop key items in
    if mem key item.status.ref_rules then request item ∷ rest else rest

module _ (C : Cluster) (namespace name : String) where
  open C use {World, list_prometheus_rules}

  -- The selection of one MimirRules. Its error is dropped, and the list is a nil pointer then,
  -- which `contains` reads: a panic, as it is where `Spec.Rules` is nil.
  abbrev pub matches : Outcome (List PrometheusRule) → Outcome Bool
  matches (ok found) = ok (contains found namespace name)
  matches (err e) = Outcome.panic
  matches Outcome.panic = Outcome.panic

  unfoldable pub selects : MimirRules → World → Outcome Bool × World
  selects item w = elim item.spec.rules [
    | none ↦ (Outcome.panic, w)
    | some rules ↦
        let (found, w') = find_prometheus_rules list_prometheus_rules rules.selectors w in
        (matches found, w')
  ]

  abbrev pub prepend :
      MimirRules
      → Bool
      → Outcome (List NamespacedName) × World
      → Outcome (List NamespacedName) × World
  prepend item false r = r
  prepend item true (ok requests, w) = (ok (request item ∷ requests), w)
  prepend item true (err e, w) = (err e, w)
  prepend item true (Outcome.panic, w) = (Outcome.panic, w)

  -- One round of the loop, from the selection of the item to the rest of the loop.
  abbrev pub add_request :
      MimirRules
      → Outcome Bool × World
      → (World → Outcome (List NamespacedName) × World)
      → Outcome (List NamespacedName) × World
  add_request item (ok selected, w) rest =
      let wanted = selected || mem (namespace_key namespace name) item.status.ref_rules in
      prepend item wanted (rest w)
  add_request item (err e, w) rest = (err e, w)
  add_request item (Outcome.panic, w) rest = (Outcome.panic, w)

  -- The loop after a creation or a change.
  unfoldable pub changed_loop : List MimirRules → Exec World (List NamespacedName)
  unfolding selects
  changed_loop [] w = (ok [], w)
  changed_loop (item ∷ items) w = add_request item (selects item w) (changed_loop items)

  -- Whether the `Get` said that the resource is gone.
  abbrev pub is_gone : Outcome PrometheusRule → Bool
  is_gone (ok _) = false
  is_gone (err e) = is_not_found e
  is_gone Outcome.panic = false

  abbrev pub after_list : Outcome (List MimirRules) × World → Outcome (List NamespacedName) × World
  after_list (ok items, w) =
      let (got, w') = C.get_prometheus_rule namespace name w in
      if is_gone got
      then (ok (deleted_loop (namespace_key namespace name) items), w')
      else changed_loop items w'
  after_list (err e, w) = (ok [], w)
  after_list (Outcome.panic, w) = (Outcome.panic, w)

  unfoldable pub reconcile_on_prometheus_rule_change : Exec World (List NamespacedName)
  reconcile_on_prometheus_rule_change w = after_list (C.list_mimir_rules w)
