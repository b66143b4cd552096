-- ===== src/Watch/Requests.antt =====
-- Which MimirRules the watch reconciles, and when it panics. The Kubernetes API is read only here:
-- a listing by a selector has an answer that does not change, or fails.
use mimir_operator.Base.{
  ◌≡◌, ◌≢◌, inl, inr, refl, String, Bool, true, false, ◌||◌, List, [], ◌∷◌, none, some, All,
  if◌then◌else◌, Bool-cases, Option-cases,
}
use mimir_operator.Exec.{Outcome, ok}
use mimir_operator.Prometheus.{PrometheusRule}
use mimir_operator.Names.{namespace_key}
use mimir_operator.Selection.{mem}
use mimir_operator.Selection.Unique.{any_lists, find_prometheus_rules_once}
use mimir_operator.Domain.{LabelSelector, MimirRules}
use mimir_operator.Cluster.{Cluster}
use mimir_operator.Reconcile.{NamespacedName}
use mimir_operator.Watch.{
  request, deleted_loop, is_gone, selects, prepend, changed_loop,
  reconcile_on_prometheus_rule_change,
}

abbrev pub selectors_of : MimirRules → List LabelSelector
selectors_of item = elim item.spec.rules [ none ↦ [] | some rules ↦ rules.selectors ]

-- The requests for the items that pass the test, in their order.
abbrev pub requests_for : (MimirRules → Bool) → List MimirRules → List NamespacedName
requests_for test [] = []
requests_for test (item ∷ items) =
    if test item then request item ∷ requests_for test items else requests_for test items

-- The last synchronisation of the item used the resource of that Mimir namespace.
abbrev pub used : String → MimirRules → Bool
used key item = mem key item.status.ref_rules

-- The item used the resource, or one of its selectors lists it now.
abbrev pub concerned : (LabelSelector → List PrometheusRule) → String → String → MimirRules → Bool
concerned read namespace name item =
    any_lists read (selectors_of item) namespace name || used (namespace_key namespace name) item

deleted_loop-eq :
    (key : String) (items : List MimirRules)
    → deleted_loop key items ≡ requests_for (used key) items
unfolding deleted_loop
deleted_loop-eq key [] = refl
deleted_loop-eq key (item ∷ items) = rw (deleted_loop-eq key items)

abbrev pub HasRules : MimirRules → Type 0
HasRules item = item.spec.rules ≢ none

prepend-ok :
    (C : Cluster) (namespace name : String) (item : MimirRules) (b : Bool)
    (requests : List NamespacedName) (w : C.World)
    → prepend C namespace name item b (ok requests, w)
      ≡ (ok (if b then request item ∷ requests else requests), w)
prepend-ok C namespace name item true requests w = refl
prepend-ok C namespace name item false requests w = refl

module _ (C : Cluster) (namespace name : String) where
  module _ (read : LabelSelector → List PrometheusRule)
      (lists : (s : LabelSelector) (w : C.World)
        → C.list_prometheus_rules s w ≡ (ok (read s), w)) where
    selects-eq :
        (item : MimirRules) (w : C.World)
        → HasRules item
        → selects C namespace name item w
          ≡ (ok (any_lists read (selectors_of item) namespace name), w)
    unfolding selects
    selects-eq item w has = elim (Option-cases item.spec.rules) [
      | inl e ↦ absurd (has e)
      | inr (rules, e) ↦
          let (all, found, _, members) =
            find_prometheus_rules_once C.list_prometheus_rules read lists rules.selectors w in
          rw (e, found) (rw (members namespace name))
    ]

    changed_loop-eq :
        (items : List MimirRules) (w : C.World)
        → All HasRules items
        → changed_loop C namespace name items w
          ≡ (ok (requests_for (concerned read namespace name) items), w)
    unfolding changed_loop
    changed_loop-eq [] w all = refl
    changed_loop-eq (item ∷ items) w (has, all) =
        rw (selects-eq item w has, changed_loop-eq items w all)
          (prepend-ok C namespace name item (concerned read namespace name item) _ w)

    -- After a deletion of the resource the watch reconciles exactly the MimirRules whose last
    -- synchronisation used it. Otherwise it reconciles exactly those and the ones with a selector
    -- that lists a resource of its namespace and name now.
    pub watch_requests :
        (items : List MimirRules) (got : Outcome PrometheusRule) (w : C.World)
        → All HasRules items
        → C.list_mimir_rules w ≡ (ok items, w)
        → C.get_prometheus_rule namespace name w ≡ (got, w)
        → reconcile_on_prometheus_rule_change C namespace name w ≡ (
          ok (
              if is_gone C namespace name got
              then requests_for (used (namespace_key namespace name)) items
              else requests_for (concerned read namespace name) items),
          w,
        )
    unfolding reconcile_on_prometheus_rule_change
    watch_requests items got w all listed gets = elim (Bool-cases (is_gone C namespace name got)) [
      | inl gone ↦
          rw listed (rw gets (rw gone (rw (deleted_loop-eq (namespace_key namespace name) items))))
      | inr there ↦ rw listed (rw gets (rw there (changed_loop-eq items w all)))
    ]
