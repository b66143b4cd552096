-- ===== src/Watch/Panics.antt =====
-- What the watch does where a selector of some MimirRules cannot be listed: a malformed selector,
-- or an error of the Kubernetes API.
use mimir_operator.Base.{
  ◌≡◌, ◌⊎◌, inl, inr, refl, String, Bool, true, false, List, [], ◌∷◌, Option, none, some,
  Option-cases,
}
use mimir_operator.Exec.{Error, Outcome, ok, err, panic}
use mimir_operator.Prometheus.{PrometheusRule}
use mimir_operator.Selection.{contains, concatenate, find_loop, find_prometheus_rules}
use mimir_operator.Domain.{LabelSelector, MimirRules}
use mimir_operator.Cluster.{Cluster}
use mimir_operator.Watch.{
  is_gone, selects, prepend, changed_loop, reconcile_on_prometheus_rule_change,
}
use mimir_operator.Watch.Requests.{selectors_of}

-- The answer to a listing, or its error.
abbrev pub answered :
    (LabelSelector → Option (List PrometheusRule))
    → (LabelSelector → Error)
    → LabelSelector
    → Outcome (List PrometheusRule)
answered answer error s = elim (answer s) [ none ↦ err (error s) | some list ↦ ok list ]

-- One of the selectors has no answer.
abbrev pub SomeFails : (LabelSelector → Option (List PrometheusRule)) → List LabelSelector → Type 0
SomeFails answer [] = ⊥
SomeFails answer (s ∷ selectors) = (answer s ≡ none) ⊎ SomeFails answer selectors

-- So for one of the items.
abbrev pub SomeItemFails : (LabelSelector → Option (List PrometheusRule)) → List MimirRules → Type 0
SomeItemFails answer [] = ⊥
SomeItemFails answer (item ∷ items) =
    SomeFails answer (selectors_of item) ⊎ SomeItemFails answer items

module _ (C : Cluster) (namespace name : String)
    (answer : LabelSelector → Option (List PrometheusRule)) (error : LabelSelector → Error)
    (lists : (s : LabelSelector) (w : C.World)
      → C.list_prometheus_rules s w ≡ (answered answer error s, w)) where
  find_loop_fails :
      (selectors : List LabelSelector) (found : List PrometheusRule) (w : C.World)
      → SomeFails answer selectors
      → (e : Error) × (find_loop C.list_prometheus_rules selectors found w ≡ (err e, w))
  unfolding find_loop
  find_loop_fails [] found w fails = absurd fails
  find_loop_fails (s ∷ selectors) found w (inl e) = (error s, rw (lists, e, answered))
  find_loop_fails (s ∷ selectors) found w (inr fails) = elim (Option-cases (answer s)) [
    | inl e ↦ (error s, rw (lists, e, answered))
    | inr (list, e) ↦
        let (e', rest) = find_loop_fails selectors (concatenate found list) w fails in
        (e', rw (lists, e, answered) rest)
  ]

  -- A loop over selectors gives a list or an error, and changes nothing.
  find_loop_cases :
      (selectors : List LabelSelector) (found : List PrometheusRule) (w : C.World)
      → ((all : List PrometheusRule) × (find_loop C.list_prometheus_rules selectors found w
            ≡ (ok all, w)))
        ⊎ ((e : Error) × (find_loop C.list_prometheus_rules selectors found w ≡ (err e, w)))
  unfolding find_loop
  find_loop_cases [] found w = inl (found, refl)
  find_loop_cases (s ∷ selectors) found w = elim (Option-cases (answer s)) [
    | inl e ↦ inr (error s, rw (lists, e, answered))
    | inr (list, e) ↦ rw (lists, e, answered) (find_loop_cases selectors (concatenate found list) w)
  ]

  selects_fails :
      (item : MimirRules) (w : C.World)
      → SomeFails answer (selectors_of item)
      → selects C namespace name item w ≡ (panic, w)
  unfolding selects find_prometheus_rules
  selects_fails item w fails = elim (Option-cases item.spec.rules) [
    | inl e ↦ rw e
    | inr (rules, e) ↦
        let fails' : SomeFails answer rules.selectors = rw e at fails in
        let (e', run) = find_loop_fails rules.selectors [] w fails' in rw (e, run)
  ]

  selects_cases :
      (item : MimirRules) (w : C.World)
      → ((b : Bool) × (selects C namespace name item w ≡ (ok b, w)))
        ⊎ (selects C namespace name item w ≡ (panic, w))
  unfolding selects find_prometheus_rules
  selects_cases item w = elim (Option-cases item.spec.rules) [
    | inl e ↦ inr (rw e)
    | inr (rules, e) ↦ elim (find_loop_cases rules.selectors [] w) [
      | inl (all, run) ↦ inl (contains all namespace name, rw (e, run))
      | inr (e', run) ↦ inr (rw (e, run))
    ]
  ]

  prepend_panic :
      (item : MimirRules) (b : Bool) (w : C.World)
      → prepend C namespace name item b (panic, w) ≡ (panic, w)
  prepend_panic item true w = refl
  prepend_panic item false w = refl

  changed_loop_panics :
      (items : List MimirRules) (w : C.World)
      → SomeItemFails answer items
      → changed_loop C namespace name items w ≡ (panic, w)
  unfolding changed_loop
  changed_loop_panics [] w fails = absurd fails
  changed_loop_panics (item ∷ items) w (inl here) = rw (selects_fails item w here)
  changed_loop_panics (item ∷ items) w (inr later) = elim (selects_cases item w) [
    | inl (b, run) ↦ rw (run, changed_loop_panics items w later) (prepend_panic item _ w)
    | inr run ↦ rw run
  ]

  -- Where one selector of one MimirRules of the cluster cannot be listed, the watch panics on every
  -- PrometheusRule that it does not find deleted, whatever the other MimirRules are.
  pub watch_panics :
      (items : List MimirRules) (got : Outcome PrometheusRule) (w : C.World)
      → C.list_mimir_rules w ≡ (ok items, w)
      → C.get_prometheus_rule namespace name w ≡ (got, w)
      → is_gone C namespace name got ≡ false
      → SomeItemFails answer items
      → reconcile_on_prometheus_rule_change C namespace name w ≡ (panic, w)
  unfolding reconcile_on_prometheus_rule_change
  watch_panics items got w listed gets there fails =
      rw listed (rw gets (rw there (changed_loop_panics items w fails)))
