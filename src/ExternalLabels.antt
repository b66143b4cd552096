-- ===== src/ExternalLabels.antt =====
-- `applyExternalLabels` of internal/controller/mimirrules/rules.go. Its loops write each rule back
-- to the place that it came from, so they map over the rules.
pub mod Fallback
use mimir_operator.Base.{List, [], ◌∷◌, map, none, some, String}
use mimir_operator.Base.Dict.{Dict, lookup, insert}
use mimir_operator.Prometheus.{Rule, RuleGroup, PrometheusRule}

-- `if _, ok := rule.Labels[key]; !ok { rule.Labels[key] = value }`
unfoldable pub add_label : String → String → Dict String → Dict String
unfolding lookup insert
add_label key value m = elim (lookup key m) [ none ↦ insert key value m | some _ ↦ m ]

-- The loop over the external labels.
unfoldable pub add_labels : Dict String → Dict String → Dict String
unfolding add_label
add_labels [] m = m
add_labels ((key, value) ∷ labels) m = add_labels labels (add_label key value m)

-- A rule with no labels gets an empty map first.
unfoldable pub label_rule : Dict String → Rule → Rule
unfolding add_labels
label_rule labels rule = record rule {
  labels = some (add_labels labels (elim rule.labels [ none ↦ [] | some m ↦ m ]));
}

unfoldable pub label_group : Dict String → RuleGroup → RuleGroup
unfolding label_rule
label_group labels x = record x { rules = map (label_rule labels) x.rules }

unfoldable pub label_rules : Dict String → PrometheusRule → PrometheusRule
unfolding label_group
label_rules labels p = record p { groups = map (label_group labels) p.groups }

unfoldable pub apply_external_labels : Dict String → List PrometheusRule → List PrometheusRule
unfolding label_rules
apply_external_labels [] list = list
apply_external_labels (l ∷ labels) list = map (label_rules (l ∷ labels)) list
