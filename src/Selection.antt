-- ===== src/Selection.antt =====
-- Which PrometheusRules a MimirRules selects: `findPrometheusRulesFromLabels`,
-- `concatenatePrometheusRuleList`, `isRuleInSlice` and `contains` of
-- internal/controller/mimirrules, and `RemoveDuplicate` of internal/utils/utils.go. The listing by
-- one selector is a parameter: it stands for `LabelSelectorAsSelector` and the list call of the
-- Kubernetes client.
pub mod Unique
use mimir_operator.Base.{
  String, ◌==◌, string_eq, Bool, true, false, ◌&&◌, List, [], ◌∷◌, ◌++◌, Option, none, some,
  if◌then◌else◌,
}
use mimir_operator.Exec.{Exec, pure, ◌>>=◌}
use mimir_operator.Prometheus.{PrometheusRule}

-- `isRuleInSlice(rules, rule)`
unfoldable pub is_rule_in_slice : List PrometheusRule → PrometheusRule → Bool
is_rule_in_slice [] rule = false
is_rule_in_slice (r ∷ rules) rule =
    let rest = is_rule_in_slice rules rule in
    if r.namespace == rule.namespace && r.name == rule.name then true else rest

-- `concatenatePrometheusRuleList(dest, src)`, which returns the new `dest`.
unfoldable pub concatenate : List PrometheusRule → List PrometheusRule → List PrometheusRule
unfolding is_rule_in_slice
concatenate dest [] = dest
concatenate dest (rule ∷ src) =
    concatenate (if is_rule_in_slice dest rule then dest else dest ++ (rule ∷ [])) src

-- `contains(pL, namespace, name)`
unfoldable pub contains : List PrometheusRule → String → String → Bool
contains [] namespace name = false
contains (p ∷ list) namespace name =
    let rest = contains list namespace name in
    if p.name == name && p.namespace == namespace then true else rest

module _ {W Selector : Type 0} (list_rules : Selector → Exec W (List PrometheusRule)) where
  -- The loop over the selectors.
  unfoldable pub find_loop : List Selector → List PrometheusRule → Exec W (List PrometheusRule)
  unfolding concatenate
  find_loop [] found = pure found
  find_loop (selector ∷ selectors) found = do
    rules ← list_rules selector
    find_loop selectors (concatenate found rules)

  unfoldable pub find_prometheus_rules : List Selector → Exec W (List PrometheusRule)
  unfolding find_loop
  find_prometheus_rules selectors = find_loop selectors []

-- `slices.Contains`
unfoldable pub mem : String → List String → Bool
mem a [] = false
mem a (x ∷ xs) = let rest = mem a xs in if x == a then true else rest

-- `RemoveDuplicate`: the map `allKeys` holds the keys of `list`.
unfoldable pub remove_duplicate_loop : List String → List String → List String
unfolding mem
remove_duplicate_loop [] list = list
remove_duplicate_loop (item ∷ items) list =
    remove_duplicate_loop items (if mem item list then list else list ++ (item ∷ []))

unfoldable pub remove_duplicate : List String → List String
unfolding remove_duplicate_loop
remove_duplicate items = remove_duplicate_loop items []
