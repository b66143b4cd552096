-- ===== src/Sync.antt =====
-- The synchronisation of internal/controller/mimirrules/rules.go: `syncRulesToRuler`,
-- `deleteRulesForTenant`, `unpackRules` and `diffRuleNamespaces`.
pub mod Keys
pub mod Loops
pub mod Ruler
pub mod Keeps
pub mod Object
pub mod Unpacked
pub mod Refs
pub mod Tracked
pub mod Live
pub mod Sorted
pub mod Visits
pub mod Again
pub mod Sent
use mimir_operator.Base.{String, List, [], ◌∷◌, ◌++◌, Option, none, some}
use mimir_operator.Base.Dict.{Dict, lookup, insert}
use mimir_operator.Exec.{Exec, Outcome, failure, ok, err, pure, lift, for_each, ◌>>=◌, ◌>>◌}
use mimir_operator.Prometheus.{PrometheusRule}
use mimir_operator.Names.{namespace_key}
use mimir_operator.Overrides.{apply_overrides}
use mimir_operator.ExternalLabels.{apply_external_labels}
use mimir_operator.Selection.{find_prometheus_rules, remove_duplicate}
use mimir_operator.Domain.{MimirRules, MimirRulesSpec}
use mimir_operator.Client.{MimirClient}
use mimir_operator.Ruler.{
  RuleElement, sort_strings, create_rule_group_str, list_rules_element, delete_namespace,
}
use mimir_operator.Cluster.{Cluster}

-- Go panics where the partial value is missing.
abbrev pub or_panic : {A : Type 0} → Option A → Outcome A
or_panic none = Outcome.panic
or_panic (some a) = ok a

-- The loop of `unpackRules` that fills the map `results`.
unfoldable pub unpack_loop :
    (PrometheusRule → Outcome String) → List PrometheusRule → Dict String → Outcome (Dict String)
unfolding namespace_key insert
unpack_loop encode [] results = ok results
unpack_loop encode (rule ∷ list) results = elim (encode rule) [
  | ok result ↦
      unpack_loop encode list (insert (namespace_key rule.namespace rule.name) result results)
  | err e ↦ err e
  | Outcome.panic ↦ Outcome.panic
]

-- `none` is a nil list.
unfoldable pub unpack_rules :
    (PrometheusRule → Outcome String) → Option (List PrometheusRule) → Outcome (Dict String)
unfolding unpack_loop
unpack_rules encode none = err (failure "no prometheus rules were passed")
unpack_rules encode (some list) = unpack_loop encode list []

-- The loop of `diffRuleNamespaces`: the listed namespaces that are not keys of the map.
unfoldable pub unwanted : Dict String → List RuleElement → List String
unfolding lookup
unwanted rule_map [] = []
unwanted rule_map (rule ∷ rules) =
    let rest = unwanted rule_map rules in
    elim (lookup rule.namespace rule_map) [ none ↦ rule.namespace ∷ rest | some _ ↦ rest ]

module _ (C : Cluster) where
  open C use {World, send, net, yaml, range_order, list_prometheus_rules}

  -- The text of one resource: its specification alone.
  abbrev pub encode : PrometheusRule → Outcome String
  encode rule = elim (C.encode_json rule) [
    | err e ↦ err e
    | Outcome.panic ↦ Outcome.panic
    | ok output ↦ elim (C.decode_filter output) [
      | err e ↦ err e
      | Outcome.panic ↦ Outcome.panic
      | ok filter ↦ C.encode_yaml filter
    ]
  ]

  -- A function that also changes the MimirRules that it was given.
  abbrev pub Sync : Type 0 → Type 0
  Sync A = Exec (MimirRules × World) A

  abbrev pub keep_object :
      {A : Type 0} → MimirRules → Outcome A × World → Outcome A × (MimirRules × World)
  keep_object mr (r, w) = (r, (mr, w))

  -- A function that leaves the object alone.
  abbrev pub on_world : {A : Type 0} → Exec World A → Sync A
  on_world m (mr, w) = keep_object mr (m w)

  abbrev pub set_ref_rules : (List String → List String) → Sync (Unit {0})
  set_ref_rules f (mr, w) =
      (ok tt, (record mr { status = record (mr.status) { ref_rules = f mr.status.ref_rules } }, w))

  unfoldable pub diff_rule_namespaces :
      MimirClient → Dict String → String → Exec World (List String)
  unfolding unwanted
  diff_rule_namespaces mc rule_map tenant = do
    rules ← list_rules_element net yaml send mc tenant
    pure (remove_duplicate (unwanted rule_map rules))

  -- The body of the range, for the entries in their order.
  unfoldable pub create_loop : MimirClient → Dict String → Sync (Unit {0})
  create_loop mc [] = pure tt
  create_loop mc ((namespace, rule_group) ∷ rules) = do
    on_world (create_rule_group_str net yaml send mc namespace rule_group)
    set_ref_rules (λ refs. refs ++ (namespace ∷ []))
    create_loop mc rules

  -- `for namespace, ruleGroup := range unpackedRules`
  abbrev pub range_loop : MimirClient → Dict String → Sync (Unit {0})
  range_loop mc unpacked (mr, w) = create_loop mc (range_order w unpacked) (mr, w)

  -- What `syncRulesToRuler` sends: the selected resources under the overrides and the external
  -- labels, as one text for each Mimir namespace. A nil pointer `Spec.Rules` is a panic.
  unfoldable pub wanted_rules : MimirRulesSpec → Exec World (Dict String)
  wanted_rules spec = do
    rules ← lift (or_panic spec.rules)
    found ← find_prometheus_rules list_prometheus_rules rules.selectors
    changed ← lift (or_panic (apply_overrides spec.overrides found))
    lift (unpack_rules encode (some (apply_external_labels spec.external_labels changed)))

  unfoldable pub sync_rules_to_ruler : MimirClient → MimirRulesSpec → Sync (Unit {0})
  unfolding wanted_rules create_loop diff_rule_namespaces
  sync_rules_to_ruler mc spec = do
    unpacked ← on_world (wanted_rules spec)
    set_ref_rules (λ _. [])
    range_loop mc unpacked
    set_ref_rules sort_strings
    namespaces ← on_world (diff_rule_namespaces mc unpacked spec.id)
    on_world (for_each (delete_namespace net yaml send mc) namespaces)

  unfoldable pub delete_rules_for_tenant : MimirRules → MimirClient → Exec World (Unit {0})
  delete_rules_for_tenant mr mc = do
    rules ← list_rules_element net yaml send mc mr.spec.id
    for_each (λ rule. delete_namespace net yaml send mc rule.namespace) rules
