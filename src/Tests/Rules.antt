-- ===== src/Tests/Rules.antt =====
-- The overrides, the external labels and the selection.
use mimir_operator.Base.{arith, ◌≡◌, refl, String, List, [], ◌∷◌, map, none, some}
use mimir_operator.Exec.{ok, pure}
use mimir_operator.Prometheus.{Rule, PrometheusRule}
use mimir_operator.Overrides.{override_groups, apply_overrides, rule_name}
use mimir_operator.Overrides.Patch.{is_disabled}
use mimir_operator.Overrides.Enabled.{override_rules, NoneDisabled, apply_overrides_enabled}
use mimir_operator.ExternalLabels.{apply_external_labels}
use mimir_operator.ExternalLabels.Fallback.{label, or_else, rule_at, apply_external_labels_fallback}
use mimir_operator.Base.Dict.{lookup}
use mimir_operator.Selection.{find_prometheus_rules, contains, remove_duplicate, mem}
use mimir_operator.Selection.Unique.{
  any_lists, Nodup, NodupNames, find_prometheus_rules_once, remove_duplicate_once,
}
use mimir_operator.Names.{NoUnderscore, namespace_key_inj}
use mimir_operator.Tests.Examples.{alert, group, loki, tempo, off, longer, select, team_rules}

-- A rule that is removed leaves its place to the last rule of its group.
swap_last :
    override_groups (("A", off) ∷ []) (group "g" (alert "A" ∷ alert "B" ∷ alert "C" ∷ []) ∷ [])
    ≡ some (group "g" (alert "C" ∷ alert "B" ∷ []) ∷ [])
unfolding override_groups
swap_last = refl

-- A group goes with its last rule.
empty_group :
    override_groups (("A", off) ∷ []) (group "g" (alert "A" ∷ []) ∷ group "h" (alert "B" ∷ []) ∷ [])
    ≡ some (group "h" (alert "B" ∷ []) ∷ [])
unfolding override_groups
empty_group = refl

-- The last rule is read at its old place, which the slice no longer has.
stale_index :
    override_groups
      (("A", off) ∷ ("C", longer) ∷ [])
      (group "g" (alert "A" ∷ alert "B" ∷ alert "C" ∷ []) ∷ [])
    ≡ none
unfolding override_groups
stale_index = refl

loki_enabled : NoneDisabled (("Slow", longer) ∷ []) (loki ∷ tempo ∷ [])
unfolding is_disabled lookup rule_name
loki_enabled = (((refl, (refl, tt)), tt), (tt, tt))

slow_there : rule_at 0 0 1 (loki ∷ []) ≡ some (alert "Slow")
unfolding rule_at
slow_there = refl

loki_plain : NoUnderscore "loki"
loki_plain = (λ e. omega arith, (λ e. omega arith, (λ e. omega arith, (λ e. omega arith, tt))))

apply_overrides_enabled_example :
    apply_overrides (("Slow", longer) ∷ []) (loki ∷ tempo ∷ [])
    ≡ some (map (override_rules (("Slow", longer) ∷ [])) (loki ∷ tempo ∷ []))
apply_overrides_enabled_example =
    apply_overrides_enabled (("Slow", longer) ∷ []) (loki ∷ tempo ∷ []) loki_enabled

apply_external_labels_fallback_example :
    (rule' : Rule) × (rule_at 0 0 1
        (apply_external_labels (("severity", "x") ∷ ("tenant", "a") ∷ []) (loki ∷ []))
      ≡ some rule')
    × (record rule' { labels = (alert "Slow").labels } ≡ alert "Slow")
    × ((k : String)
        → label k rule'
          ≡ or_else (label k (alert "Slow")) (lookup k (("severity", "x") ∷ ("tenant", "a") ∷ [])))
apply_external_labels_fallback_example =
    apply_external_labels_fallback (("severity", "x") ∷ ("tenant", "a") ∷ []) 0 0 1 (loki ∷ [])
      slow_there

find_prometheus_rules_once_example :
    (all : List PrometheusRule) × (find_prometheus_rules {W = Unit}
        (λ s. pure (team_rules s))
        (select "loki" ∷ select "tempo" ∷ [])
        tt
      ≡ (ok all, tt))
    × NodupNames all
    × ((ns n : String)
        → contains all ns n ≡ any_lists team_rules (select "loki" ∷ select "tempo" ∷ []) ns n)
find_prometheus_rules_once_example =
    find_prometheus_rules_once (λ s. pure (team_rules s)) team_rules (λ s w. refl)
      (select "loki" ∷ select "tempo" ∷ []) tt

remove_duplicate_once_example :
    Nodup (remove_duplicate ("a" ∷ "b" ∷ "a" ∷ []))
    × ((a : String)
        → mem a (remove_duplicate ("a" ∷ "b" ∷ "a" ∷ [])) ≡ mem a ("a" ∷ "b" ∷ "a" ∷ []))
remove_duplicate_once_example = remove_duplicate_once ("a" ∷ "b" ∷ "a" ∷ [])

namespace_key_inj_example : (◌≡◌ {A = String} "loki" "loki") × (◌≡◌ {A = String} "alerts" "alerts")
namespace_key_inj_example =
    namespace_key_inj "loki" "alerts" "loki" "alerts" loki_plain loki_plain refl
