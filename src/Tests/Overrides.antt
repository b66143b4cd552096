-- ===== src/Tests/Overrides.antt =====
-- The theorems on overrides that disable rules, at concrete resources.
use mimir_operator.Base.{◌≡◌, ◌↔◌, refl, arith, false, inl, List, [], ◌∷◌, none, some, Pointwise}
use mimir_operator.Base.Dict.{Dict, lookup}
use mimir_operator.Prometheus.{PrometheusRule}
use mimir_operator.Overrides.{Override, rule_name, apply_overrides}
use mimir_operator.Overrides.Patch.{is_disabled}
use mimir_operator.Overrides.Exact.{
  all_fit, ResourceLeft, apply_overrides_left, apply_overrides_panics,
}
use mimir_operator.Overrides.Panics.{AllDisabled-panics}
use mimir_operator.Tests.Examples.{alert, group, resource, off, longer}

-- `Down` is disabled, `Slow` gets other labels.
abbrev overrides : Dict Override
overrides = ("Down", off) ∷ ("Slow", longer) ∷ []

-- Three rules, the first of which goes; and a group that goes with its only rule.
abbrev fitting : List PrometheusRule
fitting =
    resource "loki" "alerts" (
      group "a" (alert "Slow" ∷ alert "Down" ∷ alert "Full" ∷ [])
      ∷ group "b" (alert "Down" ∷ [])
      ∷ group "c" (alert "Late" ∷ [])
      ∷ [])
    ∷ []

abbrev both_off : Dict Override
both_off = ("Down", off) ∷ ("Slow", off) ∷ []

abbrev emptied : List PrometheusRule
emptied = resource "loki" "alerts" (group "a" (alert "Down" ∷ alert "Slow" ∷ []) ∷ []) ∷ []

apply_overrides_left_example :
    (left : List PrometheusRule) × (apply_overrides overrides fitting ≡ some left)
    × Pointwise (ResourceLeft overrides) fitting left
unfolding all_fit lookup rule_name
apply_overrides_left_example = apply_overrides_left overrides fitting refl

apply_overrides_panics_example :
    (apply_overrides both_off emptied ≡ none) ↔ (all_fit both_off emptied ≡ false)
apply_overrides_panics_example = apply_overrides_panics both_off emptied

AllDisabled-panics_example : apply_overrides both_off emptied ≡ none
unfolding is_disabled lookup rule_name
AllDisabled-panics_example =
    AllDisabled-panics both_off emptied
      (inl (inl (record { several = omega arith; disabled = (refl, (refl, tt)) })))

-- The last rule that an override names is the one that a removal moves.
abbrev moved : List PrometheusRule
moved =
    resource "loki" "alerts" (group "a" (alert "Down" ∷ alert "Full" ∷ alert "Slow" ∷ []) ∷ []) ∷ []

moved_panics : apply_overrides overrides moved ≡ none
unfolding apply_overrides
moved_panics = refl
