-- ===== src/Tests/Watching.antt =====
-- The watch on PrometheusRules.
use mimir_operator.Base.{
  ◌≡◌, inl, inr, refl, string_eq, List, [], ◌∷◌, Option, none, some, if◌then◌else◌, All,
}
use mimir_operator.Exec.{Error, failure, ok, panic}
use mimir_operator.Prometheus.{PrometheusRule}
use mimir_operator.Names.{namespace_key}
use mimir_operator.Domain.{LabelSelector, MimirRules}
use mimir_operator.Cluster.{Cluster}
use mimir_operator.Watch.{is_gone, reconcile_on_prometheus_rule_change}
use mimir_operator.Watch.Requests.{requests_for, used, concerned, HasRules, watch_requests}
use mimir_operator.Watch.Panics.{answered, watch_panics}
use mimir_operator.Tests.Examples.{loki, tempo, select, tenant, team_rules, cluster}

-- One tenant used the resource, one selects it, one does neither.
abbrev tenants : List MimirRules
tenants =
    tenant [] ("loki_alerts" ∷ [])
    ∷ tenant (select "loki" ∷ []) []
    ∷ tenant (select "tempo" ∷ []) []
    ∷ []

abbrev listing : Cluster
listing = cluster tenants (λ s. ok (team_rules s))

tenants-HasRules : All HasRules tenants
tenants-HasRules = (λ e. cc, (λ e. cc, (λ e. cc, tt)))

watch_requests_example : reconcile_on_prometheus_rule_change listing "loki" "alerts" tt ≡ (
  ok (
      if is_gone listing "loki" "alerts" (ok loki)
      then requests_for (used (namespace_key "loki" "alerts")) tenants
      else requests_for (concerned team_rules "loki" "alerts") tenants),
  tt,
)
watch_requests_example =
    watch_requests listing "loki" "alerts" team_rules (λ s w. refl) tenants (ok loki) tt
      tenants-HasRules refl refl

-- A selector that matches no resource of a team is refused.
abbrev team_answer : LabelSelector → Option (List PrometheusRule)
team_answer s = elim s.match_labels [ [] ↦ none | (key, value) ∷ _ ↦ some (tempo ∷ []) ]

abbrev refused : LabelSelector → Error
refused s = failure "not a valid selector operator"

abbrev bad : LabelSelector
bad = record { match_labels = []; match_expressions = [] }

abbrev failing : Cluster
failing =
    cluster (tenant (select "loki" ∷ []) [] ∷ tenant (bad ∷ []) [] ∷ [])
      (answered team_answer refused)

watch_panics_example : reconcile_on_prometheus_rule_change failing "loki" "alerts" tt ≡ (panic, tt)
watch_panics_example =
    watch_panics failing "loki" "alerts" team_answer refused (λ s w. refl)
      (tenant (select "loki" ∷ []) [] ∷ tenant (bad ∷ []) [] ∷ []) (ok loki) tt refl refl refl
      (inr (inl (inl refl)))
