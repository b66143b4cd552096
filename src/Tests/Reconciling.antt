-- ===== src/Tests/Reconciling.antt =====
-- The reconciliation of a MimirRules, where its status cannot be written.
use mimir_operator.Base.{◌≡◌, ◌⊎◌, refl, string_eq, [], false}
use mimir_operator.Exec.{Error, failure, is_not_found, ok, err, for_each}
use mimir_operator.Auth.{extract_auth}
use mimir_operator.Client.{build_request, credentials, check_response, do_request, new}
use mimir_operator.Ruler.{list_rules_element, delete_namespace}
use mimir_operator.Selection.{find_prometheus_rules, remove_duplicate}
use mimir_operator.Overrides.{apply_overrides}
use mimir_operator.ExternalLabels.{apply_external_labels}
use mimir_operator.Cluster.{Cluster}
use mimir_operator.Sync.{unpack_rules, sync_rules_to_ruler}
use mimir_operator.Reconcile.{NamespacedName, reconcile}
use mimir_operator.Reconcile.Errors.{UpdateFailed, reconcile-err}
use mimir_operator.Tests.Examples.{team_rules, cluster}

abbrev conflict : Error
conflict = failure "the object has been modified"

abbrev contended : Cluster
contended = record (cluster [] (λ s. ok (team_rules s))) {
  update_mimir_rules_status = λ mr w. (err conflict, w);
}

abbrev req : NamespacedName
req = record { namespace = "mimir"; name = "tenant" }

refused : reconcile contended req tt ≡ (err conflict, tt)
unfolding reconcile extract_auth new sync_rules_to_ruler find_prometheus_rules apply_overrides
    unpack_rules apply_external_labels for_each do_request build_request credentials check_response
    list_rules_element remove_duplicate delete_namespace
refused = refl

reconcile-err_example :
    ((contended.get_mimir_rules "mimir" "tenant" tt ≡ (err conflict, tt))
      × (is_not_found conflict ≡ false))
    ⊎ UpdateFailed contended conflict tt
reconcile-err_example = reconcile-err contended req tt tt conflict refused
