-- ===== src/Tests/Tracking.antt =====
-- A synchronisation, and then the deletion of a resource that it selected.
use mimir_operator.Base.{◌≡◌, inl, refl, string_eq, true, false, List, [], ◌∷◌, none}
use mimir_operator.Exec.{Error, not_found, is_not_found, ok, err, for_each}
use mimir_operator.Domain.{MimirRules}
use mimir_operator.Client.{build_request, credentials, check_response, do_request}
use mimir_operator.Ruler.{create_rule_group_str, list_rules_element, delete_namespace}
use mimir_operator.Selection.{mem, contains, find_prometheus_rules, remove_duplicate}
use mimir_operator.Overrides.{apply_overrides}
use mimir_operator.ExternalLabels.{apply_external_labels}
use mimir_operator.Cluster.{Cluster}
use mimir_operator.Sync.{unpack_rules, sync_rules_to_ruler}
use mimir_operator.Sync.Visits.{VisitsAll}
use mimir_operator.Reconcile.{NamespacedName}
use mimir_operator.Watch.{reconcile_on_prometheus_rule_change}
use mimir_operator.Watch.Tracked.{Requests, watch_deleted-tracked}
use mimir_operator.Tests.Examples.{tempo}
use mimir_operator.Tests.TwoNamespaces as Two
use mimir_operator.Tests.OneObject
use mimir_operator.Tests.OneObject.{World, shown, object}

abbrev gone : Error
gone = not_found "the resource"

-- The resource is deleted.
abbrev cluster : Cluster
cluster = record (OneObject.cluster) { get_prometheus_rule = λ namespace name w. (err gone, w) }

visits : VisitsAll cluster
visits = record { once = λ w m d. d; same = λ w m key d. refl }

abbrev before : World
before = ((true, false), object none [])

abbrev mr : MimirRules
mr = shown (before.1)

-- What the synchronisation leaves.
abbrev item : MimirRules
item = record mr { status = record (mr.status) { ref_rules = "tempo_alerts" ∷ [] } }

abbrev after : World
after = (sync_rules_to_ruler cluster Two.client mr.spec (mr, before)).1.1

ran : sync_rules_to_ruler cluster Two.client mr.spec (mr, before) ≡ (ok tt, (item, after))
unfolding mem list_rules_element do_request build_request credentials Two.send Two.print
    check_response for_each Two.listing Two.read delete_namespace sync_rules_to_ruler
    find_prometheus_rules apply_overrides unpack_rules apply_external_labels create_rule_group_str
    Two.print_group remove_duplicate
ran = refl

abbrev later : World
later = (after.0, record (before.1) { status = item.status })

watch_deleted-tracked_example :
    (requests : List NamespacedName) × (reconcile_on_prometheus_rule_change cluster "tempo" "alerts"
        later
      ≡ (ok requests, later))
    × Requests item requests
unfolding find_prometheus_rules contains is_not_found
watch_deleted-tracked_example =
    watch_deleted-tracked cluster Two.client mr.spec mr item item before after later later later
      (tempo ∷ []) (item ∷ []) "tempo" "alerts" gone visits ran (_, before, refl, refl) refl
      (inl refl) refl refl refl refl
