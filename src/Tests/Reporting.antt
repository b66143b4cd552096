-- ===== src/Tests/Reporting.antt =====
-- The status after a reconciliation, at a cluster with one MimirRules.
use mimir_operator.Base.{◌≡◌, refl, sym, ap, string_eq, true, false, [], none}
use mimir_operator.Exec.{ok, for_each}
use mimir_operator.Auth.{extract_auth}
use mimir_operator.Client.{MimirClient, build_request, credentials, check_response, do_request, new}
use mimir_operator.Ruler.{create_rule_group_str, list_rules_element, delete_namespace}
use mimir_operator.Selection.{mem, find_prometheus_rules, remove_duplicate}
use mimir_operator.Overrides.{apply_overrides}
use mimir_operator.ExternalLabels.{apply_external_labels}
use mimir_operator.Sync.{unpack_rules, sync_rules_to_ruler}
use mimir_operator.Sync.Visits.{VisitsAll}
use mimir_operator.Reconcile.{create_mimir_client, reconcile}
use mimir_operator.Reconcile.Reported.{StatusStore, Begins, Reported}
use mimir_operator.Reconcile.Status.{reconcile-Reported}
use mimir_operator.Tests.TwoNamespaces as Two
use mimir_operator.Tests.RulerLaws as Laws
use mimir_operator.Tests.OneObject.{World, shown, cluster, server, req, object, same_held}

abbrev pub visits : VisitsAll cluster
visits = record { once = λ w m d. d; same = λ w m key d. refl }

pub statuses : StatusStore cluster Two.client server req
statuses = record {
  status_of = λ w. w.1.status;
  got = λ w w' mr e.
      let same : shown (w.1) ≡ mr = Laws.outcome_same (ap (λ p. p.0) e) in
      (ap (λ m. m.meta.namespace) (sym same), ap (λ m. m.meta.name) (sym same));
  written = λ w w' mr mr' named e.
      let after = ap (λ p. p.1) e in
      (ap (λ v. v.1.status) (sym after), same_held w w' (ap (λ v. v.0) after));
  returned = λ w w' mr mr' e.
      let same : mr ≡ mr' = Laws.outcome_same (ap (λ p. p.0) e) in
      (
        ap (λ m. m.meta.namespace) (sym same),
        ap (λ m. m.meta.name) (sym same),
        ap (λ m. m.spec) (sym same),
        same_held w w' (ap (λ p. p.1.0) e),
      );
  reads = λ w. same_held w _ refl;
  secrets = λ namespace name w. same_held w _ refl;
  lists = λ s w. same_held w _ refl;
}

-- A new object, and a namespace that is no longer wanted.
abbrev living : World
living = ((true, false), object none [])

abbrev after : World
after = (reconcile cluster req living).1

done : reconcile cluster req living ≡ (ok tt, after)
unfolding reconcile extract_auth new mem list_rules_element do_request build_request credentials
    Two.send Two.print check_response for_each Two.listing Two.read delete_namespace
    sync_rules_to_ruler find_prometheus_rules apply_overrides unpack_rules apply_external_labels
    create_rule_group_str Two.print_group remove_duplicate
done = refl

same_client :
    (r : MimirClient) (w : World)
    → create_mimir_client cluster (shown (living.1)).spec.auth "" "tenant" "mimir" living
      ≡ (ok r, w)
    → r ≡ Two.client
unfolding create_mimir_client extract_auth new
same_client r w made = sym (Laws.outcome_same (ap (λ p. p.0) made))

reconcile-Reported_example :
    (w₀ : World) × Begins cluster Two.client server (shown (living.1)) living w₀
    × Reported cluster Two.client server
        (shown (living.1))
        (statuses.status_of after)
        living
        living
        w₀
        after
reconcile-Reported_example =
    reconcile-Reported cluster Two.client server req statuses visits living living after
      (shown (living.1)) refl refl same_client done
