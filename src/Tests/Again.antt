-- ===== src/Tests/Again.antt =====
-- Synchronisations and reconciliations that follow one another.
use mimir_operator.Base.{
  ◌≡◌, ◌↔◌, refl, sym, ap, String, string_eq, true, false, List, [], ◌∷◌, map, none, some,
}
use mimir_operator.Base.Dict.{Dict}
use mimir_operator.Exec.{ok, for_each}
use mimir_operator.Auth.{extract_auth}
use mimir_operator.Prometheus.{PrometheusRule}
use mimir_operator.Domain.{MimirRules}
use mimir_operator.Client.{build_request, credentials, check_response, do_request, new}
use mimir_operator.Ruler.{RuleGroup, create_rule_group_str, list_rules_element, delete_namespace}
use mimir_operator.Selection.{mem, find_prometheus_rules, remove_duplicate}
use mimir_operator.Overrides.{apply_overrides}
use mimir_operator.ExternalLabels.{apply_external_labels}
use mimir_operator.Server.Calls.{iff_refl}
use mimir_operator.Sync.{unpack_rules, wanted_rules, sync_rules_to_ruler, delete_rules_for_tenant}
use mimir_operator.Sync.Unpacked.{key_of}
use mimir_operator.Sync.Tracked.{Selected, sync_rules_to_ruler-tracks}
use mimir_operator.Sync.Again.{sync_rules_to_ruler-again}
use mimir_operator.Reconcile.{mimir_finalizer, create_mimir_client, reconcile}
use mimir_operator.Reconcile.Stored.{Empty}
use mimir_operator.Reconcile.Reach.{
  OwnClient, OwnDeletion, Step, reconciled, elsewhere, Reach, here, next, reach-Empty,
}
use mimir_operator.Tests.TwoNamespaces as Two
use mimir_operator.Tests.RulerLaws as Laws
use mimir_operator.Tests.OneObject.{
  World, shown, without, cluster, server, req, object, same_held, nothing_held,
}
use mimir_operator.Tests.Reporting.{visits}
use mimir_operator.Tests.Finalizers.{stored, kept_same, kept_mem}

abbrev before : World
before = ((true, false), object none [])

abbrev mr : MimirRules
mr = shown (before.1)

abbrev item : MimirRules
item = record mr { status = record (mr.status) { ref_rules = "tempo_alerts" ∷ [] } }

abbrev after : World
after = (sync_rules_to_ruler cluster Two.client mr.spec (mr, before)).1.1

abbrev again : World
again = (sync_rules_to_ruler cluster Two.client mr.spec (item, after)).1.1

ran : sync_rules_to_ruler cluster Two.client mr.spec (mr, before) ≡ (ok tt, (item, after))
unfolding mem list_rules_element do_request build_request credentials Two.send Two.print
    check_response for_each Two.listing Two.read delete_namespace sync_rules_to_ruler
    find_prometheus_rules apply_overrides unpack_rules apply_external_labels create_rule_group_str
    Two.print_group remove_duplicate
ran = refl

ran_again : sync_rules_to_ruler cluster Two.client mr.spec (item, after) ≡ (ok tt, (item, again))
unfolding mem list_rules_element do_request build_request credentials Two.send Two.print
    check_response for_each Two.listing Two.read delete_namespace sync_rules_to_ruler
    find_prometheus_rules apply_overrides unpack_rules apply_external_labels create_rule_group_str
    Two.print_group remove_duplicate
ran_again = refl

abbrev unpacked : Dict String
unpacked = ("tempo_alerts", "alerts") ∷ []

wanted : (w : World) → wanted_rules cluster mr.spec w ≡ (ok unpacked, w)
unfolding wanted_rules find_prometheus_rules apply_overrides unpack_rules apply_external_labels
wanted w = refl

sync_rules_to_ruler-tracks_example :
    (found : List PrometheusRule) × Selected cluster mr.spec before found
    × ((a : String) → mem a item.status.ref_rules ≡ mem a (map key_of found))
sync_rules_to_ruler-tracks_example =
    sync_rules_to_ruler-tracks cluster Two.client mr.spec mr item before after visits ran

sync_rules_to_ruler-again_example :
    ((namespace : String) (x : RuleGroup)
      → server.Holds again namespace x ↔ server.Holds after namespace x)
    × (item.status.ref_rules ≡ item.status.ref_rules)
sync_rules_to_ruler-again_example =
    sync_rules_to_ruler-again cluster Two.client server mr.spec mr item item item before after after
      again before after unpacked visits (wanted before) ran (wanted after)
      (λ namespace x. iff_refl) ran_again

own_client : (w : World) → OwnClient cluster Two.client server req stored w
unfolding create_mimir_client extract_auth new
own_client w w₁ w₂ mr r got made =
    let same : shown (w.1) ≡ mr = Laws.outcome_same (ap (λ p. p.0) got) in
    let made' = rw (← same) at made in sym (Laws.outcome_same (ap (λ p. p.0) made'))

-- A new object is synchronised, then deleted, then released.
abbrev first : World
first = ((false, false), object none [])

abbrev synced : World
synced = (reconcile cluster req first).1

abbrev deleted : World
deleted = (synced.0, record (synced.1) { deletion_timestamp = some 5 })

abbrev released : World
released = (reconcile cluster req deleted).1

live_first : OwnDeletion cluster Two.client server req stored first
live_first w₁ mr got deleted =
    let same : shown (first.1) ≡ mr = Laws.outcome_same (ap (λ p. p.0) got) in
    let deleted' = rw (← same) at deleted in absurd (cc)

has : mem mimir_finalizer (deleted.1.finalizers) ≡ true
unfolding reconcile extract_auth new mem list_rules_element do_request build_request credentials
    Two.send Two.print check_response for_each Two.listing Two.read delete_namespace
    sync_rules_to_ruler find_prometheus_rules apply_overrides unpack_rules apply_external_labels
    create_rule_group_str Two.print_group remove_duplicate
has = refl

has_deleted : OwnDeletion cluster Two.client server req stored deleted
has_deleted w₁ mr got gone =
    let same : shown (deleted.1) ≡ mr = Laws.outcome_same (ap (λ p. p.0) got) in rw (← same) has

none_left : released.1.finalizers ≡ []
unfolding reconcile extract_auth new mem list_rules_element do_request build_request credentials
    Two.send Two.print check_response for_each Two.listing Two.read delete_namespace
    sync_rules_to_ruler find_prometheus_rules apply_overrides unpack_rules apply_external_labels
    create_rule_group_str Two.print_group remove_duplicate delete_rules_for_tenant without
none_left = refl

not_kept : ¬ stored.Kept released
unfolding mem
not_kept h = let h' = rw none_left at (kept_mem released h) in absurd (cc)

gone : Step cluster Two.client server req stored synced deleted
gone = elsewhere (kept_same synced deleted refl, same_held synced deleted refl)

abbrev steps : Reach cluster Two.client server req stored first released
steps =
    next (reconciled (own_client first) live_first)
      (next gone (next (reconciled (own_client deleted) has_deleted) here))

reach-Empty_example : Empty cluster Two.client server released
reach-Empty_example =
    reach-Empty cluster Two.client server req stored steps (nothing_held (object none [])) not_kept
