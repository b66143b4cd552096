-- ===== src/Tests/Finalizers.antt =====
-- The theorem on the finalizer, at a cluster with one MimirRules and a ruler with two namespaces.
use mimir_operator.Base.{◌≡◌, inr, refl, sym, ap, string_eq, true, false, [], ◌∷◌, some}
use mimir_operator.Exec.{ok, for_each}
use mimir_operator.Auth.{extract_auth}
use mimir_operator.Domain.{MimirRules}
use mimir_operator.Client.{MimirClient, build_request, credentials, check_response, do_request, new}
use mimir_operator.Ruler.{create_rule_group_str, list_rules_element, delete_namespace}
use mimir_operator.Selection.{mem, find_prometheus_rules, remove_duplicate}
use mimir_operator.Overrides.{apply_overrides}
use mimir_operator.ExternalLabels.{apply_external_labels}
use mimir_operator.Server.Calls.{iff_refl}
use mimir_operator.Sync.{unpack_rules, sync_rules_to_ruler, delete_rules_for_tenant}
use mimir_operator.Reconcile.{mimir_finalizer, is_deleted, create_mimir_client, reconcile}
use mimir_operator.Reconcile.Finalizer.{Guarded, reconcile-Guarded}
use mimir_operator.Reconcile.Stored.{HasFinalizer, Stored}
use mimir_operator.Tests.TwoNamespaces as Two
use mimir_operator.Tests.RulerLaws as Laws
use mimir_operator.Tests.OneObject.{World, shown, without, cluster, server, req, object, same_held}

pub stored : Stored cluster Two.client server req
unfolding mem
stored = record {
  Kept = λ w. mem mimir_finalizer (w.1.finalizers) ≡ true;
  got = λ w w' mr e.
      let same : shown (w.1) ≡ mr = Laws.outcome_same (ap (λ p. p.0) e) in
      let after : w ≡ w' = ap (λ p. p.1) e in
      (
        ap (λ m. m.meta.namespace) (sym same),
        ap (λ m. m.meta.name) (sym same),
        rw (← same, ← after) iff_refl,
      );
  updated = λ w mr n m. (iff_refl, same_held w _ refl);
  added = λ fs. refl;
  reads = λ w. (λ k. k, same_held w _ refl);
  secrets = λ namespace name w. (λ k. k, same_held w _ refl);
  lists = λ s w. (λ k. k, same_held w _ refl);
  statuses = λ mr w. (λ k. k, same_held w _ refl);
  sends = λ q w k. k;
}

pub kept_same : (w w' : World) → w'.1.finalizers ≡ w.1.finalizers → stored.Kept w → stored.Kept w'
unfolding stored
kept_same w w' e k = rw e k

pub kept_mem : (w : World) → stored.Kept w → mem mimir_finalizer (w.1.finalizers) ≡ true
unfolding stored
kept_mem w k = k

-- The object is being deleted, and the ruler holds a group in both namespaces.
abbrev leaving : World
leaving = ((true, true), object (some 5) (mimir_finalizer ∷ []))

kept : stored.Kept leaving
unfolding stored mem
kept = refl

same_client :
    (w₁ w₂ : World) (mr : MimirRules) (r : MimirClient)
    → cluster.get_mimir_rules "mimir" "tenant" leaving ≡ (ok mr, w₁)
    → create_mimir_client cluster mr.spec.auth mr.spec.url mr.spec.id mr.meta.namespace w₁
      ≡ (ok r, w₂)
    → r ≡ Two.client
unfolding create_mimir_client extract_auth new
same_client w₁ w₂ mr r got made =
    let same : shown (leaving.1) ≡ mr = Laws.outcome_same (ap (λ p. p.0) got) in
    let made' = rw (← same) at made in sym (Laws.outcome_same (ap (λ p. p.0) made'))

has_ours :
    (w₁ : World) (mr : MimirRules)
    → cluster.get_mimir_rules "mimir" "tenant" leaving ≡ (ok mr, w₁)
    → is_deleted mr.meta ≡ true
    → HasFinalizer cluster mr
unfolding mem
has_ours w₁ mr got deleted =
    let same : shown (leaving.1) ≡ mr = Laws.outcome_same (ap (λ p. p.0) got) in rw (← same) refl

left :
    ((reconcile cluster req leaving).0 ≡ ok tt)
    × ((reconcile cluster req leaving).1.0 ≡ (false, false))
    × ((reconcile cluster req leaving).1.1.finalizers ≡ [])
unfolding reconcile extract_auth new delete_rules_for_tenant mem list_rules_element do_request
    build_request credentials Two.send Two.print check_response for_each Two.listing Two.read
    delete_namespace without
left = (refl, refl, refl)

reconcile-Guarded_example :
    Guarded cluster Two.client server req stored ((reconcile cluster req leaving).1)
reconcile-Guarded_example =
    reconcile-Guarded cluster Two.client server req stored leaving same_client has_ours (inr kept)

-- An object that is being deleted and has lost the finalizer is synchronised once more.
abbrev lingering : World
lingering = ((false, false), object (some 5) ("other" ∷ []))

resynchronised :
    ((reconcile cluster req lingering).1.0 ≡ (false, true))
    × ((reconcile cluster req lingering).1.1.finalizers ≡ ("other" ∷ []))
unfolding reconcile extract_auth new delete_rules_for_tenant mem list_rules_element do_request
    build_request credentials Two.send Two.print check_response for_each Two.listing Two.read
    delete_namespace sync_rules_to_ruler find_prometheus_rules apply_overrides unpack_rules
    apply_external_labels create_rule_group_str Two.print_group remove_duplicate
resynchronised = (refl, refl)
