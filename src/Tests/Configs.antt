-- ===== src/Tests/Configs.antt =====
-- The theorems on a MimirAlertManagerConfig, at a cluster with one.
use mimir_operator.Base.{◌≡◌, ◌⊎◌, false, inr, refl, sym, ap, string_eq, true, [], ◌∷◌, none, some}
use mimir_operator.Exec.{Error, failure, is_not_found, ok, err}
use mimir_operator.Cluster.{Cluster}
use mimir_operator.Alertmanager.Errors.{UpdateFailed, reconcile_config-err}
use mimir_operator.Auth.{extract_auth}
use mimir_operator.Domain.{MimirAlertManagerConfig}
use mimir_operator.Client.{MimirClient, build_request, credentials, check_response, do_request, new}
use mimir_operator.Ruler.{create_alertmanager_config, delete_alertmanager_config}
use mimir_operator.Selection.{mem}
use mimir_operator.Reconcile.{is_deleted, create_mimir_client}
use mimir_operator.Controller.{HasFinalizer}
use mimir_operator.Controller.Instances.{configs}
use mimir_operator.Alertmanager.{alert_manager_finalizer, reconcile}
use mimir_operator.Alertmanager.Finalizer.{StoredConfig, Guarded, reconcile_config-Guarded}
use mimir_operator.Alertmanager.Status.{
  ConfigStatusStore, ConfigReported, reconcile_config-Reported,
}
use mimir_operator.Alertmanager.Tenant.{QuietConfigs, reconcile_config-ForTenant}
use mimir_operator.Server.Signed.{ConfigCall}
use mimir_operator.Server.Requests.{Logged, Since}
use mimir_operator.Reconcile.Tenant.{ForTenant}
use mimir_operator.Tests.TwoNamespaces as Two
use mimir_operator.Tests.RulerLaws.{outcome_same}
use mimir_operator.Tests.OneObject.{without}
use mimir_operator.Tests.OneConfig.{
  World, shown, print_config, answer, held_after, cluster, server, req, iff_of, world,
}

pub stored : StoredConfig cluster Two.client server req
unfolding mem
stored = record {
  Kept = λ w. mem alert_manager_finalizer w.finalizers ≡ true;
  got = λ w w' amc e.
      let same : shown w ≡ amc = outcome_same (ap (λ p. p.0) e) in
      let after : w ≡ w' = ap (λ p. p.1) e in
      (
        ap (λ m. m.meta.namespace) (sym same),
        ap (λ m. m.meta.name) (sym same),
        rw (← same, ← after) (λ h. h, λ h. h),
      );
  updated = λ w amc n m. ((λ h. h, λ h. h), iff_of w _ refl);
  added = λ fs. refl;
  reads = λ w. (λ k. k, iff_of w _ refl);
  secrets = λ namespace name w. (λ k. k, iff_of w _ refl);
  statuses = λ amc w. (λ k. k, iff_of w _ refl);
  sends = λ q w k. k;
}

-- The object is being deleted, and the Alertmanager holds a configuration.
abbrev pub leaving : World
leaving = world (some "route: {}") (some 5) (alert_manager_finalizer ∷ [])

kept : stored.Kept leaving
unfolding stored mem
kept = refl

same_client :
    (w₁ w₂ : World) (amc : MimirAlertManagerConfig) (r : MimirClient)
    → cluster.get_config "mimir" "tenant" leaving ≡ (ok amc, w₁)
    → create_mimir_client cluster amc.spec.auth amc.spec.url amc.spec.id amc.meta.namespace w₁
      ≡ (ok r, w₂)
    → r ≡ Two.client
unfolding create_mimir_client extract_auth new
same_client w₁ w₂ amc r got made =
    let same : shown leaving ≡ amc = outcome_same (ap (λ p. p.0) got) in
    let made' = rw (← same) at made in sym (outcome_same (ap (λ p. p.0) made'))

has_ours :
    (w₁ : World) (amc : MimirAlertManagerConfig)
    → cluster.get_config "mimir" "tenant" leaving ≡ (ok amc, w₁)
    → is_deleted amc.meta ≡ true
    → HasFinalizer (configs cluster) amc
unfolding mem
has_ours w₁ amc got deleted =
    let same : shown leaving ≡ amc = outcome_same (ap (λ p. p.0) got) in rw (← same) refl

left :
    ((reconcile cluster req leaving).0 ≡ ok tt)
    × ((reconcile cluster req leaving).1.held ≡ none)
    × ((reconcile cluster req leaving).1.finalizers ≡ [])
unfolding reconcile extract_auth new mem do_request build_request credentials answer held_after
    check_response delete_alertmanager_config without
left = (refl, refl, refl)

reconcile_config-Guarded_example :
    Guarded cluster Two.client server req stored ((reconcile cluster req leaving).1)
reconcile_config-Guarded_example =
    reconcile_config-Guarded cluster Two.client server req stored leaving same_client has_ours
      (inr kept)

pub statuses : ConfigStatusStore cluster Two.client server req
statuses = record {
  status_of = λ w. w.status;
  got = λ w w' amc e.
      let same : shown w ≡ amc = outcome_same (ap (λ p. p.0) e) in
      (ap (λ m. m.meta.namespace) (sym same), ap (λ m. m.meta.name) (sym same));
  written = λ w w' amc amc' named e.
      let after = ap (λ p. p.1) e in
      (ap (λ v. v.status) (sym after), iff_of w w' (ap (λ v. v.held) (sym after)));
  returned = λ w w' amc amc' e.
      let same : amc ≡ amc' = outcome_same (ap (λ p. p.0) e) in
      (
        ap (λ m. m.meta.namespace) (sym same),
        ap (λ m. m.meta.name) (sym same),
        ap (λ m. m.spec) (sym same),
      );
}

-- A new object, and an old configuration.
abbrev pub living : World
living = world (some "old") none []

abbrev after : World
after = (reconcile cluster req living).1

done : reconcile cluster req living ≡ (ok tt, after)
unfolding reconcile extract_auth new mem do_request build_request credentials answer held_after
    check_response create_alertmanager_config print_config
done = refl

made_client :
    (r : MimirClient) (w : World)
    → create_mimir_client cluster (shown living).spec.auth "" "tenant" "mimir" living ≡ (ok r, w)
    → r ≡ Two.client
unfolding create_mimir_client extract_auth new
made_client r w made = sym (outcome_same (ap (λ p. p.0) made))

reconcile_config-Reported_example :
    ConfigReported cluster Two.client server (shown living) (statuses.status_of after) living after
reconcile_config-Reported_example =
    reconcile_config-Reported cluster Two.client server req statuses living living after
      (shown living) refl refl made_client done

logged : Logged cluster
logged = record { requests = λ w. w.requests; sends = λ q w. refl }

quiet : QuietConfigs cluster logged
unfolding logged
quiet = record {
  gets = λ namespace name w. refl;
  updates = λ amc w. refl;
  statuses = λ amc w. refl;
  secrets = λ namespace name w. refl;
}

reconcile_config-ForTenant_example :
    Since cluster logged
      (ForTenant cluster ConfigCall "tenant" "")
      living
      ((reconcile cluster req living).1)
reconcile_config-ForTenant_example =
    reconcile_config-ForTenant cluster logged quiet req living living (shown living) refl

-- The status cannot be written.
abbrev conflict : Error
conflict = failure "the object has been modified"

abbrev contended : Cluster
contended = record cluster { update_config_status = λ amc w. (err conflict, w) }

abbrev stuck : World
stuck = (reconcile contended req living).1

refused : reconcile contended req living ≡ (err conflict, stuck)
unfolding reconcile extract_auth new mem do_request build_request credentials answer held_after
    check_response create_alertmanager_config print_config
refused = refl

reconcile_config-err_example :
    ((contended.get_config "mimir" "tenant" living ≡ (err conflict, stuck))
      × (is_not_found conflict ≡ false))
    ⊎ UpdateFailed contended conflict stuck
reconcile_config-err_example = reconcile_config-err contended req living stuck conflict refused
