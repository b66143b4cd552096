-- ===== src/Controller/Instances.antt =====
-- The two controllers, as the code has them.
use mimir_operator.Base.{◌≡◌, refl}
use mimir_operator.Domain.{MimirRules, MimirAlertManagerConfig}
use mimir_operator.Ruler.{delete_alertmanager_config}
use mimir_operator.Cluster.{Cluster}
use mimir_operator.Sync.{delete_rules_for_tenant}
use mimir_operator.Reconcile
use mimir_operator.Reconcile.{NamespacedName}
use mimir_operator.Alertmanager
use mimir_operator.Controller
use mimir_operator.Controller.{Controller}

abbrev pub rules : (C : Cluster) → Controller C
rules C = record {
  Object = MimirRules;
  meta = λ mr. mr.meta;
  with_finalizers = Reconcile.with_finalizers C;
  finalizer = Reconcile.mimir_finalizer;
  get = C.get_mimir_rules;
  update = C.update_mimir_rules;
  set_status = Reconcile.set_status C;
  make_client =
      λ mr. Reconcile.create_mimir_client C mr.spec.auth mr.spec.url mr.spec.id mr.meta.namespace;
  change = Reconcile.handle_creation_and_changes C;
  delete = delete_rules_for_tenant C;
}

pub rules-reconcile :
    (C : Cluster) (req : NamespacedName) (w : C.World)
    → Reconcile.reconcile C req w ≡ Controller.reconcile (rules C) req w
unfolding Reconcile.reconcile Controller.reconcile Reconcile.reconcile_with
    Reconcile.ensure_finalizer
rules-reconcile C req w = refl

abbrev pub configs : (C : Cluster) → Controller C
configs C = record {
  Object = MimirAlertManagerConfig;
  meta = λ amc. amc.meta;
  with_finalizers = Alertmanager.with_finalizers C;
  finalizer = Alertmanager.alert_manager_finalizer;
  get = C.get_config;
  update = C.update_config;
  set_status = Alertmanager.set_status C;
  make_client = λ amc.
      Reconcile.create_mimir_client C amc.spec.auth amc.spec.url amc.spec.id amc.meta.namespace;
  change = Alertmanager.handle_creation_and_changes C;
  delete = λ amc mc. delete_alertmanager_config C.net C.yaml C.send mc;
}

pub configs-reconcile :
    (C : Cluster) (req : NamespacedName) (w : C.World)
    → Alertmanager.reconcile C req w ≡ Controller.reconcile (configs C) req w
unfolding Alertmanager.reconcile Controller.reconcile Alertmanager.reconcile_with
    Alertmanager.ensure_finalizer
configs-reconcile C req w = refl
