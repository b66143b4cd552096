-- ===== src/Alertmanager.antt =====
-- internal/controller/mimiralertmanagerconfig/mimiralertmanagerconfig_controller.go: the
-- reconciliation of a MimirAlertManagerConfig.
pub mod Server
pub mod Finalizer
pub mod Status
pub mod Tenant
pub mod Errors
pub mod Live
use mimir_operator.Base.{String, not, List, [], Option, none, some, if◌then◌else◌}
use mimir_operator.Exec.{Exec, Error, message, is_not_found, Outcome, ok, err, pure, ◌>>=◌, ◌>>◌}
use mimir_operator.Domain.{MimirAlertManagerConfig}
use mimir_operator.Client.{MimirClient}
use mimir_operator.Ruler.{create_alertmanager_config, delete_alertmanager_config}
use mimir_operator.Cluster.{Cluster}
use mimir_operator.Reconcile.{NamespacedName, is_deleted, create_mimir_client}

abbrev pub alert_manager_finalizer : String
alert_manager_finalizer = "mimir.randgen.xyz/finalizer"

module _ (C : Cluster) where
  open C use {World, net, yaml, send}

  unfoldable pub with_status : MimirAlertManagerConfig → Option Error → MimirAlertManagerConfig
  with_status amc none = record amc {
    status = record (amc.status) { status = "Synced"; error = "" };
  }
  with_status amc (some e) = record amc {
    status = record (amc.status) { status = "Failed"; error = message e };
  }

  unfoldable pub set_status : MimirAlertManagerConfig → Option Error → Exec World (Unit {0})
  unfolding with_status
  set_status amc e = do C.update_config_status (with_status amc e); pure tt

  abbrev pub then_status :
      MimirAlertManagerConfig → Outcome (Unit {0}) × World → Outcome (Unit {0}) × World
  then_status amc (ok _, w) = set_status amc none w
  then_status amc (err e, w) = set_status amc (some e) w
  then_status amc (Outcome.panic, w) = (Outcome.panic, w)

  -- With `reconcileAMConfig`, which sends no templates.
  unfoldable pub handle_creation_and_changes :
      MimirAlertManagerConfig → MimirClient → Exec World (Unit {0})
  unfolding set_status
  handle_creation_and_changes amc mc w =
      then_status amc (create_alertmanager_config net yaml send mc amc.spec.config [] w)

  abbrev pub with_finalizers : MimirAlertManagerConfig → List String → MimirAlertManagerConfig
  with_finalizers amc fs = record amc { meta = record (amc.meta) { finalizers = fs } }

  -- After `handleDeletion`.
  abbrev pub after_deletion :
      MimirAlertManagerConfig → Outcome (Unit {0}) × World → Outcome (Unit {0}) × World
  after_deletion amc (ok _, w) =
      (do
        C.update_config
            (with_finalizers amc (C.remove_finalizer amc.meta.finalizers alert_manager_finalizer))
        pure tt)
        w
  after_deletion amc (err e, w) = set_status amc (some e) w
  after_deletion amc (Outcome.panic, w) = (Outcome.panic, w)

  unfoldable pub ensure_finalizer : MimirAlertManagerConfig → Exec World MimirAlertManagerConfig
  ensure_finalizer amc =
      if C.contains_finalizer amc.meta.finalizers alert_manager_finalizer
      then pure amc
      else C.update_config
          (with_finalizers amc (C.add_finalizer amc.meta.finalizers alert_manager_finalizer))

  -- The rest of `Reconcile`, once there is a client.
  unfoldable pub reconcile_with : MimirAlertManagerConfig → MimirClient → Exec World (Unit {0})
  unfolding ensure_finalizer set_status handle_creation_and_changes
  reconcile_with amc mc w =
      if not (is_deleted amc.meta)
      then (do amc' ← ensure_finalizer amc; handle_creation_and_changes amc' mc) w
      else if C.contains_finalizer amc.meta.finalizers alert_manager_finalizer
      then after_deletion amc (delete_alertmanager_config net yaml send mc w)
      else handle_creation_and_changes amc mc w

  abbrev pub with_client :
      MimirAlertManagerConfig → Outcome MimirClient × World → Outcome (Unit {0}) × World
  with_client amc (ok mc, w) = reconcile_with amc mc w
  with_client amc (err e, w) = set_status amc (some e) w
  with_client amc (Outcome.panic, w) = (Outcome.panic, w)

  -- What follows the `Get`.
  abbrev pub with_object : Outcome MimirAlertManagerConfig × World → Outcome (Unit {0}) × World
  with_object (ok amc, w) =
      with_client amc
        (create_mimir_client C amc.spec.auth amc.spec.url amc.spec.id amc.meta.namespace w)
  with_object (err e, w) = (if is_not_found e then ok tt else err e, w)
  with_object (Outcome.panic, w) = (Outcome.panic, w)

  unfoldable pub reconcile : NamespacedName → Exec World (Unit {0})
  unfolding reconcile_with create_mimir_client set_status
  reconcile req w = with_object (C.get_config req.namespace req.name w)
