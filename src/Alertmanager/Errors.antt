-- ===== src/Alertmanager/Errors.antt =====
-- The errors that the reconciliation of a MimirAlertManagerConfig returns.
use mimir_operator.Base.{◌≡◌, ◌⊎◌, inl, inr, sym, ◌∙◌, false, [], Option, none, some}
use mimir_operator.Exec.{continue-eq-err, Error, Outcome, ok, err, is_not_found}
use mimir_operator.Domain.{MimirAlertManagerConfig}
use mimir_operator.Client.{MimirClient}
use mimir_operator.Ruler.{create_alertmanager_config}
use mimir_operator.Cluster.{Cluster}
use mimir_operator.Reconcile.{NamespacedName}
use mimir_operator.Controller.Errors
use mimir_operator.Controller.Errors.{Sources}
use mimir_operator.Controller.Instances.{configs, configs-reconcile}
use mimir_operator.Alertmanager.{
  with_status, set_status, then_status, handle_creation_and_changes, reconcile,
}

module _ (C : Cluster) where
  open C use {World}

  -- An update of a MimirAlertManagerConfig or of its status gives this error and this world.
  abbrev pub UpdateFailed : Error → World → Type 0
  UpdateFailed e w' =
      (amc : MimirAlertManagerConfig) × (w : World) × ((C.update_config amc w ≡ (err e, w'))
        ⊎ (C.update_config_status amc w ≡ (err e, w')))

  set_status-err :
      (amc : MimirAlertManagerConfig) (report : Option Error) (w w' : World) (e : Error)
      → set_status C amc report w ≡ (err e, w')
      → UpdateFailed e w'
  unfolding set_status
  set_status-err amc report w w' e h =
      elim (continue-eq-err (C.update_config_status (with_status C amc report) w) _ h) [
        | inl failed ↦ (with_status C amc report, w, inr failed)
        | inr (_, _, _, done) ↦ absurd (cc)
      ]

  then_status-err :
      (amc : MimirAlertManagerConfig) (p : Outcome (Unit {0}) × World) (w' : World) (e : Error)
      → then_status C amc p ≡ (err e, w')
      → UpdateFailed e w'
  then_status-err amc (ok _, w) w' e h = set_status-err amc none w w' e h
  then_status-err amc (err f, w) w' e h = set_status-err amc (some f) w w' e h
  then_status-err amc (Outcome.panic, w) w' e h = absurd (cc)

  handle_creation_and_changes-err :
      (amc : MimirAlertManagerConfig) (r : MimirClient) (w w' : World) (e : Error)
      → handle_creation_and_changes C amc r w ≡ (err e, w')
      → UpdateFailed e w'
  unfolding handle_creation_and_changes
  handle_creation_and_changes-err amc r w w' e h =
      then_status-err amc (create_alertmanager_config C.net C.yaml C.send r amc.spec.config [] w) w'
        e h

  sources : Sources (configs C) UpdateFailed
  sources = record {
    updates = λ amc w w' e failed. (amc, w, inl failed);
    statuses = set_status-err;
    changes = handle_creation_and_changes-err;
  }

  -- An error that `Reconcile` of a MimirAlertManagerConfig returns, with the world that it leaves,
  -- is what reading the object gave, for another reason than that it is gone, or what an update of
  -- a MimirAlertManagerConfig or of its status gave.
  pub reconcile_config-err :
      (req : NamespacedName) (w w' : World) (e : Error)
      → reconcile C req w ≡ (err e, w')
      → ((C.get_config req.namespace req.name w ≡ (err e, w')) × (is_not_found e ≡ false))
        ⊎ UpdateFailed e w'
  reconcile_config-err req w w' e h =
      Errors.reconcile-err (configs C) UpdateFailed sources req w w' e
        (sym (configs-reconcile C req w) ∙ h)
