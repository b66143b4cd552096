-- ===== src/Reconcile/Errors.antt =====
-- The errors that the reconciliation of a MimirRules returns.
use mimir_operator.Base.{◌≡◌, ◌⊎◌, inl, inr, sym, ◌∙◌, false, Option, none, some}
use mimir_operator.Exec.{continue-eq-err, Error, Outcome, ok, err, is_not_found}
use mimir_operator.Domain.{MimirRules}
use mimir_operator.Client.{MimirClient}
use mimir_operator.Cluster.{Cluster}
use mimir_operator.Controller.Errors
use mimir_operator.Controller.Errors.{Sources}
use mimir_operator.Controller.Instances.{rules, rules-reconcile}
use mimir_operator.Sync.{sync_rules_to_ruler}
use mimir_operator.Reconcile.{
  NamespacedName, with_status, set_status, then_status, handle_creation_and_changes, reconcile,
}

module _ (C : Cluster) where
  open C use {World}

  -- An update of a MimirRules or of its status gives this error and this world.
  abbrev pub UpdateFailed : Error → World → Type 0
  UpdateFailed e w' =
      (mr : MimirRules) × (w : World) × ((C.update_mimir_rules mr w ≡ (err e, w'))
        ⊎ (C.update_mimir_rules_status mr w ≡ (err e, w')))

  set_status-err :
      (mr : MimirRules) (report : Option Error) (w w' : World) (e : Error)
      → set_status C mr report w ≡ (err e, w')
      → UpdateFailed e w'
  unfolding set_status
  set_status-err mr report w w' e h =
      elim (continue-eq-err (C.update_mimir_rules_status (with_status C mr report) w) _ h) [
        | inl failed ↦ (with_status C mr report, w, inr failed)
        | inr (_, _, _, done) ↦ absurd (cc)
      ]

  then_status-err :
      (p : Outcome (Unit {0}) × (MimirRules × World)) (w' : World) (e : Error)
      → then_status C p ≡ (err e, w')
      → UpdateFailed e w'
  then_status-err (ok _, (mr, w)) w' e h = set_status-err mr none w w' e h
  then_status-err (err f, (mr, w)) w' e h = set_status-err mr (some f) w w' e h
  then_status-err (Outcome.panic, (mr, w)) w' e h = absurd (cc)

  handle_creation_and_changes-err :
      (mr : MimirRules) (r : MimirClient) (w w' : World) (e : Error)
      → handle_creation_and_changes C mr r w ≡ (err e, w')
      → UpdateFailed e w'
  unfolding handle_creation_and_changes
  handle_creation_and_changes-err mr r w w' e h =
      then_status-err (sync_rules_to_ruler C r mr.spec (mr, w)) w' e h

  sources : Sources (rules C) UpdateFailed
  sources = record {
    updates = λ mr w w' e failed. (mr, w, inl failed);
    statuses = set_status-err;
    changes = handle_creation_and_changes-err;
  }

  -- An error that `Reconcile` returns, with the world that it leaves, is what reading the object
  -- gave, for another reason than that it is gone, or what an update of a MimirRules or of its
  -- status gave.
  pub reconcile-err :
      (req : NamespacedName) (w w' : World) (e : Error)
      → reconcile C req w ≡ (err e, w')
      → ((C.get_mimir_rules req.namespace req.name w ≡ (err e, w')) × (is_not_found e ≡ false))
        ⊎ UpdateFailed e w'
  reconcile-err req w w' e h =
      Errors.reconcile-err (rules C) UpdateFailed sources req w w' e
        (sym (rules-reconcile C req w) ∙ h)
