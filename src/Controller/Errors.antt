-- ===== src/Controller/Errors.antt =====
-- The errors that a reconciliation returns, for both controllers.
use mimir_operator.Base.{◌≡◌, ◌⊎◌, inl, inr, sym, ap, ap₂, ◌∙◌, false, Bool-cases, Option, some}
use mimir_operator.Exec.{Error, Outcome, ok, err, is_not_found, continue-eq-err}
use mimir_operator.Client.{MimirClient}
use mimir_operator.Cluster.{Cluster}
use mimir_operator.Reconcile.{NamespacedName, is_deleted}
use mimir_operator.Controller.{
  Controller, added, removed, after_deletion, ensure_finalizer, reconcile_with, with_client,
  with_object, reconcile,
}

err_same :
    {W A : Type 0} {f e : Error} {w w' : W}
    → ◌≡◌ {A = Outcome A × W} (err f, w) (err e, w')
    → (f ≡ e) × (w ≡ w')
err_same h = (cc, ap (λ p. p.1) h)

module _ {C : Cluster} (K : Controller C) (Failed : Error → C.World → Type 0) where
  open C use {World}
  open K use {Object, meta, set_status, make_client, change}

  -- The errors of the calls that a reconciliation passes on.
  pub record Sources : Type 0 where
    pub updates : (o : Object) (w w' : World) (e : Error) → K.update o w ≡ (err e, w') → Failed e w'
    pub statuses :
        (o : Object) (report : Option Error) (w w' : World) (e : Error)
        → set_status o report w ≡ (err e, w')
        → Failed e w'
    pub changes :
        (o : Object) (r : MimirClient) (w w' : World) (e : Error)
        → change o r w ≡ (err e, w')
        → Failed e w'

  module _ (F : Sources) where
    after_deletion-err :
        (o : Object) (p : Outcome (Unit {0}) × World) (w' : World) (e : Error)
        → after_deletion K o p ≡ (err e, w')
        → Failed e w'
    after_deletion-err o (ok _, w) w' e h = elim (continue-eq-err (K.update (removed K o) w) _ h) [
      | inl failed ↦ F.updates (removed K o) w w' e failed
      | inr (_, _, _, done) ↦ absurd (cc)
    ]
    after_deletion-err o (err f, w) w' e h = F.statuses o (some f) w w' e h
    after_deletion-err o (Outcome.panic, w) w' e h = absurd (cc)

    reconcile_with-err :
        (o : Object) (r : MimirClient) (w w' : World) (e : Error)
        → reconcile_with K o r w ≡ (err e, w')
        → Failed e w'
    unfolding reconcile_with ensure_finalizer
    reconcile_with-err o r w w' e h =
        elim (Bool-cases (C.contains_finalizer (meta o).finalizers K.finalizer)) [
          | inl has ↦ elim (Bool-cases (is_deleted (meta o))) [
            | inl deleted ↦ after_deletion-err o (K.delete o r w) w' e (rw (deleted, has) at h)
            | inr live ↦ F.changes o r w w' e (rw (live, has) at h)
          ]
          | inr lacks ↦ elim (Bool-cases (is_deleted (meta o))) [
            | inl deleted ↦ F.changes o r w w' e (rw (deleted, lacks) at h)
            | inr live ↦ elim (continue-eq-err (K.update (added K o) w) _ (rw (live, lacks) at h)) [
              | inl failed ↦ F.updates (added K o) w w' e failed
              | inr (o', w₁, _, h₁) ↦ F.changes o' r w₁ w' e h₁
            ]
          ]
        ]

    with_client-err :
        (o : Object) (p : Outcome MimirClient × World) (w' : World) (e : Error)
        → with_client K o p ≡ (err e, w')
        → Failed e w'
    with_client-err o (ok r, w) w' e h = reconcile_with-err o r w w' e h
    with_client-err o (err f, w) w' e h = F.statuses o (some f) w w' e h
    with_client-err o (Outcome.panic, w) w' e h = absurd (cc)

    with_object-err :
        (p : Outcome Object × World) (w' : World) (e : Error)
        → with_object K p ≡ (err e, w')
        → ((p ≡ (err e, w')) × (is_not_found e ≡ false)) ⊎ Failed e w'
    with_object-err (ok o, w) w' e h = inr (with_client-err o (make_client o w) w' e h)
    with_object-err (err f, w) w' e h = elim (Bool-cases (is_not_found f)) [
      | inl gone ↦ absurd (let h' = rw gone at h in cc)
      | inr there ↦
          let (same, after) = err_same (rw there at h) in
          inl (ap₂ (λ e w. (err e, w)) same after, ap is_not_found (sym same) ∙ there)
    ]
    with_object-err (Outcome.panic, w) w' e h = absurd (cc)

    pub reconcile-err :
        (req : NamespacedName) (w w' : World) (e : Error)
        → reconcile K req w ≡ (err e, w')
        → ((K.get req.namespace req.name w ≡ (err e, w')) × (is_not_found e ≡ false)) ⊎ Failed e w'
    unfolding reconcile
    reconcile-err req w w' e h = with_object-err (K.get req.namespace req.name w) w' e h
