-- ===== src/Alertmanager/Status.antt =====
-- What the status of a MimirAlertManagerConfig says after a reconciliation, and what Mimir holds
-- then.
use mimir_operator.Base.{
  ◌≡◌, ◌↔◌, ◌⊎◌, inl, inr, refl, sym, ap, ◌∙◌, false, [], Option, none, some, Bool-cases,
}
use mimir_operator.Exec.{Error, message, Outcome, ok, err, continue-eq-ok}
use mimir_operator.Domain.{MimirAlertManagerConfig, MimirAlertManagerConfigStatus}
use mimir_operator.Client.{MimirClient}
use mimir_operator.Ruler.{ConfigCompat, create_alertmanager_config}
use mimir_operator.Cluster.{Cluster}
use mimir_operator.Server.Calls.{iff_trans}
use mimir_operator.Reconcile.{is_deleted, create_mimir_client, NamespacedName}
use mimir_operator.Alertmanager.{
  alert_manager_finalizer, with_status, set_status, then_status, handle_creation_and_changes,
  with_finalizers, ensure_finalizer, reconcile_with, with_client, reconcile,
}
use mimir_operator.Alertmanager.Server.{AlertServer, config_of, create_alertmanager_config-Holds}

module _ (C : Cluster) (r : MimirClient) (S : AlertServer C r) where
  open C use {World, net, yaml, send}
  open S use {Holds}

  abbrev pub NamedConfig : NamespacedName → MimirAlertManagerConfig → Type 0
  NamedConfig req amc = (amc.meta.namespace ≡ req.namespace) × (amc.meta.name ≡ req.name)

  -- What is relied on of Kubernetes: an update of the status stores it and leaves Mimir alone, and
  -- an update gives the object back under its name and with its specification.
  pub record ConfigStatusStore (req : NamespacedName) : Type 0 where
    pub status_of : World → MimirAlertManagerConfigStatus
    pub got :
        (w w' : World) (amc : MimirAlertManagerConfig)
        → C.get_config req.namespace req.name w ≡ (ok amc, w')
        → NamedConfig req amc
    pub written :
        (w w' : World) (amc amc' : MimirAlertManagerConfig)
        → NamedConfig req amc
        → C.update_config_status amc w ≡ (ok amc', w')
        → (status_of w' ≡ amc.status) × ((x : ConfigCompat) → Holds w' x ↔ Holds w x)
    pub returned :
        (w w' : World) (amc amc' : MimirAlertManagerConfig)
        → C.update_config amc w ≡ (ok amc', w')
        → (amc'.meta.namespace ≡ amc.meta.namespace)
          × (amc'.meta.name ≡ amc.meta.name)
          × (amc'.spec ≡ amc.spec)

  abbrev pub client_of : MimirAlertManagerConfig → World → Outcome MimirClient × World
  client_of amc = create_mimir_client C amc.spec.auth amc.spec.url amc.spec.id amc.meta.namespace

  -- The making of the client, or the request, failed with this error.
  abbrev pub ConfigFailure : MimirAlertManagerConfig → World → Error → Type 0
  ConfigFailure amc w₁ e =
      ((w₂ : World) × (client_of amc w₁ ≡ (err e, w₂)))
      ⊎ ((w₂ w₃ : World) × (create_alertmanager_config net yaml send r amc.spec.config [] w₂
            ≡ (err e, w₃)))

  abbrev pub ConfigReported :
      MimirAlertManagerConfig → MimirAlertManagerConfigStatus → World → World → Type 0
  ConfigReported amc st w₁ w' =
      ((st.status ≡ "Synced")
        × (st.error ≡ "")
        × ((x : ConfigCompat) → Holds w' x ↔ (x ≡ config_of C r amc.spec.config)))
      ⊎ ((st.status ≡ "Failed") × (e : Error) × (st.error ≡ message e) × ConfigFailure amc w₁ e)

  module _ (req : NamespacedName) (K : ConfigStatusStore req) where
    open K use {status_of}

    set_status-ok :
        (amc : MimirAlertManagerConfig) (e : Option Error) (w w' : World)
        → NamedConfig req (with_status C amc e)
        → set_status C amc e w ≡ (ok tt, w')
        → (status_of w' ≡ (with_status C amc e).status)
          × ((x : ConfigCompat) → Holds w' x ↔ Holds w x)
    unfolding set_status
    set_status-ok amc e w w' named h =
        let (amc', w₁, wrote, done) =
          continue-eq-ok (C.update_config_status (with_status C amc e) w) _ h in
        let same : w₁ ≡ w' = ap (λ p. p.1) done in
        K.written w w' (with_status C amc e) amc' named (rw same at wrote)

    failed_Reported :
        (amc amc' : MimirAlertManagerConfig) (e : Error) (w₁ w₂ w' : World)
        → NamedConfig req amc'
        → set_status C amc' (some e) w₂ ≡ (ok tt, w')
        → ConfigFailure amc w₁ e
        → ConfigReported amc (status_of w') w₁ w'
    unfolding with_status
    failed_Reported amc amc' e w₁ w₂ w' named h why =
        let (st, _) = set_status-ok amc' (some e) w₂ w' named h in
        inr (ap (λ s. s.status) st, e, ap (λ s. s.error) st, why)

    then_status-Reported :
        (amc amc' : MimirAlertManagerConfig) (w₁ w₂ : World) (p : Outcome (Unit {0}) × World)
        (w' : World)
        → NamedConfig req amc'
        → create_alertmanager_config net yaml send r amc.spec.config [] w₂ ≡ p
        → then_status C amc' p ≡ (ok tt, w')
        → ConfigReported amc (status_of w') w₁ w'
    unfolding with_status
    then_status-Reported amc amc' w₁ w₂ (ok _, w₃) w' named ran h =
        let (st, same) = set_status-ok amc' none w₃ w' named h in
        let held = create_alertmanager_config-Holds C r S amc.spec.config w₂ w₃ ran in
        inl (ap (λ s. s.status) st, ap (λ s. s.error) st, λ x. iff_trans (same x) (held x))
    then_status-Reported amc amc' w₁ w₂ (err e, w₃) w' named ran h =
        failed_Reported amc amc' e w₁ w₃ w' named h (inr (w₂, w₃, ran))
    then_status-Reported amc amc' w₁ w₂ (Outcome.panic, w₃) w' named ran h = absurd (cc)

    changed_Reported :
        (amc amc' : MimirAlertManagerConfig) (w₁ w₂ w' : World)
        → NamedConfig req amc'
        → amc'.spec ≡ amc.spec
        → handle_creation_and_changes C amc' r w₂ ≡ (ok tt, w')
        → ConfigReported amc (status_of w') w₁ w'
    unfolding handle_creation_and_changes
    changed_Reported amc amc' w₁ w₂ w' named spec h =
        then_status-Reported amc amc' w₁ w₂
          (create_alertmanager_config net yaml send r amc'.spec.config [] w₂) w' named
          (ap (λ s. create_alertmanager_config net yaml send r s.config [] w₂) (sym spec)) h

    reconcile_with-Reported :
        (amc : MimirAlertManagerConfig) (w₁ w₂ w' : World)
        → NamedConfig req amc
        → is_deleted amc.meta ≡ false
        → reconcile_with C amc r w₂ ≡ (ok tt, w')
        → ConfigReported amc (status_of w') w₁ w'
    unfolding reconcile_with ensure_finalizer
    reconcile_with-Reported amc w₁ w₂ w' named live h =
        elim (Bool-cases (C.contains_finalizer amc.meta.finalizers alert_manager_finalizer)) [
          | inl has ↦ changed_Reported amc amc w₁ w₂ w' named refl (rw (live, has) at h)
          | inr lacks ↦
              let with_ours =
                with_finalizers C amc
                  (C.add_finalizer amc.meta.finalizers alert_manager_finalizer) in
              let (amc', w₃, stored, h₁) =
                continue-eq-ok (C.update_config with_ours w₂) _ (rw (live, lacks) at h) in
              let (n, m, spec) = K.returned w₂ w₃ with_ours amc' stored in
              changed_Reported amc amc' w₁ w₃ w' (n ∙ named.0, m ∙ named.1) spec h₁
        ]

    with_client-Reported :
        (amc : MimirAlertManagerConfig) (w₁ : World) (p : Outcome MimirClient × World) (w' : World)
        → NamedConfig req amc
        → is_deleted amc.meta ≡ false
        → client_of amc w₁ ≡ p
        → ((r' : MimirClient) → p.0 ≡ ok r' → r' ≡ r)
        → with_client C amc p ≡ (ok tt, w')
        → ConfigReported amc (status_of w') w₁ w'
    with_client-Reported amc w₁ (ok r', w₂) w' named live made same h =
        reconcile_with-Reported amc w₁ w₂ w' named live (rw (same r' refl) at h)
    with_client-Reported amc w₁ (err e, w₂) w' named live made same h =
        failed_Reported amc amc e w₁ w₂ w' named h (inl (w₂, made))
    with_client-Reported amc w₁ (Outcome.panic, w₂) w' named live made same h = absurd (cc)

    -- Against an Alertmanager that obeys the laws of `AlertServer` and a cluster that obeys those
    -- of `ConfigStatusStore`, where the client that is made for the object is `r`: when `Reconcile`
    -- of a MimirAlertManagerConfig that is not being deleted returns no error, the status that is
    -- stored says Synced with no error, and Mimir holds the configuration of the specification
    -- without templates and no other; or it says Failed with the error that the making of the
    -- client or the request gave.
    pub reconcile_config-Reported :
        (w w₁ w' : World) (amc : MimirAlertManagerConfig)
        → C.get_config req.namespace req.name w ≡ (ok amc, w₁)
        → is_deleted amc.meta ≡ false
        → ((r' : MimirClient) (w₂ : World) → client_of amc w₁ ≡ (ok r', w₂) → r' ≡ r)
        → reconcile C req w ≡ (ok tt, w')
        → ConfigReported amc (status_of w') w₁ w'
    unfolding reconcile
    reconcile_config-Reported w w₁ w' amc got live same h =
        let p = client_of amc w₁ in
        with_client-Reported amc w₁ p w' (K.got w w₁ amc got) live refl
          (λ r' e. same r' (p.1) (ap (λ o. (o, p.1)) e)) (rw got at h)
