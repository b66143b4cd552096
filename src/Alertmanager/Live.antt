-- ===== src/Alertmanager/Live.antt =====
-- A reconciliation of a MimirAlertManagerConfig comes to its end where Mimir and Kubernetes answer.
use mimir_operator.Base.{
  ◌≡◌, ◌↔◌, inl, inr, refl, sym, ap, ◌∙◌, true, false, String, List, [], Option, none, some,
  Bool-cases,
}
use mimir_operator.Exec.{Error, Outcome, ok}
use mimir_operator.Exec.Succeeds.{Succeeds, Returns, Returns-bind}
use mimir_operator.Domain.{MimirAlertManagerConfig, MimirAlertManagerConfigStatus}
use mimir_operator.Client.{Header, MimirClient, credentials}
use mimir_operator.Ruler.{
  ConfigCompat, alertmanager_api_path, create_alertmanager_config, delete_alertmanager_config,
}
use mimir_operator.Cluster.{Cluster}
use mimir_operator.Server.Answering.{Answering, do_request-Succeeds}
use mimir_operator.Reconcile.{is_deleted, create_mimir_client, NamespacedName}
use mimir_operator.Reconcile.Credentials.{create_mimir_client-authorised}
use mimir_operator.Controller.{HasFinalizer}
use mimir_operator.Controller.Instances.{configs}
use mimir_operator.Alertmanager.{
  alert_manager_finalizer, with_status, set_status, then_status, handle_creation_and_changes,
  with_finalizers, ensure_finalizer, reconcile_with, with_client, with_object, reconcile,
}
use mimir_operator.Alertmanager.Server.{AlertServer, config_of, delete_alertmanager_config-Holds}
use mimir_operator.Alertmanager.Finalizer.{Empty, Updated, StoredConfig}
use mimir_operator.Alertmanager.Status.{
  ConfigStatusStore, ConfigReported, client_of, reconcile_config-Reported,
}

module _ (C : Cluster) (r : MimirClient) where
  open C use {World, net, yaml, send}

  -- Kubernetes stores what it is sent.
  pub record StoresConfig : Type 0 where
    pub updates : (amc : MimirAlertManagerConfig) (w : World) → Returns (C.update_config amc) w
    pub statuses :
        (amc : MimirAlertManagerConfig) (w : World) → Returns (C.update_config_status amc) w

  -- The configuration can be printed, and its post is answered with a success.
  abbrev pub AcceptedConfig : Answering C r → String → Type 0
  AcceptedConfig A cfg =
      (payload : String) × (yaml.marshal_config (config_of C r cfg) ≡ ok payload)
      × A.Serves "POST" alertmanager_api_path (some payload)

  module _ (A : Answering C r) (auth : List Header) (allowed : credentials r ≡ ok auth) where
    create_alertmanager_config-Succeeds :
        (cfg : String)
        → AcceptedConfig A cfg
        → Succeeds (create_alertmanager_config net yaml send r cfg [])
    unfolding create_alertmanager_config
    create_alertmanager_config-Succeeds cfg (payload, printed, serves) w =
        let (resp, w', ran) =
          do_request-Succeeds C r A auth allowed alertmanager_api_path "POST" (some payload) serves
            w in
        (tt, w', rw (printed, ran) refl)

    delete_alertmanager_config-Succeeds :
        A.Serves "DELETE" alertmanager_api_path none
        → Succeeds (delete_alertmanager_config net yaml send r)
    unfolding delete_alertmanager_config
    delete_alertmanager_config-Succeeds serves w =
        let (resp, w', ran) =
          do_request-Succeeds C r A auth allowed alertmanager_api_path "DELETE" none serves w in
        (tt, w', rw ran refl)

    module _ (K : StoresConfig) where
      set_status-Returns :
          (amc : MimirAlertManagerConfig) (e : Option Error) (w : World)
          → Returns (set_status C amc e) w
      unfolding set_status
      set_status-Returns amc e w =
          let (amc', w', stored) = K.statuses (with_status C amc e) w in (tt, w', rw stored refl)

      handle_creation_and_changes-Returns :
          (cfg : String) (amc : MimirAlertManagerConfig) (w : World)
          → amc.spec.config ≡ cfg
          → AcceptedConfig A cfg
          → Returns (handle_creation_and_changes C amc r) w
      unfolding handle_creation_and_changes
      handle_creation_and_changes-Returns cfg amc w same accepted =
          let (_, w₁, ran) = create_alertmanager_config-Succeeds cfg accepted w in
          let (a, w', e) = set_status-Returns amc none w₁ in
          (
            a,
            w',
            ap (λ c. then_status C amc (create_alertmanager_config net yaml send r c [] w)) same
                ∙ ap (then_status C amc) ran
                ∙ e,
          )

  module _ (S : AlertServer C r) (req : NamespacedName) where
    module _ (Q : ConfigStatusStore C r S req) (A : Answering C r) (K : StoresConfig) where
      reconcile_with-Returns :
          (auth : List Header) (amc : MimirAlertManagerConfig) (w : World)
          → credentials r ≡ ok auth
          → is_deleted amc.meta ≡ false
          → AcceptedConfig A amc.spec.config
          → Returns (reconcile_with C amc r) w
      unfolding reconcile_with ensure_finalizer
      reconcile_with-Returns auth amc w allowed live accepted =
          elim (Bool-cases (C.contains_finalizer amc.meta.finalizers alert_manager_finalizer)) [
            | inl has ↦
                rw (live, has)
                  (handle_creation_and_changes-Returns A auth allowed K amc.spec.config amc w refl
                    accepted)
            | inr lacks ↦
                let amc₁ =
                  with_finalizers C amc
                    (C.add_finalizer amc.meta.finalizers alert_manager_finalizer) in
                let (amc', w₁, stored) = K.updates amc₁ w in
                let (_, _, spec) = Q.returned w w₁ amc₁ amc' stored in
                rw (live, lacks)
                  (Returns-bind (C.update_config amc₁)
                    (λ amc'. handle_creation_and_changes C amc' r) stored
                    (handle_creation_and_changes-Returns A auth allowed K amc.spec.config amc' w₁
                      (ap (λ s. s.config) spec) accepted))
          ]

      only_synced :
          (auth : List Header) (amc : MimirAlertManagerConfig) (st : MimirAlertManagerConfigStatus)
          (w₁ w₂ w' : World)
          → credentials r ≡ ok auth
          → client_of C r S amc w₁ ≡ (ok r, w₂)
          → AcceptedConfig A amc.spec.config
          → ConfigReported C r S amc st w₁ w'
          → (st.status ≡ "Synced")
            × (st.error ≡ "")
            × ((x : ConfigCompat) → S.Holds w' x ↔ (x ≡ config_of C r amc.spec.config))
      only_synced auth amc st w₁ w₂ w' allowed made accepted (inl synced) = synced
      only_synced auth amc st w₁ w₂ w' allowed made accepted (inr (_, e, _, inl (w₃, failed))) =
          let pair = sym made ∙ failed in absurd (cc)
      only_synced auth amc st w₁ w₂ w' allowed made accepted (inr (_, e, _, inr (w₃, w₄, failed))) =
          let (_, w₅, ran) =
            create_alertmanager_config-Succeeds A auth allowed amc.spec.config accepted w₃ in
          let pair = sym ran ∙ failed in absurd (cc)

      -- Where Mimir answers with a success, as the laws of `Answering` and `AlertServer` say,
      -- Kubernetes stores what it is sent, and the configuration can be printed and is accepted:
      -- `Reconcile` of a MimirAlertManagerConfig that is not being deleted, and for which the
      -- client `r` is made, returns no error, the status that is stored says Synced with no error,
      -- and Mimir holds the configuration of the specification without templates and no other.
      pub reconcile_config-synced :
          (w w₁ w₂ : World) (amc : MimirAlertManagerConfig)
          → C.get_config req.namespace req.name w ≡ (ok amc, w₁)
          → is_deleted amc.meta ≡ false
          → client_of C r S amc w₁ ≡ (ok r, w₂)
          → AcceptedConfig A amc.spec.config
          → (w' : World) × (reconcile C req w ≡ (ok tt, w'))
            × ((Q.status_of w').status ≡ "Synced")
            × ((Q.status_of w').error ≡ "")
            × ((x : ConfigCompat) → S.Holds w' x ↔ (x ≡ config_of C r amc.spec.config))
      unfolding reconcile
      reconcile_config-synced w w₁ w₂ amc got live made accepted =
          let (auth, allowed) =
            create_mimir_client-authorised C amc.spec.auth amc.spec.url amc.spec.id
              amc.meta.namespace w₁ w₂ r made in
          let (_, w', rest) = reconcile_with-Returns auth amc w₂ allowed live accepted in
          let ran : reconcile C req w ≡ (ok tt, w') =
            ap (with_object C) got ∙ ap (with_client C amc) made ∙ rest in
          let same : (r' : MimirClient) (w₃ : World)
              → client_of C r S amc w₁ ≡ (ok r', w₃)
              → r' ≡ r =
            λ r' w₃ made'. let pair = sym made' ∙ made in cc in
          let reported = reconcile_config-Reported C r S req Q w w₁ w' amc got live same ran in
          let (status, error, held) =
            only_synced auth amc (Q.status_of w') w₁ w₂ w' allowed made accepted reported in
          (w', ran, status, error, held)

    module _ (Q : StoredConfig C r S req) (A : Answering C r) (K : StoresConfig) where
      without_finalizer :
          (amc : MimirAlertManagerConfig) (w w' : World)
          (p : Outcome MimirAlertManagerConfig × World) (amc' : MimirAlertManagerConfig)
          → Updated C r S Q.Kept amc w p
          → p ≡ (ok amc', w')
          → C.contains_finalizer amc.meta.finalizers alert_manager_finalizer ≡ false
          → Empty C r S w
          → (¬ Q.Kept w') × Empty C r S w'
      without_finalizer amc w w' p amc' updated e lacks empty =
          let (kept, held) = rw e at updated in
          (λ k. let has = kept.1 k in absurd (cc), λ x h. empty x ((held x).0 h))

      -- Where Mimir answers with a success, as the laws of `Answering` and `AlertServer` say, the
      -- deletion of the configuration too, Kubernetes stores what it is sent, as those of
      -- `StoresConfig` and `StoredConfig` say, and the removal of a finalizer leaves a list without
      -- it: `Reconcile` of a MimirAlertManagerConfig that is being deleted and has the finalizer,
      -- and for which the client `r` is made, returns no error, Mimir holds no configuration for
      -- the tenant, and the object that is stored no longer has the finalizer.
      pub reconcile_config-released :
          (w w₁ w₂ : World) (amc : MimirAlertManagerConfig)
          → A.Serves "DELETE" alertmanager_api_path none
          → ((fs : List String)
              → C.contains_finalizer
                  (C.remove_finalizer fs alert_manager_finalizer)
                  alert_manager_finalizer
                ≡ false)
          → C.get_config req.namespace req.name w ≡ (ok amc, w₁)
          → is_deleted amc.meta ≡ true
          → HasFinalizer (configs C) amc
          → create_mimir_client C amc.spec.auth amc.spec.url amc.spec.id amc.meta.namespace w₁
            ≡ (ok r, w₂)
          → (w' : World) × (reconcile C req w ≡ (ok tt, w')) × Empty C r S w' × (¬ Q.Kept w')
      unfolding reconcile reconcile_with
      reconcile_config-released w w₁ w₂ amc serves removes got deleted has made =
          let (auth, allowed) =
            create_mimir_client-authorised C amc.spec.auth amc.spec.url amc.spec.id
              amc.meta.namespace w₁ w₂ r made in
          let (_, w₃, emptied) = delete_alertmanager_config-Succeeds A auth allowed serves w₂ in
          let amc₁ =
            with_finalizers C amc
              (C.remove_finalizer amc.meta.finalizers alert_manager_finalizer) in
          let (amc', w', stored) = K.updates amc₁ w₃ in
          let (namespace, name, _) = Q.got w w₁ amc got in
          let (gone, empty) =
            without_finalizer amc₁ w₃ w' (C.update_config amc₁ w₃) amc'
              (Q.updated w₃ amc₁ namespace name) stored (removes amc.meta.finalizers)
              (delete_alertmanager_config-Holds C r S w₂ w₃ emptied) in
          (w', rw (got, made, deleted, has, emptied, stored) refl, empty, gone)
