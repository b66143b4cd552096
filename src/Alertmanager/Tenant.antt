-- ===== src/Alertmanager/Tenant.antt =====
-- The requests that a reconciliation of a MimirAlertManagerConfig sends, and the tenant that they
-- are for.
use mimir_operator.Base.{◌≡◌, refl, sym, ◌∙◌, String, [], Option, none, some}
use mimir_operator.Exec.{Error, Outcome, ok, err}
use mimir_operator.Exec.Keeps.{Keeps, continue-Keeps}
use mimir_operator.Domain.{MimirAlertManagerConfig}
use mimir_operator.Client.{Request, MimirClient}
use mimir_operator.Ruler.{create_alertmanager_config}
use mimir_operator.Cluster.{Cluster}
use mimir_operator.Server.Signed.{Signed, ConfigCall}
use mimir_operator.Server.Requests.{Logged, Since, Since-same, Since-send}
use mimir_operator.Server.Keeps.{create_alertmanager_config-Keeps, delete_alertmanager_config-Keeps}
use mimir_operator.Controller.Keeps.{ApiKeeps, MimirKeeps, reconcile-Keeps}
use mimir_operator.Controller.Instances.{configs, configs-reconcile}
use mimir_operator.Reconcile.{NamespacedName}
use mimir_operator.Reconcile.Calls.{create_mimir_client-Keeps}
use mimir_operator.Reconcile.Tenant.{ForTenant, Signed-ForTenant}
use mimir_operator.Alertmanager.{
  with_status, set_status, then_status, handle_creation_and_changes, reconcile,
}

module _ (C : Cluster) where
  open C use {World, net, yaml, send}

  -- The calls of Kubernetes send nothing to Mimir.
  pub record QuietConfigs (L : Logged C) : Type 0 where
    pub gets :
        (namespace name : String) (w : World)
        → L.requests ((C.get_config namespace name w).1) ≡ L.requests w
    pub updates :
        (amc : MimirAlertManagerConfig) (w : World)
        → L.requests ((C.update_config amc w).1) ≡ L.requests w
    pub statuses :
        (amc : MimirAlertManagerConfig) (w : World)
        → L.requests ((C.update_config_status amc w).1) ≡ L.requests w
    pub secrets :
        (namespace name : String) (w : World)
        → L.requests ((C.get_secret namespace name w).1) ≡ L.requests w

  module _ (L : Logged C) (Q : QuietConfigs L) (T : Request → Type 0) (w : World) where
    abbrev P : World → Type 0
    P = Since C L T w

    set_status-P : (amc : MimirAlertManagerConfig) (e : Option Error) → Keeps P (set_status C amc e)
    unfolding set_status
    set_status-P amc e w₁ h =
        continue-Keeps P (C.update_config_status (with_status C amc e) w₁) _
          (Since-same C L T (Q.statuses (with_status C amc e) w₁) h) (λ _ _ h. h)

    then_status-P :
        (amc : MimirAlertManagerConfig) (p : Outcome (Unit {0}) × World)
        → P (p.1)
        → P ((then_status C amc p).1)
    then_status-P amc (ok _, w₁) h = set_status-P amc none w₁ h
    then_status-P amc (err e, w₁) h = set_status-P amc (some e) w₁ h
    then_status-P amc (Outcome.panic, w₁) h = h

    api : ApiKeeps (configs C) P
    api = record {
      gets = λ namespace name w₁. Since-same C L T (Q.gets namespace name w₁);
      updates = λ amc w₁. Since-same C L T (Q.updates amc w₁);
      statuses = set_status-P;
      clients = λ amc.
          create_mimir_client-Keeps C P (λ a b w₁. Since-same C L T (Q.secrets a b w₁))
            amc.spec.auth amc.spec.url amc.spec.id amc.meta.namespace;
    }

    mimir :
        (amc : MimirAlertManagerConfig) (r : MimirClient)
        → ((q : Request) (s : Signed C r q) → ConfigCall s.method s.path → T q)
        → MimirKeeps (configs C) P amc r
    unfolding handle_creation_and_changes
    mimir amc r t =
        let sends = λ (q : Request) (s : Signed C r q) (c : ConfigCall s.method s.path).
          Since-send C L T w q (t q s c) in
        (
          λ amc' w₁ h.
              then_status-P amc' (create_alertmanager_config net yaml send r amc'.spec.config [] w₁)
                (create_alertmanager_config-Keeps C P r sends amc'.spec.config [] w₁ h),
          delete_alertmanager_config-Keeps C P r sends,
        )

  -- Where the calls of Kubernetes send nothing to Mimir: every request that `Reconcile` of a
  -- MimirAlertManagerConfig sends, whatever is answered and whatever fails, posts or deletes the
  -- configuration at the address of the object; its headers are those of one scheme of
  -- authentication at most, and the tenant of the object, and no other.
  pub reconcile_config-ForTenant :
      (L : Logged C) (Q : QuietConfigs L) (req : NamespacedName) (w w₁ : World)
      (amc : MimirAlertManagerConfig)
      → C.get_config req.namespace req.name w ≡ (ok amc, w₁)
      → Since C L (ForTenant C ConfigCall amc.spec.id amc.spec.url) w ((reconcile C req w).1)
  reconcile_config-ForTenant L Q req w w₁ amc got =
      let T = ForTenant C ConfigCall amc.spec.id amc.spec.url in
      rw (configs-reconcile C req w) (
        reconcile-Keeps (configs C) (Since C L T w) (api L Q T w) req w
          (λ o r w₂ w₃ got' made.
            let pair = sym got ∙ got' in
            let same : amc ≡ o = cc in
            mimir L Q T w o r (λ q s c. rw (← same) at (
              Signed-ForTenant C ConfigCall o.spec.auth o.spec.url o.spec.id o.meta.namespace w₂ w₃
                r made q s c)))
          ([], refl, tt))
