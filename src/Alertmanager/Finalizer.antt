-- ===== src/Alertmanager/Finalizer.antt =====
-- The finalizer of a MimirAlertManagerConfig and the configuration that Mimir holds for its tenant.
use mimir_operator.Base.{◌≡◌, ◌↔◌, ◌⊎◌, String, true, List, [], Option, none, some}
use mimir_operator.Exec.{Error, Outcome, ok, err}
use mimir_operator.Exec.Keeps.{Keeps, continue-Keeps}
use mimir_operator.Domain.{MimirAlertManagerConfig}
use mimir_operator.Client.{Request, MimirClient}
use mimir_operator.Ruler.{ConfigCompat, create_alertmanager_config}
use mimir_operator.Cluster.{Cluster}
use mimir_operator.Server.Keeps.{create_alertmanager_config-Keeps, delete_alertmanager_config-Keeps}
use mimir_operator.Controller.{HasFinalizer}
use mimir_operator.Controller.Guard
use mimir_operator.Controller.Guard.{Facts, Guard, MakesClient, HasOurs}
use mimir_operator.Controller.Instances.{configs, configs-reconcile}
use mimir_operator.Reconcile.{is_deleted, create_mimir_client, NamespacedName}
use mimir_operator.Reconcile.Calls.{create_mimir_client-Keeps}
use mimir_operator.Alertmanager.{
  alert_manager_finalizer, with_status, set_status, then_status, handle_creation_and_changes,
  reconcile,
}
use mimir_operator.Alertmanager.Server.{AlertServer, delete_alertmanager_config-Holds}

module _ (C : Cluster) (r : MimirClient) (S : AlertServer C r) where
  open C use {World}
  open S use {Holds}

  abbrev pub Empty : World → Type 0
  Empty w = (x : ConfigCompat) → ¬ Holds w x

  abbrev pub SameHeld : World → World → Type 0
  SameHeld w w' = (x : ConfigCompat) → Holds w' x ↔ Holds w x

  abbrev pub Same : (World → Type 0) → World → World → Type 0
  Same Kept w w' = (Kept w → Kept w') × SameHeld w w'

  -- An update stores the object that is sent, or changes nothing.
  abbrev pub Updated :
      (World → Type 0)
      → MimirAlertManagerConfig
      → World
      → Outcome MimirAlertManagerConfig × World
      → Type 0
  Updated Kept amc w (ok amc', w') = (HasFinalizer (configs C) amc ↔ Kept w') × SameHeld w w'
  Updated Kept amc w (err e, w') = Same Kept w w'
  Updated Kept amc w (Outcome.panic, w') = Same Kept w w'

  -- As `Stored` of a MimirRules.
  pub record StoredConfig (req : NamespacedName) : Type 1 where
    -- The object that is stored has the finalizer.
    pub Kept : World → Type 0
    pub got :
        (w w' : World) (amc : MimirAlertManagerConfig)
        → C.get_config req.namespace req.name w ≡ (ok amc, w')
        → (amc.meta.namespace ≡ req.namespace)
          × (amc.meta.name ≡ req.name)
          × (HasFinalizer (configs C) amc ↔ Kept w')
    pub updated :
        (w : World) (amc : MimirAlertManagerConfig)
        → amc.meta.namespace ≡ req.namespace
        → amc.meta.name ≡ req.name
        → Updated Kept amc w (C.update_config amc w)
    pub added :
        (fs : List String)
        → C.contains_finalizer (C.add_finalizer fs alert_manager_finalizer) alert_manager_finalizer
          ≡ true
    pub reads : (w : World) → Same Kept w ((C.get_config req.namespace req.name w).1)
    pub secrets :
        (namespace name : String) (w : World) → Same Kept w ((C.get_secret namespace name w).1)
    pub statuses :
        (amc : MimirAlertManagerConfig) (w : World) → Same Kept w ((C.update_config_status amc w).1)
    pub sends : (q : Request) (w : World) → Kept w → Kept ((C.send q w).1)

  module _ (req : NamespacedName) (K : StoredConfig req) where
    open K use {Kept}

    -- Mimir holds no configuration for the tenant, or the object has the finalizer.
    abbrev pub Guarded : World → Type 0
    Guarded w = Empty w ⊎ Kept w

    abbrev facts : Facts (configs C)
    facts = record { Kept = Kept; Empty = Empty }

    same : {w w' : World} → Same Kept w w' → Guard.Same (configs C) facts w w'
    same (kept, held) = (kept, λ empty x h. empty x ((held x).0 h))

    updated_lem :
        (amc : MimirAlertManagerConfig) (w : World) (p : Outcome MimirAlertManagerConfig × World)
        → Updated Kept amc w p
        → Guard.Updated (configs C) facts amc w p
    updated_lem amc w (ok amc', w') (stored, held) = (stored.0, λ empty x h. empty x ((held x).0 h))
    updated_lem amc w (err e, w') s = same s
    updated_lem amc w (Outcome.panic, w') s = same s

    set_status_same :
        (amc : MimirAlertManagerConfig) (e : Option Error) (w : World)
        → Guard.Same (configs C) facts w ((set_status C amc e w).1)
    unfolding set_status
    set_status_same amc e w =
        continue-Keeps (λ w'. Guard.Same (configs C) facts w w')
          (C.update_config_status (with_status C amc e) w) _
          (same (K.statuses (with_status C amc e) w)) (λ _ _ h. h)

    then_status-Kept :
        (amc : MimirAlertManagerConfig) (p : Outcome (Unit {0}) × World)
        → Kept (p.1)
        → Kept ((then_status C amc p).1)
    then_status-Kept amc (ok _, w) h = (set_status_same amc none w).0 h
    then_status-Kept amc (err e, w) h = (set_status_same amc (some e) w).0 h
    then_status-Kept amc (Outcome.panic, w) h = h

    handle_creation_and_changes-Kept :
        (amc : MimirAlertManagerConfig) → Keeps Kept (handle_creation_and_changes C amc r)
    unfolding handle_creation_and_changes
    handle_creation_and_changes-Kept amc w h =
        then_status-Kept amc (create_alertmanager_config C.net C.yaml C.send r amc.spec.config [] w)
          (create_alertmanager_config-Keeps C Kept r (λ q _ _. K.sends q) amc.spec.config [] w h)

    guard : Guard (configs C) facts req r
    guard = record {
      Owned = λ amc. (amc.meta.namespace ≡ req.namespace) × (amc.meta.name ≡ req.name);
      got = λ w w' amc h. let (n, m, stored) = K.got w w' amc h in ((n, m), stored.0);
      owned = λ amc fs own. own;
      updated =
          λ w amc own. updated_lem amc w (C.update_config amc w) (K.updated w amc (own.0) (own.1));
      has_added = λ amc. K.added amc.meta.finalizers;
      reads = λ w. same (K.reads w);
      clients = λ amc w.
          let made =
            λ (P : World → Type 0)
                (kept : (namespace name : String) → Keeps P (C.get_secret namespace name)).
              create_mimir_client-Keeps C P kept amc.spec.auth amc.spec.url amc.spec.id
                amc.meta.namespace w in
          (
            made Kept (λ a b w. (K.secrets a b w).0),
            made Empty (λ a b w. (same (K.secrets a b w)).1),
          );
      statuses = set_status_same;
      changes = handle_creation_and_changes-Kept;
      deletes = λ amc. delete_alertmanager_config-Keeps C Kept r (λ q _ _. K.sends q);
      emptied = λ amc. delete_alertmanager_config-Holds C r S;
    }

    -- Against an Alertmanager that obeys the laws of `AlertServer` and a cluster that obeys those
    -- of `StoredConfig`, where the client that is made for the object is `r`, and the object still
    -- has the finalizer if it is being deleted: if Mimir holds no configuration for the tenant or
    -- the object has the finalizer, then so it is after `Reconcile` of the MimirAlertManagerConfig,
    -- whatever call fails.
    pub reconcile_config-Guarded :
        (w : World)
        → ((w₁ w₂ : World) (amc : MimirAlertManagerConfig) (r' : MimirClient)
            → C.get_config req.namespace req.name w ≡ (ok amc, w₁)
            → create_mimir_client C amc.spec.auth amc.spec.url amc.spec.id amc.meta.namespace w₁
              ≡ (ok r', w₂)
            → r' ≡ r)
        → ((w₁ : World) (amc : MimirAlertManagerConfig)
            → C.get_config req.namespace req.name w ≡ (ok amc, w₁)
            → is_deleted amc.meta ≡ true
            → HasFinalizer (configs C) amc)
        → Guarded w
        → Guarded ((reconcile C req w).1)
    reconcile_config-Guarded w makes ours h =
        rw (configs-reconcile C req w)
          (Guard.reconcile-Guarded (configs C) facts req r guard w makes ours h)
