-- ===== src/Reconcile/Finalizer.antt =====
-- The finalizer of a MimirRules and what the ruler holds for its tenant.
use mimir_operator.Base.{◌≡◌, ◌⊎◌, String, true, Option, none, some}
use mimir_operator.Exec.{Error, Outcome, ok, err}
use mimir_operator.Exec.Keeps.{Keeps, continue-Keeps}
use mimir_operator.Domain.{MimirRules}
use mimir_operator.Client.{MimirClient}
use mimir_operator.Cluster.{Cluster}
use mimir_operator.Server.{Server}
use mimir_operator.Sync.{sync_rules_to_ruler}
use mimir_operator.Sync.Ruler.{delete_rules_for_tenant-empty}
use mimir_operator.Sync.Keeps.{delete_rules_for_tenant-Keeps, sync_rules_to_ruler-Keeps}
use mimir_operator.Controller.Guard
use mimir_operator.Controller.Guard.{Facts, Guard}
use mimir_operator.Controller.Instances.{rules, rules-reconcile}
use mimir_operator.Reconcile.{
  is_deleted, create_mimir_client, NamespacedName, with_status, set_status, then_status,
  handle_creation_and_changes, reconcile,
}
use mimir_operator.Reconcile.Calls.{create_mimir_client-Keeps}
use mimir_operator.Reconcile.Stored.{HasFinalizer, Empty, Same, Updated, Stored}

module _ (C : Cluster) (r : MimirClient) (S : Server C r) where
  open C use {World}

  module _ (req : NamespacedName) (K : Stored C r S req) where
    open K use {Kept}

    -- The ruler holds nothing for the tenant, or the object has the finalizer.
    abbrev pub Guarded : World → Type 0
    Guarded w = Empty C r S w ⊎ Kept w

    abbrev facts : Facts (rules C)
    facts = record { Kept = Kept; Empty = Empty C r S }

    same : {w w' : World} → Same C r S Kept w w' → Guard.Same (rules C) facts w w'
    same (kept, held) = (kept, λ empty namespace x h. empty namespace x ((held namespace x).0 h))

    updated_lem :
        (mr : MimirRules) (w : World) (p : Outcome MimirRules × World)
        → Updated C r S Kept mr w p
        → Guard.Updated (rules C) facts mr w p
    updated_lem mr w (ok mr', w') (stored, held) =
        (stored.0, λ empty namespace x h. empty namespace x ((held namespace x).0 h))
    updated_lem mr w (err e, w') s = same s
    updated_lem mr w (Outcome.panic, w') s = same s

    set_status_same :
        (mr : MimirRules) (e : Option Error) (w : World)
        → Guard.Same (rules C) facts w ((set_status C mr e w).1)
    unfolding set_status
    set_status_same mr e w =
        continue-Keeps (λ w'. Guard.Same (rules C) facts w w')
          (C.update_mimir_rules_status (with_status C mr e) w) _
          (same (K.statuses (with_status C mr e) w)) (λ _ _ h. h)

    then_status-Kept :
        (p : Outcome (Unit {0}) × (MimirRules × World)) → Kept (p.1.1) → Kept ((then_status C p).1)
    then_status-Kept (ok _, (mr, w)) h = (set_status_same mr none w).0 h
    then_status-Kept (err e, (mr, w)) h = (set_status_same mr (some e) w).0 h
    then_status-Kept (Outcome.panic, (mr, w)) h = h

    handle_creation_and_changes-Kept :
        (mr : MimirRules) → Keeps Kept (handle_creation_and_changes C mr r)
    unfolding handle_creation_and_changes
    handle_creation_and_changes-Kept mr w h =
        then_status-Kept (sync_rules_to_ruler C r mr.spec (mr, w)) (
          sync_rules_to_ruler-Keeps C Kept r (λ q _ _. K.sends q) (λ s w. (K.lists s w).0) mr.spec
            (mr, w) h)

    guard : Guard (rules C) facts req r
    guard = record {
      Owned = λ mr. (mr.meta.namespace ≡ req.namespace) × (mr.meta.name ≡ req.name);
      got = λ w w' mr h. let (n, m, stored) = K.got w w' mr h in ((n, m), stored.0);
      owned = λ mr fs own. own;
      updated =
          λ w mr own. updated_lem mr w (C.update_mimir_rules mr w) (K.updated w mr (own.0) (own.1));
      has_added = λ mr. K.added mr.meta.finalizers;
      reads = λ w. same (K.reads w);
      clients = λ mr w.
          let made =
            λ (P : World → Type 0)
                (kept : (namespace name : String) → Keeps P (C.get_secret namespace name)).
              create_mimir_client-Keeps C P kept mr.spec.auth mr.spec.url mr.spec.id
                mr.meta.namespace w in
          (
            made Kept (λ a b w. (K.secrets a b w).0),
            made (Empty C r S) (λ a b w. (same (K.secrets a b w)).1),
          );
      statuses = set_status_same;
      changes = handle_creation_and_changes-Kept;
      deletes = delete_rules_for_tenant-Keeps C Kept r (λ q _ _. K.sends q);
      emptied = λ mr. delete_rules_for_tenant-empty C r S mr;
    }

    -- Against a ruler that obeys the laws of `Server` and a cluster that obeys those of `Stored`,
    -- where the client that is made for the object is `r`, and the object still has the finalizer
    -- if it is being deleted: if the ruler holds no group for the tenant or the object has the
    -- finalizer, then so it is after `Reconcile`, whatever call fails.
    pub reconcile-Guarded :
        (w : World)
        → ((w₁ w₂ : World) (mr : MimirRules) (r' : MimirClient)
            → C.get_mimir_rules req.namespace req.name w ≡ (ok mr, w₁)
            → create_mimir_client C mr.spec.auth mr.spec.url mr.spec.id mr.meta.namespace w₁
              ≡ (ok r', w₂)
            → r' ≡ r)
        → ((w₁ : World) (mr : MimirRules)
            → C.get_mimir_rules req.namespace req.name w ≡ (ok mr, w₁)
            → is_deleted mr.meta ≡ true
            → HasFinalizer C mr)
        → Guarded w
        → Guarded ((reconcile C req w).1)
    reconcile-Guarded w makes ours h =
        rw (rules-reconcile C req w)
          (Guard.reconcile-Guarded (rules C) facts req r guard w makes ours h)
