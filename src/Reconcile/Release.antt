-- ===== src/Reconcile/Release.antt =====
-- The deletion of a MimirRules comes to its end where Mimir and Kubernetes answer.
use mimir_operator.Base.{◌≡◌, refl, true, false, String, List}
use mimir_operator.Exec.{Outcome, ok}
use mimir_operator.Domain.{MimirRules}
use mimir_operator.Client.{MimirClient}
use mimir_operator.Cluster.{Cluster}
use mimir_operator.Server.{Server}
use mimir_operator.Server.Live.{Live}
use mimir_operator.Sync.Ruler.{delete_rules_for_tenant-empty}
use mimir_operator.Sync.Live.{delete_rules_for_tenant-Succeeds}
use mimir_operator.Reconcile.{
  mimir_finalizer, is_deleted, create_mimir_client, NamespacedName, with_finalizers, reconcile_with,
  reconcile,
}
use mimir_operator.Reconcile.Credentials.{create_mimir_client-authorised}
use mimir_operator.Reconcile.Stored.{Empty, Updated, Stored, HasFinalizer}
use mimir_operator.Reconcile.Live.{Stores}

module _ (C : Cluster) (r : MimirClient) where
  open C use {World}

  module _ (S : Server C r) (req : NamespacedName) (Q : Stored C r S req) where
    open Q use {Kept}

    without_finalizer :
        (mr : MimirRules) (w w' : World) (p : Outcome MimirRules × World) (mr' : MimirRules)
        → Updated C r S Kept mr w p
        → p ≡ (ok mr', w')
        → C.contains_finalizer mr.meta.finalizers mimir_finalizer ≡ false
        → Empty C r S w
        → (¬ Kept w') × Empty C r S w'
    without_finalizer mr w w' p mr' updated e lacks empty =
        let (kept, held) = rw e at updated in
        (
          λ k. let has = kept.1 k in absurd (cc),
          λ namespace x h. empty namespace x ((held namespace x).0 h),
        )

    -- Where Mimir answers with a success, as the laws of `Live` and `Server` say, Kubernetes stores
    -- what it is sent, as those of `Stores` and `Stored` say, and the removal of a finalizer leaves
    -- a list without it: `Reconcile` of an object that is being deleted and has the finalizer, and
    -- for which the client `r` is made, returns no error, the ruler holds no group for the tenant,
    -- and the object that is stored no longer has the finalizer.
    pub reconcile-released :
        (w w₁ w₂ : World) (mr : MimirRules)
        → Live C r
        → Stores C r
        → ((fs : List String)
            → C.contains_finalizer (C.remove_finalizer fs mimir_finalizer) mimir_finalizer ≡ false)
        → C.get_mimir_rules req.namespace req.name w ≡ (ok mr, w₁)
        → is_deleted mr.meta ≡ true
        → HasFinalizer C mr
        → create_mimir_client C mr.spec.auth mr.spec.url mr.spec.id mr.meta.namespace w₁
          ≡ (ok r, w₂)
        → (w' : World) × (reconcile C req w ≡ (ok tt, w')) × Empty C r S w' × (¬ Kept w')
    unfolding reconcile reconcile_with
    reconcile-released w w₁ w₂ mr L K removes got deleted has made =
        let (auth, allowed) =
          create_mimir_client-authorised C mr.spec.auth mr.spec.url mr.spec.id mr.meta.namespace w₁
            w₂ r made in
        let (_, w₃, emptied) = delete_rules_for_tenant-Succeeds C r L auth allowed mr w₂ in
        let mr₁ = with_finalizers C mr (C.remove_finalizer mr.meta.finalizers mimir_finalizer) in
        let (mr', w', stored) = K.updates mr₁ w₃ in
        let (namespace, name, _) = Q.got w w₁ mr got in
        let (gone, empty) =
          without_finalizer mr₁ w₃ w' (C.update_mimir_rules mr₁ w₃) mr'
            (Q.updated w₃ mr₁ namespace name) stored (removes mr.meta.finalizers)
            (delete_rules_for_tenant-empty C r S mr w₂ w₃ emptied) in
        (w', rw (got, made, deleted, has, emptied, stored) refl, empty, gone)
