-- ===== src/Reconcile/Reach.antt =====
-- Many reconciliations of one MimirRules, with what others do between them.
use mimir_operator.Base.{◌≡◌, inl, inr, true}
use mimir_operator.Exec.{ok}
use mimir_operator.Client.{MimirClient}
use mimir_operator.Domain.{MimirRules}
use mimir_operator.Cluster.{Cluster}
use mimir_operator.Server.{Server}
use mimir_operator.Reconcile.{is_deleted, create_mimir_client, NamespacedName, reconcile}
use mimir_operator.Reconcile.Stored.{HasFinalizer, Empty, Same, Stored}
use mimir_operator.Reconcile.Finalizer.{Guarded, reconcile-Guarded}

module _ (C : Cluster) (r : MimirClient) (S : Server C r) (req : NamespacedName)
    (K : Stored C r S req) where
  open C use {World}
  open K use {Kept}

  -- The client that is made for the object is `r`.
  abbrev pub OwnClient : World → Type 0
  OwnClient w =
      (w₁ w₂ : World) (mr : MimirRules) (r' : MimirClient)
      → C.get_mimir_rules req.namespace req.name w ≡ (ok mr, w₁)
      → create_mimir_client C mr.spec.auth mr.spec.url mr.spec.id mr.meta.namespace w₁ ≡ (ok r', w₂)
      → r' ≡ r

  -- The object still has the finalizer if it is being deleted.
  abbrev pub OwnDeletion : World → Type 0
  OwnDeletion w =
      (w₁ : World) (mr : MimirRules)
      → C.get_mimir_rules req.namespace req.name w ≡ (ok mr, w₁)
      → is_deleted mr.meta ≡ true
      → HasFinalizer C mr

  -- A reconciliation, whatever it returns, or a step of others that takes no finalizer away and
  -- leaves the ruler alone: a change of the object, its deletion timestamp, or the creation of the
  -- object.
  pub data Step : World → World → Type 0 where
    reconciled : {w : World} → OwnClient w → OwnDeletion w → Step w ((reconcile C req w).1)
    elsewhere : {w w' : World} → Same C r S Kept w w' → Step w w'

  pub data Reach : World → World → Type 0 where
    here : {w : World} → Reach w w
    next : {w w₁ w' : World} → Step w w₁ → Reach w₁ w' → Reach w w'

  Step-Guarded : {w w' : World} → Step w w' → Guarded C r S req K w → Guarded C r S req K w'
  Step-Guarded {w = w} (reconciled own deletion) h = reconcile-Guarded C r S req K w own deletion h
  Step-Guarded (elsewhere (kept, held)) (inl empty) =
      inl (λ namespace x h. empty namespace x ((held namespace x).0 h))
  Step-Guarded (elsewhere (kept, held)) (inr has) = inr (kept has)

  Reach-Guarded : {w w' : World} → Reach w w' → Guarded C r S req K w → Guarded C r S req K w'
  Reach-Guarded here h = h
  Reach-Guarded (next step reach) h = Reach-Guarded reach (Step-Guarded step h)

  -- Against a ruler that obeys the laws of `Server` and a cluster that obeys those of `Stored`:
  -- from a world in which the ruler holds no group for the tenant, after any number of
  -- reconciliations of the object and of steps of others that take no finalizer away and leave the
  -- ruler alone, where each reconciliation makes the client `r` and finds the finalizer if the
  -- object is being deleted: whenever the object that is stored has no finalizer, the ruler holds
  -- no group for the tenant.
  pub reach-Empty : {w w' : World} → Reach w w' → Empty C r S w → ¬ Kept w' → Empty C r S w'
  reach-Empty reach empty gone = elim (Reach-Guarded reach (inl empty)) [
    | inl empty' ↦ empty'
    | inr kept ↦ absurd (gone kept)
  ]
