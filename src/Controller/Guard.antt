-- ===== src/Controller/Guard.antt =====
-- The finalizer of an object guards what was made for it in Mimir, for both controllers.
use mimir_operator.Base.{◌≡◌, ◌⊎◌, inl, inr, refl, ap, true, String, List, Option, some, Bool-cases}
use mimir_operator.Exec.{Error, Outcome, ok, err, continue}
use mimir_operator.Exec.Keeps.{Keeps}
use mimir_operator.Client.{MimirClient}
use mimir_operator.Cluster.{Cluster}
use mimir_operator.Reconcile.{NamespacedName, is_deleted}
use mimir_operator.Controller.{
  Controller, HasFinalizer, added, removed, after_deletion, ensure_finalizer, reconcile_with,
  with_client, with_object, reconcile,
}

module _ {C : Cluster} (K : Controller C) where
  open C use {World}
  open K use {Object, meta, with_finalizers, set_status, make_client, change}

  -- Two properties of the world: what is stored has the finalizer, and nothing is held in Mimir.
  pub record Facts : Type 1 where
    pub Kept : World → Type 0
    pub Empty : World → Type 0

  abbrev pub Same : Facts → World → World → Type 0
  Same F w w' = (F.Kept w → F.Kept w') × (F.Empty w → F.Empty w')

  -- An update stores the object that is sent, or changes nothing.
  abbrev pub Updated : Facts → Object → World → Outcome Object × World → Type 0
  Updated F o w (ok o', w') = (HasFinalizer K o → F.Kept w') × (F.Empty w → F.Empty w')
  Updated F o w (err e, w') = Same F w w'
  Updated F o w (Outcome.panic, w') = Same F w w'

  -- How the calls of a reconciliation with the client `r` act on the two.
  pub record Guard (F : Facts) (req : NamespacedName) (r : MimirClient) : Type 1 where
    pub Owned : Object → Type 0
    pub got :
        (w w' : World) (o : Object)
        → K.get req.namespace req.name w ≡ (ok o, w')
        → Owned o × (HasFinalizer K o → F.Kept w')
    pub owned : (o : Object) (fs : List String) → Owned o → Owned (with_finalizers o fs)
    pub updated : (w : World) (o : Object) → Owned o → Updated F o w (K.update o w)
    pub has_added : (o : Object) → HasFinalizer K (added K o)
    pub reads : (w : World) → Same F w ((K.get req.namespace req.name w).1)
    pub clients : (o : Object) (w : World) → Same F w ((make_client o w).1)
    pub statuses : (o : Object) (e : Option Error) (w : World) → Same F w ((set_status o e w).1)
    pub changes : (o : Object) → Keeps F.Kept (change o r)
    pub deletes : (o : Object) → Keeps F.Kept (K.delete o r)
    pub emptied : (o : Object) (w w' : World) → K.delete o r w ≡ (ok tt, w') → F.Empty w'

  module _ (F : Facts) (req : NamespacedName) (r : MimirClient) (G : Guard F req r) where
    open F use {Kept, Empty}

    abbrev pub Guarded : World → Type 0
    Guarded w = Empty w ⊎ Kept w

    Same-Guarded : {w w' : World} → Same F w w' → Guarded w → Guarded w'
    Same-Guarded same (inl empty) = inl (same.1 empty)
    Same-Guarded same (inr kept) = inr (same.0 kept)

    -- The finalizer is stored before anything is sent to Mimir.
    after_update :
        (o : Object) (w : World) (p : Outcome Object × World)
        → HasFinalizer K o
        → Updated F o w p
        → Guarded w
        → Guarded ((continue p (λ o'. change o' r)).1)
    after_update o w (ok o', w') has (stored, _) h = inr (G.changes o' w' (stored has))
    after_update o w (err e, w') has same h = Same-Guarded same h
    after_update o w (Outcome.panic, w') has same h = Same-Guarded same h

    -- The finalizer goes when nothing is left in Mimir.
    after_removal :
        (o : Object) (w : World) (p : Outcome Object × World)
        → Updated F o w p
        → Empty w
        → Empty ((continue {B = Unit {0}} p (λ _ w. (ok tt, w))).1)
    after_removal o w (ok o', w') (_, same) h = same h
    after_removal o w (err e, w') (_, same) h = same h
    after_removal o w (Outcome.panic, w') (_, same) h = same h

    after_deletion-Guarded :
        (o : Object) (p : Outcome (Unit {0}) × World)
        → G.Owned o
        → (p.0 ≡ ok tt → Empty (p.1))
        → Kept (p.1)
        → Guarded ((after_deletion K o p).1)
    after_deletion-Guarded o (ok _, w) own empty kept =
        let o' = removed K o in
        inl (after_removal o' w (K.update o' w) (G.updated w o' (G.owned o _ own)) (empty refl))
    after_deletion-Guarded o (err e, w) own empty kept = inr ((G.statuses o (some e) w).0 kept)
    after_deletion-Guarded o (Outcome.panic, w) own empty kept = inr kept

    reconcile_with-Guarded :
        (o : Object) (w : World)
        → G.Owned o
        → (HasFinalizer K o → Kept w)
        → (is_deleted (meta o) ≡ true → HasFinalizer K o)
        → Guarded w
        → Guarded ((reconcile_with K o r w).1)
    unfolding reconcile_with ensure_finalizer
    reconcile_with-Guarded o w own stored ours h =
        elim (Bool-cases (C.contains_finalizer (meta o).finalizers K.finalizer)) [
          | inl has ↦ elim (Bool-cases (is_deleted (meta o))) [
            | inl deleted ↦
                rw (deleted, has)
                  (after_deletion-Guarded o (K.delete o r w) own
                    (λ done.
                      G.emptied o w ((K.delete o r w).1) (ap (λ p. (p, (K.delete o r w).1)) done))
                    (G.deletes o w (stored has)))
            | inr live ↦ rw (live, has) (inr (G.changes o w (stored has)))
          ]
          | inr lacks ↦ elim (Bool-cases (is_deleted (meta o))) [
            | inl deleted ↦ absurd (let has = ours deleted in cc)
            | inr live ↦
                let o' = added K o in
                rw (live, lacks)
                  (after_update o' w (K.update o' w) (G.has_added o)
                    (G.updated w o' (G.owned o _ own)) h)
          ]
        ]

    with_client-Guarded :
        (o : Object) (p : Outcome MimirClient × World)
        → G.Owned o
        → ((r' : MimirClient) → p.0 ≡ ok r' → r' ≡ r)
        → (HasFinalizer K o → Kept (p.1))
        → (is_deleted (meta o) ≡ true → HasFinalizer K o)
        → Guarded (p.1)
        → Guarded ((with_client K o p).1)
    with_client-Guarded o (ok r', w) own same stored ours h =
        rw (same r' refl) (reconcile_with-Guarded o w own stored ours h)
    with_client-Guarded o (err e, w) own same stored ours h =
        Same-Guarded (G.statuses o (some e) w) h
    with_client-Guarded o (Outcome.panic, w) own same stored ours h = h

    -- The client that is made for the object that is read is `r`.
    abbrev pub MakesClient : World → Type 0
    MakesClient w =
        (w₁ w₂ : World) (o : Object) (r' : MimirClient)
        → K.get req.namespace req.name w ≡ (ok o, w₁)
        → make_client o w₁ ≡ (ok r', w₂)
        → r' ≡ r

    -- An object that is being deleted still has the finalizer.
    abbrev pub HasOurs : World → Type 0
    HasOurs w =
        (w₁ : World) (o : Object)
        → K.get req.namespace req.name w ≡ (ok o, w₁)
        → is_deleted (meta o) ≡ true
        → HasFinalizer K o

    with_object-Guarded :
        (w : World) (p : Outcome Object × World)
        → K.get req.namespace req.name w ≡ p
        → MakesClient w
        → HasOurs w
        → Guarded (p.1)
        → Guarded ((with_object K p).1)
    with_object-Guarded w (ok o, w₁) read same ours h =
        let (own, stored) = G.got w w₁ o read in
        let made = make_client o w₁ in
        with_client-Guarded o made own
          (λ r' e. same w₁ (made.1) o r' read (ap (λ p. (p, made.1)) e))
          (λ has. (G.clients o w₁).0 (stored has)) (ours w₁ o read)
          (Same-Guarded (G.clients o w₁) h)
    with_object-Guarded w (err e, w₁) read same ours h = h
    with_object-Guarded w (Outcome.panic, w₁) read same ours h = h

    pub reconcile-Guarded :
        (w : World) → MakesClient w → HasOurs w → Guarded w → Guarded ((reconcile K req w).1)
    unfolding reconcile
    reconcile-Guarded w same ours h =
        with_object-Guarded w (K.get req.namespace req.name w) refl same ours
          (Same-Guarded (G.reads w) h)
