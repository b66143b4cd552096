-- ===== src/Controller/Keeps.antt =====
-- What a reconciliation leaves as it was, when the calls that it makes do, for both controllers.
use mimir_operator.Base.{String, ◌≡◌, inl, inr, refl, ap, Option, some, Bool-cases}
use mimir_operator.Exec.{Error, Outcome, ok, err}
use mimir_operator.Exec.Keeps.{Keeps, continue-Keeps}
use mimir_operator.Client.{MimirClient}
use mimir_operator.Cluster.{Cluster}
use mimir_operator.Reconcile.{NamespacedName, is_deleted}
use mimir_operator.Controller.{
  Controller, added, removed, after_deletion, ensure_finalizer, reconcile_with, with_client,
  with_object, reconcile,
}

module _ {C : Cluster} (K : Controller C) (P : C.World → Type 0) where
  open C use {World}
  open K use {Object, meta, set_status, make_client, change}

  -- The calls of Kubernetes, and the making of a client.
  pub record ApiKeeps : Type 0 where
    pub gets : (namespace name : String) → Keeps P (K.get namespace name)
    pub updates : (o : Object) → Keeps P (K.update o)
    pub statuses : (o : Object) (e : Option Error) → Keeps P (set_status o e)
    pub clients : (o : Object) → Keeps P (make_client o)

  -- The calls of Mimir with a client that is made for the object.
  abbrev pub MimirKeeps : Object → MimirClient → Type 0
  MimirKeeps o r = ((o' : Object) → Keeps P (change o' r)) × Keeps P (K.delete o r)

  module _ (A : ApiKeeps) where
    after_deletion-Keeps :
        (o : Object) (p : Outcome (Unit {0}) × World) → P (p.1) → P ((after_deletion K o p).1)
    after_deletion-Keeps o (ok _, w) h =
        continue-Keeps P (K.update (removed K o) w) _ (A.updates (removed K o) w h) (λ _ w h. h)
    after_deletion-Keeps o (err e, w) h = A.statuses o (some e) w h
    after_deletion-Keeps o (Outcome.panic, w) h = h

    reconcile_with-Keeps :
        (o : Object) (r : MimirClient) → MimirKeeps o r → Keeps P (reconcile_with K o r)
    unfolding reconcile_with ensure_finalizer
    reconcile_with-Keeps o r (changes, deletes) w h =
        elim (Bool-cases (C.contains_finalizer (meta o).finalizers K.finalizer)) [
          | inl has ↦ elim (Bool-cases (is_deleted (meta o))) [
            | inl deleted ↦
                rw (deleted, has) (after_deletion-Keeps o (K.delete o r w) (deletes w h))
            | inr live ↦ rw (live, has) (changes o w h)
          ]
          | inr lacks ↦ elim (Bool-cases (is_deleted (meta o))) [
            | inl deleted ↦ rw (deleted, lacks) (changes o w h)
            | inr live ↦
                rw (live, lacks)
                  (continue-Keeps P (K.update (added K o) w) _ (A.updates (added K o) w h) changes)
          ]
        ]

    with_client-Keeps :
        (o : Object) (w : World) (p : Outcome MimirClient × World)
        → make_client o w ≡ p
        → ((r : MimirClient) (w' : World) → make_client o w ≡ (ok r, w') → MimirKeeps o r)
        → P (p.1)
        → P ((with_client K o p).1)
    with_client-Keeps o w (ok r, w') made keeps h = reconcile_with-Keeps o r (keeps r w' made) w' h
    with_client-Keeps o w (err e, w') made keeps h = A.statuses o (some e) w' h
    with_client-Keeps o w (Outcome.panic, w') made keeps h = h

    with_object-Keeps :
        (p : Outcome Object × World)
        → ((o : Object) (r : MimirClient) (w' : World)
            → p.0 ≡ ok o
            → make_client o (p.1) ≡ (ok r, w')
            → MimirKeeps o r)
        → P (p.1)
        → P ((with_object K p).1)
    with_object-Keeps (ok o, w) keeps h =
        with_client-Keeps o w (make_client o w) refl (λ r w' made. keeps o r w' refl made)
          (A.clients o w h)
    with_object-Keeps (err e, w) keeps h = h
    with_object-Keeps (Outcome.panic, w) keeps h = h

    pub reconcile-Keeps :
        (req : NamespacedName) (w : World)
        → ((o : Object) (r : MimirClient) (w₁ w₂ : World)
            → K.get req.namespace req.name w ≡ (ok o, w₁)
            → make_client o w₁ ≡ (ok r, w₂)
            → MimirKeeps o r)
        → P w
        → P ((reconcile K req w).1)
    unfolding reconcile
    reconcile-Keeps req w keeps h =
        let p = K.get req.namespace req.name w in
        with_object-Keeps p (λ o r w' e made. keeps o r (p.1) w' (ap (λ q. (q, p.1)) e) made)
          (A.gets req.namespace req.name w h)
