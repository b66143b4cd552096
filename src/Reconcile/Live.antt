-- ===== src/Reconcile/Live.antt =====
-- A reconciliation comes to its end where Mimir and Kubernetes answer.
use mimir_operator.Base.{
  ◌≡◌, inl, inr, refl, sym, ap, ◌∙◌, false, String, List, Option, none, Bool-cases,
}
use mimir_operator.Base.Dict.{Dict}
use mimir_operator.Exec.{Error, ok}
use mimir_operator.Exec.Succeeds.{Returns, Returns-bind}
use mimir_operator.Domain.{MimirRules, MimirRulesSpec, MimirRulesStatus}
use mimir_operator.Client.{Header, MimirClient, credentials}
use mimir_operator.Cluster.{Cluster}
use mimir_operator.Server.{Server}
use mimir_operator.Server.Live.{Live}
use mimir_operator.Sync.{wanted_rules, sync_rules_to_ruler}
use mimir_operator.Sync.Refs.{wanted_rules-Distinct}
use mimir_operator.Sync.Visits.{VisitsAll}
use mimir_operator.Sync.Live.{AcceptsAll, sync_rules_to_ruler-Returns}
use mimir_operator.Reconcile.{
  mimir_finalizer, is_deleted, NamespacedName, with_status, set_status, then_status,
  handle_creation_and_changes, ensure_finalizer, reconcile_with, with_client, with_object,
  reconcile,
}
use mimir_operator.Reconcile.Credentials.{create_mimir_client-authorised}
use mimir_operator.Reconcile.Reported.{
  StatusStore, Begins, RulerSynced, Failure, Reported, client_of, added,
}
use mimir_operator.Reconcile.Status.{reconcile-Reported}

module _ (C : Cluster) (r : MimirClient) where
  open C use {World}

  -- Kubernetes stores what it is sent.
  pub record Stores : Type 0 where
    pub updates : (mr : MimirRules) (w : World) → Returns (C.update_mimir_rules mr) w
    pub statuses : (mr : MimirRules) (w : World) → Returns (C.update_mimir_rules_status mr) w

  -- The rules that the specification selects can be computed, and the ruler accepts them.
  abbrev pub Computable : Live C r → MimirRulesSpec → World → Type 0
  Computable L spec w =
      (unpacked : Dict String) × (w₁ : World) × (wanted_rules C spec w ≡ (ok unpacked, w₁))
      × AcceptsAll C r L unpacked

  module _ (L : Live C r) (K : Stores) (auth : List Header) (allowed : credentials r ≡ ok auth)
      (visits : VisitsAll C) where
    sync-Returns :
        (spec : MimirRulesSpec) (mr : MimirRules) (w : World)
        → Computable L spec w
        → Returns (sync_rules_to_ruler C r spec) (mr, w)
    sync-Returns spec mr w (unpacked, w₁, wanted, reads) =
        sync_rules_to_ruler-Returns C r L auth allowed spec mr w w₁ unpacked visits wanted
          (wanted_rules-Distinct C spec w w₁ unpacked wanted) reads

    set_status-Returns :
        (mr : MimirRules) (e : Option Error) (w : World) → Returns (set_status C mr e) w
    unfolding set_status
    set_status-Returns mr e w =
        let (mr', w', stored) = K.statuses (with_status C mr e) w in (tt, w', rw stored refl)

    handle_creation_and_changes-Returns :
        (spec : MimirRulesSpec) (mr : MimirRules) (w : World)
        → mr.spec ≡ spec
        → Computable L spec w
        → Returns (handle_creation_and_changes C mr r) w
    unfolding handle_creation_and_changes
    handle_creation_and_changes-Returns spec mr w same computable =
        let (_, (mr', w₁), ran) = sync-Returns spec mr w computable in
        let (a, w', e) = set_status-Returns mr' none w₁ in
        (
          a,
          w',
          ap (λ s. then_status C (sync_rules_to_ruler C r s (mr, w))) same
              ∙ ap (then_status C) ran
              ∙ e,
        )

    module _ (S : Server C r) (req : NamespacedName) (Q : StatusStore C r S req) where
      reconcile_with-Returns :
          (mr : MimirRules) (w₁ w₂ : World)
          → is_deleted mr.meta ≡ false
          → (client_of C r S mr w₁).1 ≡ w₂
          → ((w₀ : World) → Begins C r S mr w₁ w₀ → Computable L mr.spec w₀)
          → Returns (reconcile_with C mr r) w₂
      unfolding reconcile_with ensure_finalizer
      reconcile_with-Returns mr w₁ w₂ live made computable =
          elim (Bool-cases (C.contains_finalizer mr.meta.finalizers mimir_finalizer)) [
            | inl has ↦
                rw (live, has)
                  (handle_creation_and_changes-Returns mr.spec mr w₂ refl
                    (computable w₂ (inl (sym made))))
            | inr lacks ↦
                let (mr', w₀, stored) = K.updates (added C r S mr) w₂ in
                let (_, _, spec, _) = Q.returned w₂ w₀ (added C r S mr) mr' stored in
                let begins : Begins C r S mr w₁ w₀ = inr (
                  sym (ap (λ q. q.1) stored)
                  ∙ ap (λ w. (C.update_mimir_rules (added C r S mr) w).1) (sym made)) in
                rw (live, lacks)
                  (Returns-bind (C.update_mimir_rules (added C r S mr))
                    (λ mr'. handle_creation_and_changes C mr' r) stored
                    (handle_creation_and_changes-Returns mr.spec mr' w₀ spec
                      (computable w₀ begins)))
          ]

      -- The failures of a reconciliation do not occur.
      no-Failure :
          (mr : MimirRules) (w₁ w₂ w₀ : World) (e : Error)
          → client_of C r S mr w₁ ≡ (ok r, w₂)
          → Computable L mr.spec w₀
          → ¬ Failure C r S mr w₁ w₀ e
      no-Failure mr w₁ w₂ w₀ e made computable (inl (w₃, failed)) =
          let pair = sym made ∙ failed in absurd (cc)
      no-Failure mr w₁ w₂ w₀ e made computable (inr (mr₀, s, failed)) =
          let (_, s', ran) = sync-Returns mr.spec mr₀ w₀ computable in
          let pair = sym ran ∙ failed in absurd (cc)

      -- The client is the one that is made for the object, so it needs no assumption of its own.
      reconcile-Returns :
          (w w₁ w₂ : World) (mr : MimirRules)
          → C.get_mimir_rules req.namespace req.name w ≡ (ok mr, w₁)
          → is_deleted mr.meta ≡ false
          → client_of C r S mr w₁ ≡ (ok r, w₂)
          → ((w₀ : World) → Begins C r S mr w₁ w₀ → Computable L mr.spec w₀)
          → Returns (reconcile C req) w
      unfolding reconcile
      reconcile-Returns w w₁ w₂ mr got live made computable =
          let (a, w', ran) = reconcile_with-Returns mr w₁ w₂ live (ap (λ p. p.1) made) computable in
          (a, w', ap (with_object C) got ∙ ap (with_client C mr) made ∙ ran)

  module _ (S : Server C r) (req : NamespacedName) (Q : StatusStore C r S req)
      (visits : VisitsAll C) where
    only_synced :
        (mr : MimirRules) (st : MimirRulesStatus) (w w₁ w₀ w' : World)
        → ((e : Error) → ¬ Failure C r S mr w₁ w₀ e)
        → Reported C r S mr st w w₁ w₀ w'
        → (st.status ≡ "Synced") × (st.error ≡ "") × RulerSynced C r S mr.spec st.ref_rules w w₀ w'
    only_synced mr st w w₁ w₀ w' never (inl synced) = synced
    only_synced mr st w w₁ w₀ w' never (inr (_, e, _, why)) = absurd (never e why)

    -- Where Mimir answers with a success, as the laws of `Live` and `Server` say, Kubernetes stores
    -- what it is sent, and the rules that the specification selects can be computed and are
    -- accepted by the ruler, whatever order Go visits a map in: `Reconcile` of an object that is
    -- not being deleted, and for which the client `r` is made, returns no error, the status that is
    -- stored says Synced with no error and lists the namespaces of these rules, and the ruler holds
    -- these rules over what each of these namespaces held under other names, and nothing in any
    -- other namespace.
    pub reconcile-synced :
        (w w₁ w₂ : World) (mr : MimirRules) (L : Live C r)
        → Stores
        → C.get_mimir_rules req.namespace req.name w ≡ (ok mr, w₁)
        → is_deleted mr.meta ≡ false
        → client_of C r S mr w₁ ≡ (ok r, w₂)
        → ((w₀ : World) → Begins C r S mr w₁ w₀ → Computable L mr.spec w₀)
        → (w' : World) × (reconcile C req w ≡ (ok tt, w'))
          × (w₀ : World) × Begins C r S mr w₁ w₀
          × ((Q.status_of w').status ≡ "Synced")
          × ((Q.status_of w').error ≡ "")
          × RulerSynced C r S mr.spec (Q.status_of w').ref_rules w w₀ w'
    reconcile-synced w w₁ w₂ mr L K got live made computable =
        let (auth, allowed) =
          create_mimir_client-authorised C mr.spec.auth mr.spec.url mr.spec.id mr.meta.namespace w₁
            w₂ r made in
        let (_, w', ran) =
          reconcile-Returns L K auth allowed visits S req Q w w₁ w₂ mr got live made computable in
        let same : (r' : MimirClient) (w₃ : World) → client_of C r S mr w₁ ≡ (ok r', w₃) → r' ≡ r =
          λ r' w₃ made'. let pair = sym made' ∙ made in cc in
        let (w₀, begins, reported) =
          reconcile-Reported C r S req Q visits w w₁ w' mr got live same ran in
        let (status, error, held) =
          only_synced mr (Q.status_of w') w w₁ w₀ w'
            (λ e.
              no-Failure L K auth allowed visits S req Q mr w₁ w₂ w₀ e made (computable w₀ begins))
            reported in
        (w', ran, w₀, begins, status, error, held)
