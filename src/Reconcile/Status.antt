-- ===== src/Reconcile/Status.antt =====
-- What the status of a MimirRules says after a reconciliation, and what the ruler holds then.
use mimir_operator.Base.{
  ◌≡◌, ◌↔◌, inl, inr, refl, sym, ap, ◌∙◌, false, String, Option, none, some, Bool-cases,
}
use mimir_operator.Base.Dict.{lookup}
use mimir_operator.Exec.{Error, Outcome, ok, err, continue-eq-ok}
use mimir_operator.Domain.{MimirRules}
use mimir_operator.Client.{MimirClient}
use mimir_operator.Ruler.{RuleGroup}
use mimir_operator.Cluster.{Cluster}
use mimir_operator.Server.{Server}
use mimir_operator.Server.Calls.{iff_trans, groups_in, AfterPuts-iff}
use mimir_operator.Sync.Keeps.{wanted_rules-Keeps}
use mimir_operator.Reconcile.Calls.{create_mimir_client-Keeps}
use mimir_operator.Sync.{wanted_rules, sync_rules_to_ruler}
use mimir_operator.Sync.Visits.{VisitsAll}
use mimir_operator.Sync.Ruler.{Synced, sync_rules_to_ruler-Synced}
use mimir_operator.Sync.Object.{sync_rules_to_ruler-meta}
use mimir_operator.Reconcile.{
  mimir_finalizer, is_deleted, NamespacedName, with_status, set_status, then_status,
  handle_creation_and_changes, ensure_finalizer, reconcile_with, with_client, reconcile,
}
use mimir_operator.Reconcile.Stored.{SameHeld}
use mimir_operator.Reconcile.Reported.{
  Named, StatusStore, client_of, added, Begins, Failure, Reported,
}

module _ (C : Cluster) (r : MimirClient) (S : Server C r) where
  open C use {World}
  open S use {Holds}

  SameHeld-trans :
      {w w₁ w₂ : World} → SameHeld C r S w w₁ → SameHeld C r S w₁ w₂ → SameHeld C r S w w₂
  SameHeld-trans f g namespace x = iff_trans (g namespace x) (f namespace x)

  Synced-iff :
      (text : Option String) {P Q : RuleGroup → Type 0}
      → ((x : RuleGroup) → P x ↔ Q x)
      → (x : RuleGroup) → Synced C text P x ↔ Synced C text Q x
  Synced-iff none h x = (λ b. b, λ b. b)
  Synced-iff (some text) h x = AfterPuts-iff (groups_in C text) h x

  module _ (req : NamespacedName) (K : StatusStore C r S req) (visits : VisitsAll C) where
    open K use {status_of}

    set_status-ok :
        (mr : MimirRules) (e : Option Error) (w w' : World)
        → Named C r S req mr
        → set_status C mr e w ≡ (ok tt, w')
        → (status_of w' ≡ (with_status C mr e).status) × SameHeld C r S w w'
    unfolding set_status with_status
    set_status-ok mr none w w' named h =
        let (mr', w₁, wrote, done) =
          continue-eq-ok (C.update_mimir_rules_status (with_status C mr none) w) _ h in
        let same : w₁ ≡ w' = ap (λ p. p.1) done in
        K.written w w' (with_status C mr none) mr' named (rw same at wrote)
    set_status-ok mr (some e) w w' named h =
        let (mr', w₁, wrote, done) =
          continue-eq-ok (C.update_mimir_rules_status (with_status C mr (some e)) w) _ h in
        let same : w₁ ≡ w' = ap (λ p. p.1) done in
        K.written w w' (with_status C mr (some e)) mr' named (rw same at wrote)

    failed_Reported :
        (mr mr' : MimirRules) (e : Error) (w w₁ w₀ w₂ w' : World)
        → Named C r S req mr'
        → set_status C mr' (some e) w₂ ≡ (ok tt, w')
        → Failure C r S mr w₁ w₀ e
        → Reported C r S mr (status_of w') w w₁ w₀ w'
    unfolding with_status
    failed_Reported mr mr' e w w₁ w₀ w₂ w' named h why =
        let (st, _) = set_status-ok mr' (some e) w₂ w' named h in
        inr (ap (λ s. s.status) st, e, ap (λ s. s.error) st, why)

    then_status-Reported :
        (mr mr₀ : MimirRules) (w w₁ w₀ : World) (p : Outcome (Unit {0}) × (MimirRules × World))
        (w' : World)
        → Named C r S req (p.1.0)
        → SameHeld C r S w w₀
        → sync_rules_to_ruler C r mr.spec (mr₀, w₀) ≡ p
        → then_status C p ≡ (ok tt, w')
        → Reported C r S mr (status_of w') w w₁ w₀ w'
    unfolding with_status
    then_status-Reported mr mr₀ w w₁ w₀ (ok _, (mr', w₂)) w' named quiet ran h =
        let (unpacked, w₃, wanted, held, refs) =
          sync_rules_to_ruler-Synced C r S mr.spec mr₀ mr' w₀ w₂ visits ran in
        let (st, same) = set_status-ok mr' none w₂ w' named h in
        let kept : SameHeld C r S w ((wanted_rules C mr.spec w₀).1) =
          wanted_rules-Keeps C (SameHeld C r S w) (λ s w₄ q. SameHeld-trans q (K.lists s w₄))
            mr.spec w₀ quiet in
        let before : SameHeld C r S w w₃ = rw (ap (λ q. q.1) wanted) at kept in
        inl (
          ap (λ s. s.status) st,
          ap (λ s. s.error) st,
          (
            w₃,
            unpacked,
            wanted,
            λ other x.
                iff_trans (same other x)
                  (iff_trans (held other x) (Synced-iff (lookup other unpacked) (before other) x)),
            ap (λ s. s.ref_rules) st ∙ refs,
          ),
        )
    then_status-Reported mr mr₀ w w₁ w₀ (err e, (mr', w₂)) w' named quiet ran h =
        failed_Reported mr mr' e w w₁ w₀ w₂ w' named h (inr (mr₀, (mr', w₂), ran))
    then_status-Reported mr mr₀ w w₁ w₀ (Outcome.panic, (mr', w₂)) w' named quiet ran h =
        absurd (cc)

    changed_Reported :
        (mr mr' : MimirRules) (w w₁ w₀ w' : World)
        → Named C r S req mr'
        → mr'.spec ≡ mr.spec
        → SameHeld C r S w w₀
        → handle_creation_and_changes C mr' r w₀ ≡ (ok tt, w')
        → Reported C r S mr (status_of w') w w₁ w₀ w'
    unfolding handle_creation_and_changes
    changed_Reported mr mr' w w₁ w₀ w' named spec quiet h =
        let p = sync_rules_to_ruler C r mr'.spec (mr', w₀) in
        let kept : p.1.0.meta ≡ mr'.meta =
          sync_rules_to_ruler-meta C mr'.meta r mr'.spec (mr', w₀) refl in
        then_status-Reported mr mr' w w₁ w₀ p w'
          (ap (λ m. m.namespace) kept ∙ named.0, ap (λ m. m.name) kept ∙ named.1) quiet
          (ap (λ s. sync_rules_to_ruler C r s (mr', w₀)) (sym spec)) h

    reconcile_with-Reported :
        (mr : MimirRules) (w w₁ w₂ w' : World)
        → Named C r S req mr
        → is_deleted mr.meta ≡ false
        → SameHeld C r S w w₂
        → (client_of C r S mr w₁).1 ≡ w₂
        → reconcile_with C mr r w₂ ≡ (ok tt, w')
        → (w₀ : World) × Begins C r S mr w₁ w₀ × Reported C r S mr (status_of w') w w₁ w₀ w'
    unfolding reconcile_with ensure_finalizer
    reconcile_with-Reported mr w w₁ w₂ w' named live quiet made h =
        elim (Bool-cases (C.contains_finalizer mr.meta.finalizers mimir_finalizer)) [
          | inl has ↦ (
            w₂,
            inl (sym made),
            changed_Reported mr mr w w₁ w₂ w' named refl quiet (rw (live, has) at h),
          )
          | inr lacks ↦
              let (mr', w₀, stored, h₁) =
                continue-eq-ok (C.update_mimir_rules (added C r S mr) w₂) _
                  (rw (live, lacks) at h) in
              let (n, m, spec, same) = K.returned w₂ w₀ (added C r S mr) mr' stored in
              (
                w₀,
                inr (
                    sym (ap (λ q. q.1) stored)
                    ∙ ap (λ w. (C.update_mimir_rules (added C r S mr) w).1) (sym made)),
                changed_Reported mr mr' w w₁ w₀ w' (n ∙ named.0, m ∙ named.1) spec
                    (SameHeld-trans quiet same) h₁,
              )
        ]

    with_client-Reported :
        (mr : MimirRules) (w w₁ : World) (p : Outcome MimirClient × World) (w' : World)
        → Named C r S req mr
        → is_deleted mr.meta ≡ false
        → client_of C r S mr w₁ ≡ p
        → SameHeld C r S w (p.1)
        → ((r' : MimirClient) → p.0 ≡ ok r' → r' ≡ r)
        → with_client C mr p ≡ (ok tt, w')
        → (w₀ : World) × Begins C r S mr w₁ w₀ × Reported C r S mr (status_of w') w w₁ w₀ w'
    with_client-Reported mr w w₁ (ok r', w₂) w' named live made quiet same h =
        reconcile_with-Reported mr w w₁ w₂ w' named live quiet (ap (λ q. q.1) made)
          (rw (same r' refl) at h)
    with_client-Reported mr w w₁ (err e, w₂) w' named live made quiet same h = (
      (client_of C r S mr w₁).1,
      inl refl,
      failed_Reported mr mr e w w₁ _ w₂ w' named h (inl (w₂, made)),
    )
    with_client-Reported mr w w₁ (Outcome.panic, w₂) w' named live made quiet same h = absurd (cc)

    -- Against a ruler that obeys the laws of `Server` and a cluster that obeys those of
    -- `StatusStore`, whatever order Go visits a map in, and where the client that is made for the
    -- object is `r`: when `Reconcile` of an object that is not being deleted returns no error, the
    -- status that is stored says Synced with no error, lists the namespaces of the rules that the
    -- specification selects, and the ruler holds these rules over what each of these namespaces
    -- held under other names, and nothing in any other namespace; or it says Failed with the error
    -- that the making of the client or the synchronisation gave.
    pub reconcile-Reported :
        (w w₁ w' : World) (mr : MimirRules)
        → C.get_mimir_rules req.namespace req.name w ≡ (ok mr, w₁)
        → is_deleted mr.meta ≡ false
        → ((r' : MimirClient) (w₂ : World) → client_of C r S mr w₁ ≡ (ok r', w₂) → r' ≡ r)
        → reconcile C req w ≡ (ok tt, w')
        → (w₀ : World) × Begins C r S mr w₁ w₀ × Reported C r S mr (status_of w') w w₁ w₀ w'
    unfolding reconcile
    reconcile-Reported w w₁ w' mr got live same h =
        let p = client_of C r S mr w₁ in
        let read : SameHeld C r S w w₁ = rw (ap (λ q. q.1) got) at (K.reads w) in
        let quiet : SameHeld C r S w (p.1) =
          create_mimir_client-Keeps C (SameHeld C r S w)
            (λ a b w₂ q. SameHeld-trans q (K.secrets a b w₂)) mr.spec.auth mr.spec.url mr.spec.id
            mr.meta.namespace w₁ read in
        with_client-Reported mr w w₁ p w' (K.got w w₁ mr got) live refl quiet
          (λ r' e. same r' (p.1) (ap (λ o. (o, p.1)) e)) (rw got at h)
