-- ===== src/Reconcile/Stored.antt =====
-- What the reconciliation of one MimirRules relies on of Kubernetes, with respect to its finalizer
-- and to what the ruler holds for its tenant.
use mimir_operator.Base.{◌≡◌, ◌↔◌, String, true, List}
use mimir_operator.Exec.{Outcome, ok, err}
use mimir_operator.Domain.{LabelSelector, MimirRules}
use mimir_operator.Client.{Request, MimirClient}
use mimir_operator.Ruler.{RuleGroup}
use mimir_operator.Cluster.{Cluster}
use mimir_operator.Server.{Server}
use mimir_operator.Reconcile.{mimir_finalizer, NamespacedName}

abbrev pub HasFinalizer : Cluster → MimirRules → Type 0
HasFinalizer C mr = C.contains_finalizer mr.meta.finalizers mimir_finalizer ≡ true

module _ (C : Cluster) (r : MimirClient) (S : Server C r) where
  open C use {World}
  open S use {Holds}

  abbrev pub Empty : World → Type 0
  Empty w = (namespace : String) (x : RuleGroup) → ¬ Holds w namespace x

  abbrev pub SameHeld : World → World → Type 0
  SameHeld w w' = (namespace : String) (x : RuleGroup) → Holds w' namespace x ↔ Holds w namespace x

  abbrev pub Same : (World → Type 0) → World → World → Type 0
  Same Kept w w' = (Kept w → Kept w') × SameHeld w w'

  -- An update stores the object that is sent, or changes nothing.
  abbrev pub Updated : (World → Type 0) → MimirRules → World → Outcome MimirRules × World → Type 0
  Updated Kept mr w (ok mr', w') = (HasFinalizer C mr ↔ Kept w') × SameHeld w w'
  Updated Kept mr w (err e, w') = Same Kept w w'
  Updated Kept mr w (Outcome.panic, w') = Same Kept w w'

  -- What the reconciliation of one MimirRules relies on of Kubernetes and of the other calls: which
  -- object is stored under its name, and what leaves that object and the ruler as they were.
  pub record Stored (req : NamespacedName) : Type 1 where
    -- The object that is stored has the finalizer.
    pub Kept : World → Type 0
    pub got :
        (w w' : World) (mr : MimirRules)
        → C.get_mimir_rules req.namespace req.name w ≡ (ok mr, w')
        → (mr.meta.namespace ≡ req.namespace)
          × (mr.meta.name ≡ req.name)
          × (HasFinalizer C mr ↔ Kept w')
    pub updated :
        (w : World) (mr : MimirRules)
        → mr.meta.namespace ≡ req.namespace
        → mr.meta.name ≡ req.name
        → Updated Kept mr w (C.update_mimir_rules mr w)
    pub added :
        (fs : List String)
        → C.contains_finalizer (C.add_finalizer fs mimir_finalizer) mimir_finalizer ≡ true
    pub reads : (w : World) → Same Kept w ((C.get_mimir_rules req.namespace req.name w).1)
    pub secrets :
        (namespace name : String) (w : World) → Same Kept w ((C.get_secret namespace name w).1)
    pub lists : (s : LabelSelector) (w : World) → Same Kept w ((C.list_prometheus_rules s w).1)
    pub statuses :
        (mr : MimirRules) (w : World) → Same Kept w ((C.update_mimir_rules_status mr w).1)
    pub sends : (q : Request) (w : World) → Kept w → Kept ((C.send q w).1)
