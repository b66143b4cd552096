-- ===== src/Reconcile/Reported.antt =====
-- What a status reports: the rules that are in the ruler, or the error of what failed.
use mimir_operator.Base.{◌≡◌, ◌↔◌, ◌⊎◌, String, List}
use mimir_operator.Base.Dict.{Dict, lookup, keys}
use mimir_operator.Exec.{Error, message, Outcome, ok, err}
use mimir_operator.Domain.{LabelSelector, MimirRules, MimirRulesSpec, MimirRulesStatus}
use mimir_operator.Client.{MimirClient}
use mimir_operator.Ruler.{RuleGroup, sort_strings}
use mimir_operator.Cluster.{Cluster}
use mimir_operator.Server.{Server}
use mimir_operator.Sync.{wanted_rules, sync_rules_to_ruler}
use mimir_operator.Sync.Ruler.{Synced}
use mimir_operator.Reconcile.{mimir_finalizer, create_mimir_client, NamespacedName, with_finalizers}
use mimir_operator.Reconcile.Stored.{SameHeld}

module _ (C : Cluster) (r : MimirClient) (S : Server C r) where
  open C use {World}
  open S use {Holds}

  abbrev pub Named : NamespacedName → MimirRules → Type 0
  Named req mr = (mr.meta.namespace ≡ req.namespace) × (mr.meta.name ≡ req.name)

  -- What is relied on of Kubernetes: an update of the status stores it, an update gives the object
  -- back under its name and with its specification, and the calls leave the ruler alone.
  pub record StatusStore (req : NamespacedName) : Type 0 where
    pub status_of : World → MimirRulesStatus
    pub got :
        (w w' : World) (mr : MimirRules)
        → C.get_mimir_rules req.namespace req.name w ≡ (ok mr, w')
        → Named req mr
    pub written :
        (w w' : World) (mr mr' : MimirRules)
        → Named req mr
        → C.update_mimir_rules_status mr w ≡ (ok mr', w')
        → (status_of w' ≡ mr.status) × SameHeld C r S w w'
    pub returned :
        (w w' : World) (mr mr' : MimirRules)
        → C.update_mimir_rules mr w ≡ (ok mr', w')
        → (mr'.meta.namespace ≡ mr.meta.namespace)
          × (mr'.meta.name ≡ mr.meta.name)
          × (mr'.spec ≡ mr.spec)
          × SameHeld C r S w w'
    pub reads : (w : World) → SameHeld C r S w ((C.get_mimir_rules req.namespace req.name w).1)
    pub secrets :
        (namespace name : String) (w : World) → SameHeld C r S w ((C.get_secret namespace name w).1)
    pub lists : (s : LabelSelector) (w : World) → SameHeld C r S w ((C.list_prometheus_rules s w).1)

  abbrev pub client_of : MimirRules → World → Outcome MimirClient × World
  client_of mr = create_mimir_client C mr.spec.auth mr.spec.url mr.spec.id mr.meta.namespace

  abbrev pub added : MimirRules → MimirRules
  added mr = with_finalizers C mr (C.add_finalizer mr.meta.finalizers mimir_finalizer)

  -- The world in which the synchronisation begins: after the client is made, or after the finalizer
  -- is stored then.
  abbrev pub Begins : MimirRules → World → World → Type 0
  Begins mr w₁ w₀ =
      let w₂ = (client_of mr w₁).1 in (w₀ ≡ w₂) ⊎ (w₀ ≡ (C.update_mimir_rules (added mr) w₂).1)

  -- The ruler of `w'` holds the rules that the specification selects in `w₀`, over those of `w`.
  abbrev pub RulerSynced : MimirRulesSpec → List String → World → World → World → Type 0
  RulerSynced spec refs w w₀ w' =
      (w₁ : World) × (unpacked : Dict String) × (wanted_rules C spec w₀ ≡ (ok unpacked, w₁))
      × ((other : String) (x : RuleGroup)
          → Holds w' other x ↔ Synced C (lookup other unpacked) (Holds w other) x)
      × (refs ≡ sort_strings (keys unpacked))

  -- The making of the client, or the synchronisation, failed with this error.
  abbrev pub Failure : MimirRules → World → World → Error → Type 0
  Failure mr w₁ w₀ e =
      ((w₂ : World) × (client_of mr w₁ ≡ (err e, w₂)))
      ⊎ ((mr₀ : MimirRules) × (s : MimirRules × World) × (sync_rules_to_ruler C r mr.spec (mr₀, w₀)
            ≡ (err e, s)))

  abbrev pub Reported : MimirRules → MimirRulesStatus → World → World → World → World → Type 0
  Reported mr st w w₁ w₀ w' =
      ((st.status ≡ "Synced") × (st.error ≡ "") × RulerSynced mr.spec st.ref_rules w w₀ w')
      ⊎ ((st.status ≡ "Failed") × (e : Error) × (st.error ≡ message e) × Failure mr w₁ w₀ e)
