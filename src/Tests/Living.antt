-- ===== src/Tests/Living.antt =====
-- A ruler and a cluster that answer: a reconciliation comes to its end.
use mimir_operator.Base.{
  ◌≤◌, ◌≡◌, ◌⊎◌, inl, inr, refl, sym, ap, ◌∙◌, arith, String, ◌==◌, string_eq, true, false, List,
  [], ◌∷◌, Option, none, some, Bool-cases,
}
use mimir_operator.Base.Dict.{Dict, lookup}
use mimir_operator.Exec.{ok}
use mimir_operator.Auth.{extract_auth}
use mimir_operator.Domain.{MimirRules}
use mimir_operator.Client.{Request, Response, new}
use mimir_operator.Ruler.{RuleGroup}
use mimir_operator.Selection.{mem, find_prometheus_rules}
use mimir_operator.Overrides.{apply_overrides}
use mimir_operator.ExternalLabels.{apply_external_labels}
use mimir_operator.Server.{Answered}
use mimir_operator.Server.Signed.{Signed}
use mimir_operator.Server.Live.{Live}
use mimir_operator.Sync.{unpack_rules, wanted_rules}
use mimir_operator.Sync.Live.{AcceptsAll}
use mimir_operator.Reconcile.{mimir_finalizer, create_mimir_client, reconcile}
use mimir_operator.Reconcile.Reported.{Begins, RulerSynced}
use mimir_operator.Reconcile.Stored.{Empty}
use mimir_operator.Reconcile.Live.{Stores, reconcile-synced}
use mimir_operator.Reconcile.Release.{reconcile-released}
use mimir_operator.Tests.TwoNamespaces as Two
use mimir_operator.Tests.RulerLaws.{outcome_same, built_fields}
use mimir_operator.Tests.OneObject.{World, shown, without, cluster, server, req, object}
use mimir_operator.Tests.Reporting.{visits, statuses}
use mimir_operator.Tests.Finalizers.{stored}

-- Posts to one namespace are taken.
abbrev Serves : String → String → Option String → Type 0
Serves method path payload =
    (method ≡ "GET") ⊎ (method ≡ "DELETE") ⊎ ((method ≡ "POST") × (path ≡ Two.path "tempo_alerts"))

abbrev logged : World → Request → World
logged w q = (w.0, record (w.1) { requests = q ∷ w.1.requests })

answers :
    (q : Request) (w : World) (s : Signed cluster Two.client q)
    → Serves s.method s.path s.payload
    → (resp : Response) × (w' : World) × (cluster.send q w ≡ (ok resp, w'))
      × (200 ≤ resp.status_code)
      × (resp.status_code ≤ 299)
unfolding Two.send
answers q w s serves =
    let (method, url, _) = built_fields s.path s.method s.payload s.base s.built in
    let m = ap (λ q. q.method) s.same ∙ method in
    let u = ap (λ q. q.url) s.same ∙ url in
    elim serves [
      | inl get ↦ let g = m ∙ get in rw g (_, _, refl, omega arith, omega arith)
      | inr (inl delete) ↦ let d = m ∙ delete in rw d (_, _, refl, omega arith, omega arith)
      | inr (inr (post, target)) ↦
          let p = m ∙ post in
          let t = (string_eq.same_iff q.url (Two.path "tempo_alerts")).1 (u ∙ target) in
          rw (p, t) (_, _, refl, omega arith, omega arith)
    ]

readable :
    (w w' : World) (resp : Response)
    → Answered cluster Two.client Two.client.api_path "GET" none w w' resp
    → (body : String) × (rule_set : Dict (List RuleGroup)) × (resp.body ≡ ok body)
      × (cluster.yaml.unmarshal_rule_set body ≡ ok rule_set)
unfolding Two.send
readable w w' resp a =
    let (method, _, _) = built_fields Two.client.api_path "GET" none a.req a.built in
    let sent = rw method at a.sent in
    let same : Two.answer (Two.print (w.0)) ≡ resp = outcome_same (ap (λ p. p.0) sent) in
    (Two.print (w.0), _, ap (λ a. a.body) (sym same), refl)

live : Live cluster Two.client
live = record {
  server = record {
    Serves = Serves;
    parses = λ method path payload serves. (_, refl);
    answers = answers;
  };
  lists = inl refl;
  deletes = λ namespace. inr (inl refl);
  readable = readable;
}

stores : Stores cluster Two.client
stores = record { updates = λ mr w. (mr, _, refl); statuses = λ mr w. (mr, _, refl) }

abbrev mr : MimirRules
mr = shown (object none [])

abbrev unpacked : Dict String
unpacked = ("tempo_alerts", "alerts") ∷ []

wanted : (w : World) → wanted_rules cluster mr.spec w ≡ (ok unpacked, w)
unfolding wanted_rules find_prometheus_rules apply_overrides unpack_rules apply_external_labels
wanted w = refl

accepts : AcceptsAll cluster Two.client live unpacked
unfolding live Two.print_group lookup
accepts namespace text found = elim (Bool-cases ("tempo_alerts" == namespace)) [
  | inl e ↦
      let same = sym ((string_eq.same_iff "tempo_alerts" namespace).0 e) in
      (_, refl, (("a: up", refl, inr (inr (refl, ap Two.path same))), tt))
  | inr e ↦ let none_found = rw e at found in absurd (cc)
]

-- A new object, and a namespace that is no longer wanted.
abbrev new_world : World
new_world = ((true, false), object none [])

made :
    create_mimir_client cluster mr.spec.auth mr.spec.url mr.spec.id mr.meta.namespace new_world
    ≡ (ok Two.client, new_world)
unfolding create_mimir_client extract_auth new
made = refl

reconcile-synced_example :
    (w' : World) × (reconcile cluster req new_world ≡ (ok tt, w'))
    × (w₀ : World) × Begins cluster Two.client server mr new_world w₀
    × ((statuses.status_of w').status ≡ "Synced")
    × ((statuses.status_of w').error ≡ "")
    × RulerSynced cluster Two.client server mr.spec
        (statuses.status_of w').ref_rules
        new_world
        w₀
        w'
reconcile-synced_example =
    reconcile-synced cluster Two.client server req statuses visits new_world new_world new_world mr
      live stores refl refl made (λ w₀ begins. (unpacked, w₀, wanted w₀, accepts))

-- The object is being deleted, and the ruler holds a group in both namespaces.
abbrev leaving : World
leaving = ((true, true), object (some 5) (mimir_finalizer ∷ []))

pub without-mem : (fs : List String) (f : String) → mem f (without fs f) ≡ false
unfolding mem without
without-mem [] f = refl
without-mem (g ∷ fs) f = let rest = without-mem fs f in ground arith

has : mem mimir_finalizer (mimir_finalizer ∷ []) ≡ true
unfolding mem
has = refl

leaving_made :
    create_mimir_client cluster mr.spec.auth mr.spec.url mr.spec.id mr.meta.namespace leaving
    ≡ (ok Two.client, leaving)
unfolding create_mimir_client extract_auth new
leaving_made = refl

reconcile-released_example :
    (w' : World) × (reconcile cluster req leaving ≡ (ok tt, w'))
    × Empty cluster Two.client server w'
    × (¬ stored.Kept w')
reconcile-released_example =
    reconcile-released cluster Two.client server req stored leaving leaving leaving
      (shown (leaving.1)) live stores (λ fs. without-mem fs mimir_finalizer) refl refl has
      leaving_made
