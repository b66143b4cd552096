-- ===== src/Tests/ConfigLiving.antt =====
-- An Alertmanager and a cluster that answer: a reconciliation comes to its end.
use mimir_operator.Base.{
  ◌≤◌, ◌≡◌, ◌↔◌, ◌⊎◌, inl, inr, refl, ap, ◌∙◌, arith, String, string_eq, true, [], ◌∷◌, Option,
}
use mimir_operator.Exec.{ok}
use mimir_operator.Auth.{extract_auth}
use mimir_operator.Client.{Request, Response, new}
use mimir_operator.Ruler.{ConfigCompat}
use mimir_operator.Selection.{mem}
use mimir_operator.Server.Signed.{Signed}
use mimir_operator.Server.Answering.{Answering}
use mimir_operator.Reconcile.{create_mimir_client}
use mimir_operator.Alertmanager.{alert_manager_finalizer, reconcile}
use mimir_operator.Alertmanager.Server.{config_of}
use mimir_operator.Alertmanager.Finalizer.{Empty}
use mimir_operator.Alertmanager.Live.{
  StoresConfig, AcceptedConfig, reconcile_config-synced, reconcile_config-released,
}
use mimir_operator.Tests.TwoNamespaces as Two
use mimir_operator.Tests.RulerLaws.{built_fields}
use mimir_operator.Tests.Living.{without-mem}
use mimir_operator.Tests.OneConfig.{World, shown, print_config, answer, cluster, server, req}
use mimir_operator.Tests.Configs.{stored, statuses, living, leaving}

abbrev Serves : String → String → Option String → Type 0
Serves method path payload = (method ≡ "POST") ⊎ (method ≡ "DELETE")

answers :
    (q : Request) (w : World) (s : Signed cluster Two.client q)
    → Serves s.method s.path s.payload
    → (resp : Response) × (w' : World) × (cluster.send q w ≡ (ok resp, w'))
      × (200 ≤ resp.status_code)
      × (resp.status_code ≤ 299)
unfolding answer
answers q w s serves =
    let (method, _, _) = built_fields s.path s.method s.payload s.base s.built in
    let m = ap (λ q. q.method) s.same ∙ method in
    elim serves [
      | inl post ↦ let p = m ∙ post in rw p (_, _, refl, omega arith, omega arith)
      | inr delete ↦ let d = m ∙ delete in rw d (_, _, refl, omega arith, omega arith)
    ]

abbrev answering : Answering cluster Two.client
answering = record {
  Serves = Serves;
  parses = λ method path payload serves. (_, refl);
  answers = answers;
}

stores : StoresConfig cluster Two.client
stores = record { updates = λ amc w. (amc, _, refl); statuses = λ amc w. (amc, _, refl) }

made :
    (w : World)
    → create_mimir_client cluster (shown w).spec.auth "" "tenant" "mimir" w ≡ (ok Two.client, w)
unfolding create_mimir_client extract_auth new
made w = refl

accepted : AcceptedConfig cluster Two.client answering "route: {}"
unfolding print_config
accepted = ("route: {}", refl, inl refl)

reconcile_config-synced_example :
    (w' : World) × (reconcile cluster req living ≡ (ok tt, w'))
    × ((statuses.status_of w').status ≡ "Synced")
    × ((statuses.status_of w').error ≡ "")
    × ((x : ConfigCompat) → server.Holds w' x ↔ (x ≡ config_of cluster Two.client "route: {}"))
reconcile_config-synced_example =
    reconcile_config-synced cluster Two.client server req statuses answering stores living living
      living (shown living) refl refl (made living) accepted

has : mem alert_manager_finalizer (alert_manager_finalizer ∷ []) ≡ true
unfolding mem
has = refl

reconcile_config-released_example :
    (w' : World) × (reconcile cluster req leaving ≡ (ok tt, w'))
    × Empty cluster Two.client server w'
    × (¬ stored.Kept w')
reconcile_config-released_example =
    reconcile_config-released cluster Two.client server req stored answering stores leaving leaving
      leaving (shown leaving) (inr refl) (λ fs. without-mem fs alert_manager_finalizer) refl refl
      has (made leaving)
