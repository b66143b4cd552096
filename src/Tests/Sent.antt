-- ===== src/Tests/Sent.antt =====
-- The requests that are sent, at a cluster with one MimirRules.
use mimir_operator.Base.{refl, true, [], ◌∷◌, none}
use mimir_operator.Server.Requests.{Logged, Since, AskedBy, list_elements, run, calls-AskedBy}
use mimir_operator.Reconcile.{mimir_finalizer, reconcile}
use mimir_operator.Reconcile.Tenant.{ForTenant, RulesCall, Quiet, reconcile-ForTenant}
use mimir_operator.Sync.{wanted_rules, sync_rules_to_ruler}
use mimir_operator.Sync.Sent.{MaySend, sync_rules_to_ruler-MaySend}
use mimir_operator.Tests.Reporting.{visits}
use mimir_operator.Tests.TwoNamespaces as Two
use mimir_operator.Tests.OneObject.{World, shown, cluster, req, object}

logged : Logged cluster
logged = record { requests = λ w. w.1.requests; sends = λ q w. refl }

quiet : Quiet cluster logged
unfolding logged
quiet = record {
  gets = λ namespace name w. refl;
  updates = λ mr w. refl;
  statuses = λ mr w. refl;
  secrets = λ namespace name w. refl;
  lists = λ s w. refl;
}

-- The object has the finalizer, and the ruler holds a group in both namespaces.
abbrev pub living : World
living = ((true, true), object none (mimir_finalizer ∷ []))

calls-AskedBy_example :
    Since cluster logged
      (AskedBy cluster Two.client (list_elements "tenant"))
      living
      ((run cluster Two.client (list_elements "tenant") living).1)
calls-AskedBy_example = calls-AskedBy cluster Two.client logged (list_elements "tenant") living

reconcile-ForTenant_example :
    Since cluster logged
      (ForTenant cluster (RulesCall cluster) "tenant" "")
      living
      ((reconcile cluster req living).1)
reconcile-ForTenant_example =
    reconcile-ForTenant cluster logged quiet req living living (shown (living.1)) refl

sync_rules_to_ruler-MaySend_example :
    Since cluster logged
      (MaySend cluster Two.client ((wanted_rules cluster (shown (living.1)).spec living).0))
      living
      ((sync_rules_to_ruler cluster Two.client
        (shown (living.1)).spec
        (shown (living.1), living)).1.1)
unfolding logged
sync_rules_to_ruler-MaySend_example =
    sync_rules_to_ruler-MaySend cluster Two.client logged (λ s w. refl) visits
      (shown (living.1)).spec (shown (living.1)) living
