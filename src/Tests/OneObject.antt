-- ===== src/Tests/OneObject.antt =====
-- A cluster with one MimirRules, and a ruler with two namespaces.
use mimir_operator.Base.{
  false, ◌≡◌, ap, String, ◌==◌, string_eq, ℕ, List, [], ◌∷◌, Option, none, some, if◌then◌else◌,
}
use mimir_operator.Exec.{ok, pure}
use mimir_operator.Domain.{MimirRules, MimirRulesStatus}
use mimir_operator.Client.{Request, Response}
use mimir_operator.Selection.{mem}
use mimir_operator.Cluster.{Cluster}
use mimir_operator.Server.{Answered, Server}
use mimir_operator.Server.Calls.{iff_refl}
use mimir_operator.Reconcile.{NamespacedName}
use mimir_operator.Tests.Examples.{select, tenant}
use mimir_operator.Tests.TwoNamespaces as Two
use mimir_operator.Tests.RulerLaws as Laws
use mimir_operator.Reconcile.Stored.{SameHeld, Empty}

-- What changes in the object that is stored, and the requests that were sent, the last first.
pub record Object : Type 0 where
  pub deletion_timestamp : Option ℕ
  pub finalizers : List String
  pub status : MimirRulesStatus
  pub requests : List Request

abbrev pub World : Type 0
World = Two.Flags × Object

abbrev pub shown : Object → MimirRules
shown o = record (tenant (select "tempo" ∷ []) []) {
  meta = record {
    namespace = "mimir";
    name = "tenant";
    deletion_timestamp = o.deletion_timestamp;
    finalizers = o.finalizers;
  };
  spec = record ((tenant (select "tempo" ∷ []) []).spec) {
    url = "";
    auth = some (record {
      user = "";
      key = "k3y";
      key_secret_ref = none;
      token = "";
      token_secret_ref = none;
    });
  };
  status = o.status;
}

unfoldable pub without : List String → String → List String
without [] f = []
without (g ∷ fs) f = let rest = without fs f in if g == f then rest else g ∷ rest

abbrev pub cluster : Cluster
cluster = record {
  World = World;
  get_mimir_rules = λ namespace name (w, o). (ok (shown o), (w, o));
  update_mimir_rules = λ mr (w, o). (ok mr, (w, record o { finalizers = mr.meta.finalizers }));
  update_mimir_rules_status = λ mr (w, o). (ok mr, (w, record o { status = mr.status }));
  get_config = λ namespace name (w, o). ((Two.cluster.get_config namespace name w).0, (w, o));
  update_config = λ c. pure c;
  update_config_status = λ c. pure c;
  list_mimir_rules = λ (w, o). (ok (shown o ∷ []), (w, o));
  list_prometheus_rules = λ s (w, o). ((Two.cluster.list_prometheus_rules s w).0, (w, o));
  get_prometheus_rule =
      λ namespace name (w, o). ((Two.cluster.get_prometheus_rule namespace name w).0, (w, o));
  get_secret = λ namespace name. pure [];
  send = λ req (w, o).
      ((Two.send req w).0, ((Two.send req w).1, record o { requests = req ∷ o.requests }));
  net = Two.net;
  yaml = Two.cluster.yaml;
  encode_json = Two.cluster.encode_json;
  decode_filter = Two.cluster.decode_filter;
  encode_yaml = Two.cluster.encode_yaml;
  contains_finalizer = λ fs f. mem f fs;
  add_finalizer = λ fs f. f ∷ fs;
  remove_finalizer = without;
  range_order = λ w m. m;
}

ruler_part :
    (path method : String) (payload : Option String) (w w' : World) (resp : Response)
    → Answered cluster Two.client path method payload w w' resp
    → Answered Two.cluster Two.client path method payload (w.0) (w'.0) resp
ruler_part path method payload w w' resp a = record {
  req = a.req;
  auth = a.auth;
  built = a.built;
  sent = ap (λ p. (p.0, p.1.0)) a.sent;
  low = a.low;
  high = a.high;
}

pub server : Server cluster Two.client
server = record {
  Holds = λ w. Laws.server.Holds (w.0);
  posted = λ namespace payload g w w' resp e a.
      Laws.server.posted namespace payload g (w.0) (w'.0) resp e
        (ruler_part _ "POST" (some payload) w w' resp a);
  deleted = λ namespace w w' resp a.
      Laws.server.deleted namespace (w.0) (w'.0) resp (ruler_part _ "DELETE" none w w' resp a);
  listed = λ w w' resp body rule_set a.
      Laws.server.listed (w.0) (w'.0) resp body rule_set (ruler_part _ "GET" none w w' resp a);
}

abbrev pub req : NamespacedName
req = record { namespace = "mimir"; name = "tenant" }

pub same_held : (w w' : World) → w.0 ≡ w'.0 → SameHeld cluster Two.client server w w'
unfolding server
same_held w w' e namespace x = rw e iff_refl

abbrev pub object : Option ℕ → List String → Object
object deleted fs = record {
  deletion_timestamp = deleted;
  finalizers = fs;
  status = record { status = ""; error = ""; ref_rules = [] };
  requests = [];
}

pub nothing_held : (o : Object) → Empty cluster Two.client server ((false, false), o)
unfolding server
nothing_held o namespace x h = Laws.nothing_held namespace x h
