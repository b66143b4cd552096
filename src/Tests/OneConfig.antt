-- ===== src/Tests/OneConfig.antt =====
-- A cluster with one MimirAlertManagerConfig, and an Alertmanager that stores what is posted.
use mimir_operator.Base.{
  ◌≡◌, ◌↔◌, sym, ap, ◌∙◌, arith, String, ◌==◌, ◌||◌, string_eq, ℕ, List, [], ◌∷◌, Option, none,
  some, if◌then◌else◌,
}
use mimir_operator.Exec.{failure, Outcome, ok, err, pure}
use mimir_operator.Domain.{MimirAlertManagerConfig, MimirAlertManagerConfigStatus}
use mimir_operator.Client.{Request, Response}
use mimir_operator.Ruler.{ConfigCompat, alertmanager_api_path}
use mimir_operator.Selection.{mem}
use mimir_operator.Cluster.{Cluster}
use mimir_operator.Alertmanager.Server.{AlertServer}
use mimir_operator.Reconcile.{NamespacedName}
use mimir_operator.Tests.Examples.{tenant}
use mimir_operator.Tests.TwoNamespaces as Two
use mimir_operator.Tests.RulerLaws.{built_fields}
use mimir_operator.Tests.OneObject.{without}

-- The configuration that is held, what changes in the object, and the requests that were sent, the
-- last first.
pub record World : Type 0 where
  pub held : Option String
  pub deletion_timestamp : Option ℕ
  pub finalizers : List String
  pub status : MimirAlertManagerConfigStatus
  pub requests : List Request

abbrev pub shown : World → MimirAlertManagerConfig
shown o = record {
  meta = record {
    namespace = "mimir";
    name = "tenant";
    deletion_timestamp = o.deletion_timestamp;
    finalizers = o.finalizers;
  };
  spec = record {
    id = "tenant";
    url = "";
    auth = some (record {
      user = "";
      key = "k3y";
      key_secret_ref = none;
      token = "";
      token_secret_ref = none;
    });
    config = "route: {}";
  };
  status = o.status;
}

-- Only a configuration without templates is printed.
unfoldable pub print_config : ConfigCompat → Outcome String
print_config c = elim c.template_files [
  | [] ↦ ok c.alertmanager_config
  | (_ ∷ _) ↦ err (failure "templates")
]

unfoldable pub answer : Request → Response
answer q = if q.method == "POST" || q.method == "DELETE" then Two.answer "" else Two.refusal

unfoldable pub held_after : Request → Option String → Option String
held_after q held =
    if q.method == "POST" then q.body else if q.method == "DELETE" then none else held

abbrev pub send : Request → World → Outcome Response × World
send q w = (ok (answer q), record w { held = held_after q w.held; requests = q ∷ w.requests })

abbrev pub cluster : Cluster
cluster = record {
  World = World;
  get_mimir_rules = λ namespace name. pure (tenant [] []);
  update_mimir_rules = λ mr. pure mr;
  update_mimir_rules_status = λ mr. pure mr;
  get_config = λ namespace name w. (ok (shown w), w);
  update_config = λ c w. (ok c, record w { finalizers = c.meta.finalizers });
  update_config_status = λ c w. (ok c, record w { status = c.status });
  list_mimir_rules = pure [];
  list_prometheus_rules = λ s. pure [];
  get_prometheus_rule = λ namespace name w. (err (failure "no rule"), w);
  get_secret = λ namespace name. pure [];
  send = send;
  net = Two.net;
  yaml = record (Two.cluster.yaml) { marshal_config = print_config };
  encode_json = λ p. ok p.name;
  decode_filter = λ s. ok s;
  encode_yaml = λ s. ok s;
  contains_finalizer = λ fs f. mem f fs;
  add_finalizer = λ fs f. f ∷ fs;
  remove_finalizer = without;
  range_order = λ w m. m;
}

unfoldable pub Held : Option String → ConfigCompat → Type 0
Held none x = ⊥
Held (some text) x = print_config x ≡ ok text

print_config_inj :
    (x c : ConfigCompat) (text : String)
    → print_config x ≡ ok text
    → print_config c ≡ ok text
    → x ≡ c
unfolding print_config
print_config_inj x c text h k = ground arith

pub server : AlertServer cluster Two.client
unfolding held_after Held
server = record {
  Holds = λ w. Held w.held;
  posted = λ payload c w w' resp printed a x.
      let (m, _, body) = built_fields alertmanager_api_path "POST" (some payload) a.req a.built in
      let stored : w'.held ≡ some payload = rw m at (sym (ap (λ p. p.1.held) a.sent)) ∙ body in
      rw stored (λ h. print_config_inj x c payload h printed, λ e. rw e printed);
  deleted = λ w w' resp a x h.
      let (m, _, _) = built_fields alertmanager_api_path "DELETE" none a.req a.built in
      let gone : w'.held ≡ none = rw m at (sym (ap (λ p. p.1.held) a.sent)) in
      let h' = rw gone at h in h';
}

abbrev pub req : NamespacedName
req = record { namespace = "mimir"; name = "tenant" }

pub iff_of :
    (w w' : World) → w'.held ≡ w.held → (x : ConfigCompat) → server.Holds w' x ↔ server.Holds w x
unfolding server
iff_of w w' e x = rw e (λ h. h, λ h. h)

abbrev pub world : Option String → Option ℕ → List String → World
world config deleted fs = record {
  held = config;
  deletion_timestamp = deleted;
  finalizers = fs;
  status = record { status = ""; error = "" };
  requests = [];
}
