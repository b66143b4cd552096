-- ===== src/Tests/Examples.antt =====
-- The resources and the cluster that the tests use.
use mimir_operator.Base.{
  String, ◌==◌, string_eq, true, false, List, [], ◌∷◌, none, some, if◌then◌else◌,
}
use mimir_operator.Base.Dict.{Dict}
use mimir_operator.Exec.{failure, Outcome, ok, err, pure}
use mimir_operator.Prometheus.{Rule, RuleGroup, PrometheusRule, ExprType}
use mimir_operator.Overrides.{Override}
use mimir_operator.Domain.{LabelSelector, MimirRules}
use mimir_operator.Client.{Response, NetLibrary, MimirClient, ruler_api_path}
use mimir_operator.Cluster.{Cluster}

abbrev pub alert : String → Rule
alert name = record {
  recording = "";
  alert = name;
  expr = record { expr_type = ExprType.string; int_val = 0; str_val = "up == 0" };
  for_duration = some "5m";
  labels = some (("severity", "page") ∷ []);
  annotations = none;
}

abbrev pub group : String → List Rule → RuleGroup
group name rules = record { name = name; interval = none; rules = rules }

abbrev pub resource : String → String → List RuleGroup → PrometheusRule
resource namespace name groups = record { namespace = namespace; name = name; groups = groups }

abbrev pub loki : PrometheusRule
loki = resource "loki" "alerts" (group "g" (alert "Down" ∷ alert "Slow" ∷ []) ∷ [])

abbrev pub tempo : PrometheusRule
tempo = resource "tempo" "alerts" []

abbrev pub off : Override
off = record { disable = true; annotations = none; labels = none; expr = ""; for_duration = "" }

abbrev pub longer : Override
longer = record {
  disable = false;
  annotations = none;
  labels = some (("severity", "info") ∷ []);
  expr = "up < 1";
  for_duration = "";
}

abbrev pub select : String → LabelSelector
select team = record { match_labels = ("team", team) ∷ []; match_expressions = [] }

abbrev pub tenant : List LabelSelector → List String → MimirRules
tenant selectors refs = record {
  meta = record {
    namespace = "mimir";
    name = "tenant";
    deletion_timestamp = none;
    finalizers = [];
  };
  spec = record {
    id = "tenant";
    url = "http://mimir";
    auth = none;
    rules = some (record { selectors = selectors });
    overrides = [];
    external_labels = [];
  };
  status = record { status = ""; error = ""; ref_rules = refs };
}

-- The listing by a label `team`: the value `loki` selects two resources, any other one of them.
abbrev pub team_rules : LabelSelector → List PrometheusRule
team_rules s = elim s.match_labels [
  | [] ↦ []
  | (key, value) ∷ _ ↦ if value == "loki" then loki ∷ tempo ∷ [] else tempo ∷ []
]

abbrev pub net : NetLibrary
net = record {
  parse = λ s. ok (record { base = s; path = ""; raw_path = ""; raw_query = "" });
  escaped_path = λ u. u.path;
  print = λ u. u.base;
  path_escape = λ s. s;
  query_escape = λ s. s;
  quote = λ s. s;
  print_int = λ n. "0";
}

abbrev pub answer_ok : Response
answer_ok = record { status_code = 202; status = "202 Accepted"; body = ok ""; head = ok "" }

abbrev pub secret : Dict String
secret = ("token", "t0ken") ∷ ("key", "k3y") ∷ []

-- A cluster that no call changes, with the given resources and listing.
abbrev pub cluster : List MimirRules → (LabelSelector → Outcome (List PrometheusRule)) → Cluster
cluster items listing = record {
  World = Unit;
  get_mimir_rules = λ namespace name. pure (tenant [] []);
  update_mimir_rules = λ mr. pure mr;
  update_mimir_rules_status = λ mr. pure mr;
  get_config = λ namespace name w. (err (failure "no config"), w);
  update_config = λ c. pure c;
  update_config_status = λ c. pure c;
  list_mimir_rules = pure items;
  list_prometheus_rules = λ s w. (listing s, w);
  get_prometheus_rule = λ namespace name. pure loki;
  get_secret = λ namespace name. pure secret;
  send = λ req. pure answer_ok;
  net = net;
  yaml = record {
    marshal_group = λ g. ok g.name;
    unmarshal_group = λ s. ok (record { name = s; definition = s });
    unmarshal_namespace = λ s. ok (record { namespace = s; groups = [] });
    unmarshal_rule_set = λ s. ok [];
    marshal_config = λ c. ok c.alertmanager_config;
  };
  encode_json = λ p. ok p.name;
  decode_filter = λ s. ok s;
  encode_yaml = λ s. ok s;
  contains_finalizer = λ fs f. false;
  add_finalizer = λ fs f. f ∷ fs;
  remove_finalizer = λ fs f. [];
  range_order = λ w m. m;
}

abbrev pub keyed_client : MimirClient
keyed_client = record {
  user = "";
  key = "k3y";
  id = "tenant";
  endpoint = record { base = "http://mimir"; path = ""; raw_path = ""; raw_query = "" };
  api_path = ruler_api_path;
  auth_token = "";
  extra_headers = [];
}
