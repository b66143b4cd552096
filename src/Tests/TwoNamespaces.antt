-- ===== src/Tests/TwoNamespaces.antt =====
-- A ruler that holds the same group in up to two namespaces.
use mimir_operator.Base.{
  ◌≡◌, String, ◌<>◌, ◌==◌, string_eq, Bool, true, false, not, ◌&&◌, ◌||◌, List, [], ◌∷◌,
  if◌then◌else◌,
}
use mimir_operator.Base.Dict.{Dict}
use mimir_operator.Exec.{failure, Outcome, ok, err, pure}
use mimir_operator.Client.{Request, Response, NetLibrary, MimirClient, ruler_api_path}
use mimir_operator.Ruler.{RuleGroup}
use mimir_operator.Cluster.{Cluster}
use mimir_operator.Tests.Examples.{tempo, tenant, team_rules, keyed_client}

-- Whether the namespaces `old` and `tempo_alerts` hold the group.
abbrev pub Flags : Type 0
Flags = Bool × Bool

abbrev pub up : RuleGroup
up = record { name = "a"; definition = "up" }

abbrev pub path : String → String
path namespace = ruler_api_path <> ("/" <> namespace)

abbrev pub net : NetLibrary
net = record {
  parse = λ s. ok (record { base = ""; path = s; raw_path = ""; raw_query = "" });
  escaped_path = λ u. u.path;
  print = λ u. u.path;
  path_escape = λ s. s;
  query_escape = λ s. s;
  quote = λ s. s;
  print_int = λ n. "0";
}

unfoldable pub held : Flags → String → Bool
held (old, new) namespace = (namespace == "old" && old) || (namespace == "tempo_alerts" && new)

unfoldable pub listing : Flags → Dict (List RuleGroup)
listing (true, true) = ("old", up ∷ []) ∷ ("tempo_alerts", up ∷ []) ∷ []
listing (true, false) = ("old", up ∷ []) ∷ []
listing (false, true) = ("tempo_alerts", up ∷ []) ∷ []
listing (false, false) = []

unfoldable pub print : Flags → String
print (true, true) = "both"
print (true, false) = "old"
print (false, true) = "new"
print (false, false) = ""

unfoldable pub read : String → Flags
read body = (body == "both" || body == "old", body == "both" || body == "new")

unfoldable pub print_group : RuleGroup → Outcome String
print_group g =
    if g.name == "a" && g.definition == "up" then ok "a: up" else err (failure "another group")

abbrev pub answer : String → Response
answer body = record { status_code = 202; status = "202 Accepted"; body = ok body; head = ok body }

abbrev pub refusal : Response
refusal = record {
  status_code = 500;
  status = "500 Internal Server Error";
  body = ok "";
  head = ok "";
}

unfoldable pub send : Request → Flags → Outcome Response × Flags
unfolding print
send req (old, new) =
    if req.method == "GET"
    then (ok (answer (print (old, new))), (old, new))
    else if req.method == "DELETE"
    then (
      ok (answer ""),
      (not (req.url == path "old") && old, not (req.url == path "tempo_alerts") && new),
    )
    else if req.url == path "tempo_alerts"
    then (ok (answer ""), (old, true))
    else (ok refusal, (old, new))

abbrev pub cluster : Cluster
cluster = record {
  World = Flags;
  get_mimir_rules = λ namespace name. pure (tenant [] []);
  update_mimir_rules = λ mr. pure mr;
  update_mimir_rules_status = λ mr. pure mr;
  get_config = λ namespace name w. (err (failure "no config"), w);
  update_config = λ c. pure c;
  update_config_status = λ c. pure c;
  list_mimir_rules = pure [];
  list_prometheus_rules = λ s. pure (team_rules s);
  get_prometheus_rule = λ namespace name. pure tempo;
  get_secret = λ namespace name. pure [];
  send = send;
  net = net;
  yaml = record {
    marshal_group = print_group;
    unmarshal_group = λ s. ok up;
    unmarshal_namespace = λ s. ok (record { namespace = s; groups = up ∷ [] });
    unmarshal_rule_set = λ s. ok (listing (read s));
    marshal_config = λ c. ok c.alertmanager_config;
  };
  encode_json = λ p. ok p.name;
  decode_filter = λ s. ok s;
  encode_yaml = λ s. ok s;
  contains_finalizer = λ fs f. false;
  add_finalizer = λ fs f. f ∷ fs;
  remove_finalizer = λ fs f. [];
  range_order = λ w m. m;
}

abbrev pub client : MimirClient
client = record keyed_client {
  endpoint = record { base = ""; path = ""; raw_path = ""; raw_query = "" };
}

abbrev pub Holds : Flags → String → RuleGroup → Type 0
Holds w namespace x = (held w namespace ≡ true) × (x ≡ up)
