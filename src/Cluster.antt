-- ===== src/Cluster.antt =====
-- What the controllers call and the repository does not implement: the Kubernetes API, the HTTP
-- transport, the encoders, and the order in which Go visits a map. All act on one world.
use mimir_operator.Base.{String, Bool, List}
use mimir_operator.Base.Dict.{Dict}
use mimir_operator.Exec.{Exec, Outcome}
use mimir_operator.Prometheus.{PrometheusRule}
use mimir_operator.Domain.{LabelSelector, MimirRules, MimirAlertManagerConfig}
use mimir_operator.Client.{NetLibrary, Request, Response}
use mimir_operator.Ruler.{Yaml}

pub record Cluster : Type 1 where
  pub World : Type 0
  -- `Get`, `Update` and `Status().Update` of the client; an update gives the stored object.
  pub get_mimir_rules : String → String → Exec World MimirRules
  pub update_mimir_rules : MimirRules → Exec World MimirRules
  pub update_mimir_rules_status : MimirRules → Exec World MimirRules
  pub get_config : String → String → Exec World MimirAlertManagerConfig
  pub update_config : MimirAlertManagerConfig → Exec World MimirAlertManagerConfig
  pub update_config_status : MimirAlertManagerConfig → Exec World MimirAlertManagerConfig
  pub list_mimir_rules : Exec World (List MimirRules)
  -- `LabelSelectorAsSelector` and the list call over all namespaces.
  pub list_prometheus_rules : LabelSelector → Exec World (List PrometheusRule)
  pub get_prometheus_rule : String → String → Exec World PrometheusRule
  pub get_secret : String → String → Exec World (Dict String)
  -- `http.Client.Do`
  pub send : Request → Exec World Response
  pub net : NetLibrary
  pub yaml : Yaml
  -- `runtime.Encode` with the codec, `json.Unmarshal` into the filter of the specification, and
  -- `yaml.Marshal` of what the filter keeps.
  pub encode_json : PrometheusRule → Outcome String
  pub decode_filter : String → Outcome String
  pub encode_yaml : String → Outcome String
  -- controllerutil: `ContainsFinalizer`, `AddFinalizer`, `RemoveFinalizer` on the list of
  -- finalizers.
  pub contains_finalizer : List String → String → Bool
  pub add_finalizer : List String → String → List String
  pub remove_finalizer : List String → String → List String
  -- The entries of a map in the order of a `range` that begins in this world: another range over
  -- the same map may have another order.
  pub range_order : World → Dict String → Dict String
