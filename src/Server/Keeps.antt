-- ===== src/Server/Keeps.antt =====
-- What the calls of the Mimir API leave as it was, when the requests that they send do.
use mimir_operator.Base.{String, string_eq}
use mimir_operator.Base.Dict.{Dict}
use mimir_operator.Exec.Keeps.{Keeps}
use mimir_operator.Client.{Request, MimirClient}
use mimir_operator.Ruler.{
  RuleGroup, create_alertmanager_config, delete_alertmanager_config, create_rule_group,
  create_rule_group_str, list_rules_element, delete_namespace,
}
use mimir_operator.Cluster.{Cluster}
use mimir_operator.Server.Signed.{
  Signed, RulerCall, lists, posts, deletes, ConfigCall, posts_config, deletes_config,
}
use mimir_operator.Server.Sends.{
  delete_namespace-Sends, create_rule_group-Sends, create_rule_group_str-Sends,
  list_rules_element-Sends, create_alertmanager_config-Sends, delete_alertmanager_config-Sends,
}

module _ (C : Cluster) (P : C.World → Type 0) where
  open C use {World, send, net, yaml}

  module _ (r : MimirClient)
      (kept : (req : Request) (s : Signed C r req)
        → RulerCall net r.api_path s.method s.path
        → Keeps P (send req)) where
    pub delete_namespace-Keeps :
        (namespace : String) → Keeps P (delete_namespace net yaml send r namespace)
    delete_namespace-Keeps namespace =
        delete_namespace-Sends C P r (RulerCall net r.api_path) kept namespace (deletes namespace)

    pub create_rule_group-Keeps :
        (namespace : String) (rg : RuleGroup)
        → Keeps P (create_rule_group net yaml send r namespace rg)
    create_rule_group-Keeps namespace rg =
        create_rule_group-Sends C P r (RulerCall net r.api_path) kept namespace rg (posts namespace)

    pub create_rule_group_str-Keeps :
        (namespace text : String) → Keeps P (create_rule_group_str net yaml send r namespace text)
    create_rule_group_str-Keeps namespace text =
        create_rule_group_str-Sends C P r (RulerCall net r.api_path) kept namespace text
          (posts namespace)

    pub list_rules_element-Keeps :
        (tenant : String) → Keeps P (list_rules_element net yaml send r tenant)
    list_rules_element-Keeps tenant =
        list_rules_element-Sends C P r (RulerCall net r.api_path) kept tenant lists

  module _ (r : MimirClient)
      (kept : (req : Request) (s : Signed C r req)
        → ConfigCall s.method s.path
        → Keeps P (send req)) where
    pub create_alertmanager_config-Keeps :
        (cfg : String) (templates : Dict String)
        → Keeps P (create_alertmanager_config net yaml send r cfg templates)
    create_alertmanager_config-Keeps cfg templates =
        create_alertmanager_config-Sends C P r ConfigCall kept cfg templates posts_config

    pub delete_alertmanager_config-Keeps : Keeps P (delete_alertmanager_config net yaml send r)
    delete_alertmanager_config-Keeps =
        delete_alertmanager_config-Sends C P r ConfigCall kept deletes_config
