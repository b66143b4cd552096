-- ===== src/Ruler.antt =====
-- internal/controller/mimirapi/rules.go and alerts.go: the calls of the Mimir API. The YAML library
-- is a parameter. The bodies that a response gives are read whole.
use Prim.Native.String.{compare}
use Prim.Native.Nat.{Ordering}
use mimir_operator.Base.{
  String, ◌<>◌, ◌==◌, string_eq, List, [], ◌∷◌, ◌++◌, map, none, some, if◌then◌else◌,
}
use mimir_operator.Base.Dict.{Dict, keys, lookup}
use mimir_operator.Exec.{Exec, Outcome, pure, lift, wrap, for_each, ◌>>=◌, ◌>>◌}
use mimir_operator.Client.{NetLibrary, Request, Response, MimirClient, do_request}

-- `rwrulefmt.RuleGroup`: its name, and all that it says beside its name.
pub record RuleGroup : Type 0 where
  pub name : String
  pub definition : String

-- The file format of a namespace, `rwrulefmt.RuleNamespace`.
pub record RuleNamespace : Type 0 where
  pub namespace : String
  pub groups : List RuleGroup

pub record RuleElement : Type 0 where
  pub namespace : String
  pub rule_group : String

pub record ConfigCompat : Type 0 where
  pub template_files : Dict String
  pub alertmanager_config : String

pub record Yaml : Type 0 where
  pub marshal_group : RuleGroup → Outcome String
  pub unmarshal_group : String → Outcome RuleGroup
  pub unmarshal_namespace : String → Outcome RuleNamespace
  pub unmarshal_rule_set : String → Outcome (Dict (List RuleGroup))
  pub marshal_config : ConfigCompat → Outcome String

abbrev pub alertmanager_api_path : String
alertmanager_api_path = "/api/v1/alerts"

-- `sort.Strings` and `slices.Sort`, by insertion.
unfoldable pub insert_sorted : String → List String → List String
insert_sorted x [] = x ∷ []
insert_sorted x (y ∷ ys) = elim (compare x y) [
  | Ordering.gt ↦ y ∷ insert_sorted x ys
  | _ ↦ x ∷ y ∷ ys
]

unfoldable pub sort_strings : List String → List String
unfolding insert_sorted
sort_strings [] = []
sort_strings (x ∷ xs) = insert_sorted x (sort_strings xs)

-- The loops of `ListRulesElement` over the sorted namespaces and their groups.
unfoldable pub rule_elements : Dict (List RuleGroup) → List String → List RuleElement
unfolding lookup
rule_elements rule_set [] = []
rule_elements rule_set (ns ∷ ns_keys) =
    map (λ rg. record { namespace = ns; rule_group = rg.name })
      (elim (lookup ns rule_set) [ none ↦ [] | some groups ↦ groups ])
    ++ rule_elements rule_set ns_keys

module _ (U : NetLibrary) (Y : Yaml) {W : Type 0} (send : Request → Exec W Response) where
  unfoldable pub create_rule_group : MimirClient → String → RuleGroup → Exec W (Unit {0})
  create_rule_group r namespace rg = do
    payload ← lift (Y.marshal_group rg)
    do_request U send r (r.api_path <> ("/" <> U.path_escape namespace)) "POST" (some payload)
    pure tt

  unfoldable pub create_rule_group_str : MimirClient → String → String → Exec W (Unit {0})
  unfolding create_rule_group
  create_rule_group_str r namespace rg = do
    rns ← wrap "failed to unmarshal rule group" (lift (Y.unmarshal_namespace rg))
    for_each (create_rule_group r namespace) rns.groups

  unfoldable pub delete_rule_group : MimirClient → String → String → Exec W (Unit {0})
  delete_rule_group r namespace group_name = do
    do_request U send r
        (r.api_path <> ("/" <> (U.path_escape namespace <> ("/" <> U.path_escape group_name))))
        "DELETE" none
    pure tt

  unfoldable pub get_rule_group : MimirClient → String → String → Exec W RuleGroup
  get_rule_group r namespace group_name = do
    res ←
        do_request U send r
          (r.api_path <> ("/" <> (U.path_escape namespace <> ("/" <> U.path_escape group_name))))
          "GET" none
    body ← lift res.body
    wrap "unable to unmarshal response" (lift (Y.unmarshal_group body))

  unfoldable pub list_rules : MimirClient → String → Exec W (Dict (List RuleGroup))
  list_rules r namespace = do
    let path = if namespace == "" then r.api_path else r.api_path <> ("/" <> namespace)
    res ← do_request U send r path "GET" none
    body ← lift res.body
    lift (Y.unmarshal_rule_set body)

  -- The argument is not used: every namespace of the tenant is listed.
  unfoldable pub list_rules_element : MimirClient → String → Exec W (List RuleElement)
  unfolding list_rules rule_elements sort_strings
  list_rules_element r namespace = do
    rule_set ← list_rules r ""
    pure (rule_elements rule_set (sort_strings (keys rule_set)))

  unfoldable pub delete_namespace : MimirClient → String → Exec W (Unit {0})
  delete_namespace r namespace = do
    do_request U send r (r.api_path <> ("/" <> U.path_escape namespace)) "DELETE" none
    pure tt

  unfoldable pub create_alertmanager_config : MimirClient → String → Dict String → Exec W (Unit {0})
  create_alertmanager_config r cfg templates = do
    payload ←
        lift (Y.marshal_config (record { template_files = templates; alertmanager_config = cfg }))
    do_request U send r alertmanager_api_path "POST" (some payload)
    pure tt

  unfoldable pub delete_alertmanager_config : MimirClient → Exec W (Unit {0})
  delete_alertmanager_config r = do do_request U send r alertmanager_api_path "DELETE" none; pure tt
