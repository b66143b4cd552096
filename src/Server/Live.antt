-- ===== src/Server/Live.antt =====
-- A Mimir that answers: what the client needs of it for its calls to succeed.
use mimir_operator.Base.{◌≡◌, refl, String, List, [], ◌∷◌, none, some, All}
use mimir_operator.Base.Dict.{Dict, keys}
use mimir_operator.Exec.{ok}
use mimir_operator.Exec.Succeeds.{Succeeds, Succeeds-bind, for_each-Succeeds}
use mimir_operator.Client.{Header, Response, MimirClient, credentials}
use mimir_operator.Ruler.{
  rule_elements, sort_strings, RuleGroup, RuleNamespace, create_rule_group, create_rule_group_str,
  list_rules, list_rules_element, delete_namespace,
}
use mimir_operator.Cluster.{Cluster}
use mimir_operator.Server.{Answered, namespace_path}
use mimir_operator.Server.Answering.{Answering, do_request-answered, do_request-Succeeds}

module _ (C : Cluster) (r : MimirClient) where
  open C use {World, send, net, yaml}

  -- The ruler answers its listing, which can be read, and each deletion.
  pub record Live : Type 1 where
    pub server : Answering C r
    pub lists : server.Serves "GET" r.api_path none
    pub deletes : (namespace : String) → server.Serves "DELETE" (namespace_path C r namespace) none
    pub readable :
        (w w' : World) (resp : Response)
        → Answered C r r.api_path "GET" none w w' resp
        → (body : String) × (rule_set : Dict (List RuleGroup)) × (resp.body ≡ ok body)
          × (yaml.unmarshal_rule_set body ≡ ok rule_set)

  module _ (L : Live) where
    -- The group can be printed, and its post is answered with a success.
    abbrev pub Accepted : String → RuleGroup → Type 0
    Accepted namespace g =
        (payload : String) × (yaml.marshal_group g ≡ ok payload)
        × L.server.Serves "POST" (namespace_path C r namespace) (some payload)

    -- The text can be read, and each of its groups is accepted.
    abbrev pub AcceptedText : String → String → Type 0
    AcceptedText namespace text =
        (rns : RuleNamespace) × (yaml.unmarshal_namespace text ≡ ok rns)
        × All (Accepted namespace) rns.groups

  module _ (L : Live) (auth : List Header) (allowed : credentials r ≡ ok auth) where
    pub delete_namespace-Succeeds :
        (namespace : String) → Succeeds (delete_namespace net yaml send r namespace)
    unfolding delete_namespace
    delete_namespace-Succeeds namespace =
        Succeeds-bind _ _
          (do_request-Succeeds C r L.server auth allowed (namespace_path C r namespace) "DELETE"
            none (L.deletes namespace))
          (λ _ w. (tt, w, refl))

    pub list_rules_element-Succeeds :
        (tenant : String) → Succeeds (list_rules_element net yaml send r tenant)
    unfolding list_rules_element list_rules
    list_rules_element-Succeeds tenant w =
        let (resp, w', ran, answered) =
          do_request-answered C r L.server auth allowed r.api_path "GET" none w L.lists in
        let (body, rule_set, has, read) = L.readable w w' resp answered in
        (rule_elements rule_set (sort_strings (keys rule_set)), w', rw (ran, has, read) refl)

    create_rule_group-Succeeds :
        (namespace : String) (g : RuleGroup)
        → Accepted L namespace g
        → Succeeds (create_rule_group net yaml send r namespace g)
    unfolding create_rule_group
    create_rule_group-Succeeds namespace g (text, printed, serves) w =
        let path = namespace_path C r namespace in
        let (resp, w', ran) =
          do_request-Succeeds C r L.server auth allowed path "POST" (some text) serves w in
        (tt, w', rw (printed, ran) refl)

    groups-Succeeds :
        (namespace : String) (gs : List RuleGroup)
        → All (Accepted L namespace) gs
        → All (λ g. Succeeds (create_rule_group net yaml send r namespace g)) gs
    groups-Succeeds namespace [] _ = tt
    groups-Succeeds namespace (g ∷ gs) (accepted, rest) =
        (create_rule_group-Succeeds namespace g accepted, groups-Succeeds namespace gs rest)

    pub create_rule_group_str-Succeeds :
        (namespace text : String)
        → AcceptedText L namespace text
        → Succeeds (create_rule_group_str net yaml send r namespace text)
    unfolding create_rule_group_str
    create_rule_group_str-Succeeds namespace text (rns, read, accepted) w =
        let (a, w', ran) =
          for_each-Succeeds (create_rule_group net yaml send r namespace) rns.groups
            (groups-Succeeds namespace rns.groups accepted) w in
        (a, w', rw (read, ran) refl)
