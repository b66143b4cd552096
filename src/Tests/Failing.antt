-- ===== src/Tests/Failing.antt =====
-- A request that the ruler with two namespaces refuses, and its listing.
use mimir_operator.Base.{◌≡◌, refl, string_eq, true, false, some, ◌↔◌, String, List, [], ◌∷◌, none}
use mimir_operator.Exec.{Error, failure, wrapped, err, ok}
use mimir_operator.Client.{build_request, credentials, check_response, do_request, Response}
use mimir_operator.Client.Failures.{Failed, do_request-Failed}
use mimir_operator.Base.Dict.{Dict}
use mimir_operator.Ruler.{RuleGroup, RuleElement, list_rules_element}
use mimir_operator.Server.{Answered}
use mimir_operator.Server.Elements.{Element, Holds, list_rules_element_iff}
use mimir_operator.Tests.TwoNamespaces as Two

abbrev world : Two.Flags
world = (true, false)

abbrev refusal : Error
refusal =
    wrapped "POST request to /unknown failed"
      (failure "server returned HTTP status: 500 Internal Server Error")

refused :
    do_request Two.net Two.send Two.client "/unknown" "POST" (some "a: up") world
    ≡ (err refusal, world)
unfolding do_request build_request credentials Two.send check_response
refused = refl

do_request-Failed_example :
    Failed Two.net Two.send Two.client "/unknown" "POST" (some "a: up") world refusal world
do_request-Failed_example =
    do_request-Failed Two.net Two.send Two.client "/unknown" "POST" (some "a: up") world world
      refusal refused

abbrev both : Two.Flags
both = (true, true)

abbrev elements : List RuleElement
elements =
    record { namespace = "old"; rule_group = "a" }
    ∷ record { namespace = "tempo_alerts"; rule_group = "a" }
    ∷ []

listed :
    list_rules_element Two.net Two.cluster.yaml Two.send Two.client "tenant" both
    ≡ (ok elements, both)
unfolding list_rules_element do_request build_request credentials Two.send Two.print check_response
    Two.listing Two.read
listed = refl

list_rules_element_iff_example :
    (resp : Response) × (body : String) × (rule_set : Dict (List RuleGroup)) × Answered Two.cluster
      Two.client Two.client.api_path "GET" none both both resp
    × (resp.body ≡ ok body)
    × (Two.cluster.yaml.unmarshal_rule_set body ≡ ok rule_set)
    × ((e : RuleElement) → Element e elements ↔ Holds rule_set e)
list_rules_element_iff_example =
    list_rules_element_iff Two.cluster Two.client "tenant" both both elements listed
