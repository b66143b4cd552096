-- ===== src/Server/Sends.antt =====
-- What the calls of the ruler leave as it was, when the requests that they send do, by the method
-- and the path of each request.
use mimir_operator.Base.{
  ◌≡◌, refl, String, ◌<>◌, ◌==◌, if◌then◌else◌, string_eq, List, Option, none, some,
}
use mimir_operator.Base.Dict.{Dict}
use mimir_operator.Exec.{Outcome, ok, err, continue, with_prefix}
use mimir_operator.Exec.Keeps.{Keeps, continue-Keeps, with_prefix-Keeps, for_each-Keeps}
use mimir_operator.Client.{
  Header, Request, MimirClient, build_request, credentials, check_response, checked, with_headers,
  send_with, authorised, do_request,
}
use mimir_operator.Ruler.{
  RuleGroup, alertmanager_api_path, get_rule_group, create_alertmanager_config,
  delete_alertmanager_config, create_rule_group, create_rule_group_str, list_rules,
  list_rules_element, delete_namespace,
}
use mimir_operator.Cluster.{Cluster}
use mimir_operator.Server.{namespace_path}
use mimir_operator.Server.Signed.{Signed}

module _ (C : Cluster) (P : C.World → Type 0) (r : MimirClient) (T : String → String → Type 0)
    (kept : (req : Request) (s : Signed C r req) → T s.method s.path → Keeps P (C.send req)) where
  open C use {World, send, net, yaml}

  allowed_Keeps :
      (path method : String) (payload : Option String) (base : Request)
      → T method path
      → build_request net path method r.endpoint payload ≡ ok base
      → (o : Outcome (List Header)) → credentials r ≡ o
      → (w : World) → P w
      → P ((continue (o, w) (send_with net send r base)).1)
  allowed_Keeps path method payload base t built (ok auth) allowed w h =
      let req = with_headers net send r base auth in
      let signed : Signed C r req = record {
        path = path;
        method = method;
        payload = payload;
        base = base;
        auth = auth;
        built = built;
        allowed = allowed;
        same = refl;
      } in
      continue-Keeps P (send req w) (checked net send req) (kept req signed t w h) (λ resp w h.
        continue-Keeps P (with_prefix _ (check_response net resp, w)) _
          (with_prefix-Keeps P _ (check_response net resp, w) h) (λ _ w h. h))
  allowed_Keeps path method payload base t built (err e) allowed w h = h
  allowed_Keeps path method payload base t built Outcome.panic allowed w h = h

  built_Keeps :
      (path method : String) (payload : Option String) (o : Outcome Request)
      → T method path
      → build_request net path method r.endpoint payload ≡ o
      → (w : World) → P w
      → P ((continue (o, w) (authorised net send r)).1)
  built_Keeps path method payload (ok base) t built w h =
      allowed_Keeps path method payload base t built (credentials r) refl w h
  built_Keeps path method payload (err e) t built w h = h
  built_Keeps path method payload Outcome.panic t built w h = h

  pub do_request-Sends :
      (path method : String) (payload : Option String)
      → T method path
      → Keeps P (do_request net send r path method payload)
  unfolding do_request
  do_request-Sends path method payload t w h =
      built_Keeps path method payload (build_request net path method r.endpoint payload) t refl w h

  pub delete_namespace-Sends :
      (namespace : String)
      → T "DELETE" (namespace_path C r namespace)
      → Keeps P (delete_namespace net yaml send r namespace)
  unfolding delete_namespace
  delete_namespace-Sends namespace t w h =
      continue-Keeps P (do_request net send r _ "DELETE" none w) _
        (do_request-Sends _ "DELETE" none t w h) (λ _ w h. h)

  pub create_rule_group-Sends :
      (namespace : String) (rg : RuleGroup)
      → T "POST" (namespace_path C r namespace)
      → Keeps P (create_rule_group net yaml send r namespace rg)
  unfolding create_rule_group
  create_rule_group-Sends namespace rg t w h =
      continue-Keeps P (yaml.marshal_group rg, w) _ h
        (λ payload w h.
          continue-Keeps P (do_request net send r _ "POST" (some payload) w) _
            (do_request-Sends _ "POST" (some payload) t w h) (λ _ w h. h))

  pub create_rule_group_str-Sends :
      (namespace text : String)
      → T "POST" (namespace_path C r namespace)
      → Keeps P (create_rule_group_str net yaml send r namespace text)
  unfolding create_rule_group_str
  create_rule_group_str-Sends namespace text t w h =
      continue-Keeps P (with_prefix _ (yaml.unmarshal_namespace text, w)) _
        (with_prefix-Keeps P _ (yaml.unmarshal_namespace text, w) h)
        (λ rns. for_each-Keeps P _ rns.groups (λ rg. create_rule_group-Sends namespace rg t))

  pub list_rules_element-Sends :
      (tenant : String) → T "GET" r.api_path → Keeps P (list_rules_element net yaml send r tenant)
  unfolding list_rules_element list_rules
  list_rules_element-Sends tenant t w h =
      continue-Keeps P (list_rules net yaml send r "" w) _
        (continue-Keeps P (do_request net send r _ "GET" none w) _
          (do_request-Sends _ "GET" none t w h)
          (λ resp w h. continue-Keeps P (resp.body, w) _ h (λ body w h. h)))
        (λ _ w h. h)

  pub get_rule_group-Sends :
      (namespace name : String)
      → T "GET"
          (r.api_path <> ("/" <> (net.path_escape namespace <> ("/" <> net.path_escape name))))
      → Keeps P (get_rule_group net yaml send r namespace name)
  unfolding get_rule_group
  get_rule_group-Sends namespace name t w h =
      continue-Keeps P (do_request net send r _ "GET" none w) _
        (do_request-Sends _ "GET" none t w h)
        (λ res w h.
          continue-Keeps P (res.body, w) _ h
            (λ body w h. with_prefix-Keeps P _ (yaml.unmarshal_group body, w) h))

  pub list_rules-Sends :
      (namespace : String)
      → T "GET" (if namespace == "" then r.api_path else r.api_path <> ("/" <> namespace))
      → Keeps P (list_rules net yaml send r namespace)
  unfolding list_rules
  list_rules-Sends namespace t w h =
      continue-Keeps P (do_request net send r _ "GET" none w) _
        (do_request-Sends _ "GET" none t w h)
        (λ resp w h. continue-Keeps P (resp.body, w) _ h (λ body w h. h))

  pub create_alertmanager_config-Sends :
      (cfg : String) (templates : Dict String)
      → T "POST" alertmanager_api_path
      → Keeps P (create_alertmanager_config net yaml send r cfg templates)
  unfolding create_alertmanager_config
  create_alertmanager_config-Sends cfg templates t w h =
      continue-Keeps P
        (yaml.marshal_config (record { template_files = templates; alertmanager_config = cfg }), w)
        _ h
        (λ payload w h.
          continue-Keeps P (do_request net send r _ "POST" (some payload) w) _
            (do_request-Sends _ "POST" (some payload) t w h) (λ _ w h. h))

  pub delete_alertmanager_config-Sends :
      T "DELETE" alertmanager_api_path → Keeps P (delete_alertmanager_config net yaml send r)
  unfolding delete_alertmanager_config
  delete_alertmanager_config-Sends t w h =
      continue-Keeps P (do_request net send r _ "DELETE" none w) _
        (do_request-Sends _ "DELETE" none t w h) (λ _ w h. h)
