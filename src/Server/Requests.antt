-- ===== src/Server/Requests.antt =====
-- The requests that the calls of the Mimir API send.
use mimir_operator.Base.{
  ◌≡◌, ◌≢◌, ◌⊎◌, inl, inr, ◌∙◌, refl, ap, ℕ, String, string_eq, ◌<>◌, ◌==◌, if◌then◌else◌,
  Bool-cases, List, [], ◌∷◌, ◌++◌, Option, none, All,
}
use mimir_operator.Base.Dict.{Dict}
use mimir_operator.Exec.{Exec, pure, ◌>>◌}
use mimir_operator.Exec.Keeps.{Keeps, continue-Keeps}
use mimir_operator.Client.{Request, MimirClient, query}
use mimir_operator.Ruler.{
  RuleGroup, create_rule_group, create_rule_group_str, delete_rule_group, get_rule_group,
  list_rules, list_rules_element, delete_namespace, create_alertmanager_config,
  delete_alertmanager_config,
}
use mimir_operator.Cluster.{Cluster}
use mimir_operator.Server.Signed.{Signed, Signed-Asked}
use mimir_operator.Client.Asked.{Asked}
use mimir_operator.Server.Sends.{
  do_request-Sends, get_rule_group-Sends, create_rule_group-Sends, create_rule_group_str-Sends,
  list_rules-Sends, list_rules_element-Sends, delete_namespace-Sends,
  create_alertmanager_config-Sends, delete_alertmanager_config-Sends,
}

-- The requests that were sent until now, the last first.
pub record Logged (C : Cluster) : Type 0 where
  pub requests : C.World → List Request
  pub sends : (q : Request) (w : C.World) → requests ((C.send q w).1) ≡ q ∷ requests w

-- All requests since the world `w` are of the kind `T`.
abbrev pub Since : (C : Cluster) → Logged C → (Request → Type 0) → C.World → C.World → Type 0
Since C L T w w' = (new : List Request) × (L.requests w' ≡ new ++ L.requests w) × All T new

module _ (C : Cluster) (L : Logged C) (T : Request → Type 0) where
  pub Since-send : (w : C.World) (q : Request) → T q → Keeps (Since C L T w) (C.send q)
  Since-send w q t w' (new, since, all) =
      (q ∷ new, L.sends q w' ∙ ap (λ qs. q ∷ qs) since, (t, all))

  pub Since-same :
      {w w₁ w₂ : C.World} → L.requests w₂ ≡ L.requests w₁ → Since C L T w w₁ → Since C L T w w₂
  Since-same e (new, since, all) = (new, e ∙ since, all)

-- A call of the API.
pub data Call : Type 0 where
  create_group : String → RuleGroup → Call
  create_groups : String → String → Call
  delete_group get_group : String → String → Call
  list list_elements drop_namespace : String → Call
  create_config : String → Dict String → Call
  delete_config : Call
  run_query : ℕ → String → Call

module _ (C : Cluster) (r : MimirClient) where
  open C use {World, send, net, yaml}

  abbrev pub run : Call → Exec World (Unit {0})
  run (create_group namespace g) = create_rule_group net yaml send r namespace g
  run (create_groups namespace text) = create_rule_group_str net yaml send r namespace text
  run (delete_group namespace name) = delete_rule_group net yaml send r namespace name
  run (get_group namespace name) = do get_rule_group net yaml send r namespace name; pure tt
  run (list namespace) = do list_rules net yaml send r namespace; pure tt
  run (list_elements tenant) = do list_rules_element net yaml send r tenant; pure tt
  run (drop_namespace namespace) = delete_namespace net yaml send r namespace
  run (create_config cfg templates) = create_alertmanager_config net yaml send r cfg templates
  run delete_config = delete_alertmanager_config net yaml send r
  run (run_query now text) = do query net send r now text; pure tt

  -- The path of a namespace, and of a group in it, with the names escaped.
  abbrev path_of : String → String
  path_of namespace = r.api_path <> ("/" <> net.path_escape namespace)

  abbrev group_path : String → String → String
  group_path namespace name =
      r.api_path <> ("/" <> (net.path_escape namespace <> ("/" <> net.path_escape name)))

  -- The method and the path of the requests of a call.
  abbrev pub Asks : Call → String → String → Type 0
  Asks (create_group namespace g) method path = (method ≡ "POST") × (path ≡ path_of namespace)
  Asks (create_groups namespace text) method path = (method ≡ "POST") × (path ≡ path_of namespace)
  Asks (delete_group namespace name) method path =
      (method ≡ "DELETE") × (path ≡ group_path namespace name)
  Asks (get_group namespace name) method path =
      (method ≡ "GET") × (path ≡ group_path namespace name)
  Asks (list namespace) method path =
      (method ≡ "GET")
      × (((namespace ≡ "") × (path ≡ r.api_path))
          ⊎ ((namespace ≢ "") × (path ≡ r.api_path <> ("/" <> namespace))))
  Asks (list_elements tenant) method path = (method ≡ "GET") × (path ≡ r.api_path)
  Asks (drop_namespace namespace) method path = (method ≡ "DELETE") × (path ≡ path_of namespace)
  Asks (create_config cfg templates) method path = (method ≡ "POST") × (path ≡ "/api/v1/alerts")
  Asks delete_config method path = (method ≡ "DELETE") × (path ≡ "/api/v1/alerts")
  Asks (run_query now text) method path =
      (method ≡ "GET")
      × (path
          ≡ "/prometheus/api/v1/query?query="
            <> (net.query_escape text <> ("&time=" <> net.print_int now)))

  -- The request is the one that the client is to send for a method and a path of the call.
  pub record AskedBy (c : Call) (q : Request) : Type 0 where
    pub path : String
    pub method : String
    pub payload : Option String
    pub asks : Asks c method path
    pub asked : Asked net r path method payload q

  list_path :
      (namespace : String)
      → Asks
          (list namespace)
          "GET"
          (if namespace == "" then r.api_path else r.api_path <> ("/" <> namespace))
  list_path namespace = elim (Bool-cases (namespace == "")) [
    | inl e ↦ (refl, inl ((string_eq.same_iff namespace "").0 e, rw e refl))
    | inr e ↦ (
      refl,
      inr (λ same. let t = (string_eq.same_iff namespace "").1 same in absurd (cc), rw e refl),
    )
  ]

  unit_Keeps :
      (P : World → Type 0) {A : Type 0} (m : Exec World A) → Keeps P m → Keeps P (m >> pure tt)
  unit_Keeps P m keeps w h = continue-Keeps P (m w) (λ _. pure tt) (keeps w h) (λ _ w h. h)

  run-Keeps :
      (P : World → Type 0) (c : Call)
      → ((q : Request) (s : Signed C r q) → Asks c s.method s.path → Keeps P (send q))
      → Keeps P (run c)
  unfolding query delete_rule_group
  run-Keeps P (create_group namespace g) kept =
      create_rule_group-Sends C P r (Asks (create_group namespace g)) kept namespace g (refl, refl)
  run-Keeps P (create_groups namespace text) kept =
      create_rule_group_str-Sends C P r (Asks (create_groups namespace text)) kept namespace text
        (refl, refl)
  run-Keeps P (delete_group namespace name) kept = unit_Keeps P _ (
      do_request-Sends C P r (Asks (delete_group namespace name)) kept _ "DELETE" none (refl, refl))
  run-Keeps P (get_group namespace name) kept = unit_Keeps P _ (
      get_rule_group-Sends C P r (Asks (get_group namespace name)) kept namespace name (refl, refl))
  run-Keeps P (list namespace) kept =
      unit_Keeps P _
        (list_rules-Sends C P r (Asks (list namespace)) kept namespace (list_path namespace))
  run-Keeps P (list_elements tenant) kept =
      unit_Keeps P _
        (list_rules_element-Sends C P r (Asks (list_elements tenant)) kept tenant (refl, refl))
  run-Keeps P (drop_namespace namespace) kept =
      delete_namespace-Sends C P r (Asks (drop_namespace namespace)) kept namespace (refl, refl)
  run-Keeps P (create_config cfg templates) kept =
      create_alertmanager_config-Sends C P r (Asks (create_config cfg templates)) kept cfg templates
        (refl, refl)
  run-Keeps P delete_config kept =
      delete_alertmanager_config-Sends C P r (Asks delete_config) kept (refl, refl)
  run-Keeps P (run_query now text) kept =
      unit_Keeps P _
        (do_request-Sends C P r (Asks (run_query now text)) kept _ "GET" none (refl, refl))

  -- Every request that a call of the API sends, whatever the answers are, has the method of the
  -- call, goes to the address of the client joined with the path of the call, and carries the
  -- header that authenticates the client, if it has a token, a user or a key, its further headers,
  -- and its tenant, and no other header.
  pub calls-AskedBy : (L : Logged C) (c : Call) (w : World) → Since C L (AskedBy c) w ((run c w).1)
  calls-AskedBy L c w =
      run-Keeps (Since C L (AskedBy c) w) c
        (λ q s asks. Since-send C L (AskedBy c) w q (record {
          path = s.path;
          method = s.method;
          payload = s.payload;
          asks = asks;
          asked = Signed-Asked C r q s;
        }))
        w ([], refl, tt)
