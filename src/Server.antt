-- ===== src/Server.antt =====
-- What the client relies on of the ruler of Mimir, for the tenant of one client: a rule group that
-- is posted replaces the group of its name in its namespace, a deletion empties a namespace, and
-- the listing tells what is held. Each law speaks of requests that were answered with a success.
pub mod Listing
pub mod Calls
pub mod Signed
pub mod Sends
pub mod Elements
pub mod Keeps
pub mod Requests
pub mod Answering
pub mod Live
use mimir_operator.Base.{
  ℕ, ◌≤◌, ◌≡◌, ◌≢◌, ◌↔◌, ◌⊎◌, String, ◌<>◌, List, [], ◌∷◌, Option, none, some,
}
use mimir_operator.Base.Dict.{Dict, lookup}
use mimir_operator.Exec.{Outcome, ok}
use mimir_operator.Client.{Header, Request, Response, MimirClient, build_request, with_headers}
use mimir_operator.Ruler.{RuleGroup}
use mimir_operator.Cluster.{Cluster}

abbrev pub In : RuleGroup → List RuleGroup → Type 0
In x [] = ⊥
In x (g ∷ gs) = (x ≡ g) ⊎ In x gs

-- The rule set of a listing has the group in the namespace.
abbrev pub Lists : Dict (List RuleGroup) → String → RuleGroup → Type 0
Lists rule_set namespace x = (gs : List RuleGroup) × (lookup namespace rule_set ≡ some gs) × In x gs

-- A namespace that holds the groups `P`, after the groups of the list were put into it in order.
abbrev pub AfterPuts : List RuleGroup → (RuleGroup → Type 0) → RuleGroup → Type 0
AfterPuts [] P x = P x
AfterPuts (g ∷ gs) P x = AfterPuts gs (λ y. (y ≡ g) ⊎ ((y.name ≢ g.name) × P y)) x

module _ (C : Cluster) (r : MimirClient) where
  open C use {World, send, net, yaml}

  -- A request for the path was sent with the headers of the client, and answered with a success.
  pub record Answered (path method : String) (payload : Option String) (w w' : World)
      (resp : Response) : Type 0 where
    pub req : Request
    pub auth : List Header
    pub built : build_request net path method r.endpoint payload ≡ ok req
    pub sent : send (with_headers net send r req auth) w ≡ (ok resp, w')
    pub low : 200 ≤ resp.status_code
    pub high : resp.status_code ≤ 299

  abbrev pub namespace_path : String → String
  namespace_path namespace = r.api_path <> ("/" <> net.path_escape namespace)

  -- All other namespaces hold what they held.
  abbrev pub Elsewhere : (World → String → RuleGroup → Type 0) → String → World → World → Type 0
  Elsewhere Holds namespace w w' =
      (other : String) (x : RuleGroup) → other ≢ namespace → Holds w' other x ↔ Holds w other x

  pub record Server : Type 1 where
    -- The rule groups that the ruler holds for the tenant in each namespace.
    pub Holds : World → String → RuleGroup → Type 0
    pub posted :
        (namespace payload : String) (g : RuleGroup) (w w' : World) (resp : Response)
        → yaml.marshal_group g ≡ ok payload
        → Answered (namespace_path namespace) "POST" (some payload) w w' resp
        → ((x : RuleGroup) → Holds w' namespace x ↔ AfterPuts (g ∷ []) (Holds w namespace) x)
          × Elsewhere Holds namespace w w'
    pub deleted :
        (namespace : String) (w w' : World) (resp : Response)
        → Answered (namespace_path namespace) "DELETE" none w w' resp
        → ((x : RuleGroup) → ¬ Holds w' namespace x) × Elsewhere Holds namespace w w'
    pub listed :
        (w w' : World) (resp : Response) (body : String) (rule_set : Dict (List RuleGroup))
        → Answered r.api_path "GET" none w w' resp
        → resp.body ≡ ok body
        → yaml.unmarshal_rule_set body ≡ ok rule_set
        → (namespace : String) (x : RuleGroup)
        → (Holds w' namespace x ↔ Holds w namespace x)
          × (Holds w namespace x ↔ Lists rule_set namespace x)
