-- ===== src/Server/Signed.antt =====
-- A request as a client sends it: built for its endpoint, with its credentials and its headers.
use mimir_operator.Base.{◌≡◌, String, ◌<>◌, List, Option}
use mimir_operator.Exec.{ok}
use mimir_operator.Client.{
  NetLibrary, Header, Request, MimirClient, credentials, build_request, with_headers,
}
use mimir_operator.Client.Asked.{Asked}
use mimir_operator.Client.Builds.{with_headers-Asked}
use mimir_operator.Cluster.{Cluster}

pub record Signed (C : Cluster) (r : MimirClient) (req : Request) : Type 0 where
  pub path : String
  pub method : String
  pub payload : Option String
  pub base : Request
  pub auth : List Header
  pub built : build_request C.net path method r.endpoint payload ≡ ok base
  pub allowed : credentials r ≡ ok auth
  pub same : req ≡ with_headers C.net C.send r base auth

-- It is the request that the client is to send for the path and the method.
pub Signed-Asked :
    (C : Cluster) (r : MimirClient) (q : Request) (s : Signed C r q)
    → Asked C.net r s.path s.method s.payload q
Signed-Asked C r q s =
    rw s.same
      (with_headers-Asked C.net C.send r s.path s.method s.payload s.base s.auth s.built s.allowed)

-- The requests of the controller of the rules: the listing, and the posts and the deletions of a
-- namespace, below the path of the ruler.
pub data RulerCall (U : NetLibrary) (api_path : String) : String → String → Type 0 where
  lists : RulerCall U api_path "GET" api_path
  posts :
      (namespace : String)
      → RulerCall U api_path "POST" (api_path <> ("/" <> U.path_escape namespace))
  deletes :
      (namespace : String)
      → RulerCall U api_path "DELETE" (api_path <> ("/" <> U.path_escape namespace))

-- The requests of the controller of the Alertmanager configuration.
pub data ConfigCall : String → String → Type 0 where
  posts_config : ConfigCall "POST" "/api/v1/alerts"
  deletes_config : ConfigCall "DELETE" "/api/v1/alerts"
