-- ===== src/Server/Answering.antt =====
-- A server that answers, and what the client needs for a request to succeed.
use mimir_operator.Base.{◌≡◌, ◌≤◌, refl, String, List, Option}
use mimir_operator.Exec.{ok}
use mimir_operator.Exec.Succeeds.{Succeeds}
use mimir_operator.Client.{
  Url, Header, Request, Response, MimirClient, credentials, build_request, with_headers, do_request,
}
use mimir_operator.Client.Requests.{check_response_iff}
use mimir_operator.Cluster.{Cluster}
use mimir_operator.Server.{Answered}
use mimir_operator.Server.Signed.{Signed}

module _ (C : Cluster) (r : MimirClient) where
  open C use {World, send, net}

  pub record Answering : Type 1 where
    -- The requests that are answered with a success, by method, path and payload; each path is one.
    pub Serves : String → String → Option String → Type 0
    pub parses :
        (method path : String) (payload : Option String)
        → Serves method path payload
        → (u : Url) × (net.parse path ≡ ok u)
    pub answers :
        (q : Request) (w : World) (s : Signed C r q)
        → Serves s.method s.path s.payload
        → (resp : Response) × (w' : World) × (send q w ≡ (ok resp, w'))
          × (200 ≤ resp.status_code)
          × (resp.status_code ≤ 299)

  builds :
      (path method : String) (payload : Option String)
      → (u : Url) × (net.parse path ≡ ok u)
      → (base : Request) × (build_request net path method r.endpoint payload ≡ ok base)
  unfolding build_request
  builds path method payload (u, e) = rw (e, build_request) (_, refl)

  module _ (A : Answering) (auth : List Header) (allowed : credentials r ≡ ok auth) where
    pub do_request-answered :
        (path method : String) (payload : Option String) (w : World)
        → A.Serves method path payload
        → (resp : Response) × (w' : World) × (do_request net send r path method payload w
            ≡ (ok resp, w'))
          × Answered C r path method payload w w' resp
    unfolding do_request
    do_request-answered path method payload w serves =
        let (base, built) = builds path method payload (A.parses method path payload serves) in
        let q = with_headers net send r base auth in
        let signed : Signed C r q = record {
          path = path;
          method = method;
          payload = payload;
          base = base;
          auth = auth;
          built = built;
          allowed = allowed;
          same = refl;
        } in
        let (resp, w', sent, low, high) = A.answers q w signed serves in
        let passed = (check_response_iff net resp).1 (low, high) in
        (
          resp,
          w',
          rw (built, allowed, sent, passed) refl,
          record { req = base; auth = auth; built = built; sent = sent; low = low; high = high },
        )

    pub do_request-Succeeds :
        (path method : String) (payload : Option String)
        → A.Serves method path payload
        → Succeeds (do_request net send r path method payload)
    do_request-Succeeds path method payload serves w =
        let (resp, w', ran, _) = do_request-answered path method payload w serves in (resp, w', ran)
