-- ===== src/Client.antt =====
-- internal/controller/mimirapi/client.go: the HTTP client of the Mimir API. The parameters are
-- net/url (parsing a URL, escaping and printing it) and the transport `http.Client.Do`; logging
-- is left out.
pub mod Joined
pub mod Asked
pub mod Builds
pub mod Requests
pub mod Failures
use Prim.Native.Char.{code}
use mimir_operator.Base.{
  ℕ, String, ◌<>◌, ◌==◌, nat_eq, string_eq, leb, Bool, true, false, not, ◌&&◌, ◌||◌, List, [], ◌∷◌,
  ◌++◌, map, Option, none, some, if◌then◌else◌,
}
use mimir_operator.Base.Dict.{Dict}
use mimir_operator.Exec.{
  Exec, Error, failure, wrapped, Outcome, ok, err, pure, throw, lift, wrap, ◌>>=◌, ◌>>◌,
}

-- The parts of a `url.URL` that the client touches; `base` is the rest (scheme, host, ...).
pub record Url : Type 0 where
  pub base : String
  pub path : String
  pub raw_path : String
  pub raw_query : String

-- A header of a request. `SetBasicAuth` sets the header Authorization from a user and a password.
pub data Header : Type 0 where
  basic_auth : String → String → Header
  header : String → String → Header

pub record Request : Type 0 where
  pub method : String
  pub url : String
  pub headers : List Header
  pub body : Option String

-- Reading the body gives its text, or fails; `head` is what reading 1024 bytes of it at most gives.
pub record Response : Type 0 where
  pub status_code : ℕ
  pub status : String
  pub body : Outcome String
  pub head : Outcome String

pub record Config : Type 0 where
  pub user : String
  pub key : String
  pub address : String
  pub id : String
  pub auth_token : String

pub record MimirClient : Type 0 where
  pub user : String
  pub key : String
  pub id : String
  pub endpoint : Url
  pub api_path : String
  pub auth_token : String
  pub extra_headers : Dict String

-- The library functions that are taken as they are: net/url, the quoting of `%q`, and the digits of
-- `%d`.
pub record NetLibrary : Type 0 where
  pub parse : String → Outcome Url
  pub escaped_path : Url → String
  pub print : Url → String
  pub path_escape : String → String
  pub query_escape : String → String
  pub quote : String → String
  pub print_int : ℕ → String

abbrev pub ruler_api_path : String
ruler_api_path = "/prometheus/config/v1/rules"

abbrev pub err_resource_not_found : Error
err_resource_not_found = failure "requested resource not found"

abbrev pub err_conflict : Error
err_conflict = failure "conflict with current state of target resource"

abbrev pub err_too_many_requests : Error
err_too_many_requests = failure "too many requests"

abbrev pub err_two_auths : Error
err_two_auths = failure "at most one of basic auth or auth token should be configured"

-- `strings.TrimSuffix(s, "/")`
unfoldable pub trim_slash : String → String
trim_slash String.[] = ""
trim_slash (String.◌∷◌ c String.[]) = if code c == b'/' then "" else String.◌∷◌ c String.[]
trim_slash (String.◌∷◌ c (String.◌∷◌ d s)) = String.◌∷◌ c (trim_slash (String.◌∷◌ d s))

unfoldable pub join_path : String → String → String
unfolding trim_slash
join_path base_url_path target_path = trim_slash base_url_path <> target_path

-- The switch of `doRequest`: the credentials that a request carries, or the refusal.
unfoldable pub credentials : MimirClient → Outcome (List Header)
credentials r =
    if (not (r.user == "") || not (r.key == "")) && not (r.auth_token == "")
    then err err_two_auths
    else if not (r.user == "")
    then ok (basic_auth r.user r.key ∷ [])
    else if not (r.key == "")
    then ok (basic_auth r.id r.key ∷ [])
    else if not (r.auth_token == "")
    then ok (header "Authorization" ("Bearer " <> r.auth_token) ∷ [])
    else ok []

module _ (U : NetLibrary) where
  -- The error of a response that is not a success, from the status and the head of the body.
  unfoldable pub response_error : Response → String → Error
  response_error r body_str =
      if r.status_code == 404
      then err_resource_not_found
      else if r.status_code == 409
      then err_conflict
      else if r.status_code == 429
      then err_too_many_requests
      else failure (
          "server returned HTTP status: "
          <> (if body_str == "" then r.status else r.status <> ", body: " <> U.quote body_str))

  -- `checkResponse`
  unfoldable pub check_response : Response → Outcome (Unit {0})
  unfolding response_error
  check_response r = if leb 200 r.status_code && leb r.status_code 299 then ok tt else elim r.head [
    | err e ↦ err (wrapped "reading body" e)
    | Outcome.panic ↦ Outcome.panic
    | ok body_str ↦ err (response_error r body_str)
  ]

  -- `buildRequest`; the request has no header yet. `http.NewRequestWithContext` is taken to accept
  -- the method and the printed URL, and the length of the body is not a field of the request.
  unfoldable pub build_request : String → String → Url → Option String → Outcome Request
  unfolding join_path
  build_request p m endpoint payload = elim (U.parse p) [
    | err e ↦ err e
    | Outcome.panic ↦ Outcome.panic
    | ok p_url ↦
        let raw =
          if not (p_url.raw_path == "") || not (endpoint.raw_path == "")
          then join_path (U.escaped_path endpoint) (U.escaped_path p_url)
          else endpoint.raw_path in
        let target = record endpoint {
          path = join_path endpoint.path p_url.path;
          raw_path = raw;
          raw_query = p_url.raw_query;
        } in
        ok (record { method = m; url = U.print target; headers = []; body = payload })
  ]

  -- `New`
  unfoldable pub new : Config → Outcome MimirClient
  new cfg = elim (U.parse cfg.address) [
    | err e ↦ err e
    | Outcome.panic ↦ Outcome.panic
    | ok endpoint ↦ ok (record {
      user = cfg.user;
      key = cfg.key;
      id = cfg.id;
      endpoint = endpoint;
      api_path = ruler_api_path;
      auth_token = cfg.auth_token;
      extra_headers = [];
    })
  ]

  module _ {W : Type 0} (send : Request → Exec W Response) where
    -- The end of `doRequest`: the answer is checked.
    abbrev pub checked : Request → Response → Exec W Response
    checked req resp = do
      wrap (req.method <> " request to " <> req.url <> " failed") (lift (check_response resp))
      pure resp

    -- The request as it is sent, with the credentials and the tenant.
    abbrev pub with_headers : MimirClient → Request → List Header → Request
    with_headers r req auth = record req {
      headers =
          auth
          ++ (map (λ (k, v). header k v) r.extra_headers ++ (header "X-Scope-OrgID" r.id ∷ []));
    }

    abbrev pub send_with : MimirClient → Request → List Header → Exec W Response
    send_with r req auth = do resp ← send (with_headers r req auth); checked req resp

    abbrev pub authorised : MimirClient → Request → Exec W Response
    authorised r req = do auth ← lift (credentials r); send_with r req auth

    -- `doRequest`
    unfoldable pub do_request : MimirClient → String → String → Option String → Exec W Response
    do_request r path method payload = do
      req ← lift (build_request path method r.endpoint payload)
      authorised r req

    -- `Query`, at the time in seconds that the clock gives.
    unfoldable pub query : MimirClient → ℕ → String → Exec W Response
    unfolding do_request
    query r now query_text =
        let path =
          "/prometheus/api/v1/query?query="
          <> (U.query_escape query_text <> ("&time=" <> U.print_int now)) in
        do_request r path "GET" none
