-- ===== src/Tests/Requests.antt =====
-- Authentication, and the requests to Mimir.
use mimir_operator.Base.{◌≤◌, ◌≡◌, ◌↔◌, refl, List, [], none, some}
use mimir_operator.Exec.{ok}
use mimir_operator.Auth.{Auth, Authentication, extract_auth}
use mimir_operator.Auth.Schemes.{OneScheme, extract_auth-OneScheme}
use mimir_operator.Client.{
  Header, Request, MimirClient, credentials, check_response, build_request, do_request, new,
}
use mimir_operator.Client.Asked.{Asked}
use mimir_operator.Client.Requests.{check_response_iff, do_request_ok_iff}
use mimir_operator.Reconcile.{create_mimir_client}
use mimir_operator.Reconcile.Credentials.{create_mimir_client-authorised}
use mimir_operator.Cluster.{Cluster}
use mimir_operator.Tests.Examples.{net, answer_ok, cluster, keyed_client, team_rules}

abbrev token_ref : Auth
token_ref = record {
  user = "u";
  key = "k";
  key_secret_ref = none;
  token = "";
  token_secret_ref = some "mimir";
}

abbrev quiet : Cluster
quiet = cluster [] (λ s. ok (team_rules s))

abbrev token : Authentication
token = record { username = ""; key = ""; token = "t0ken" }

-- A token in a secret comes before a key in the resource.
extract_token : extract_auth {W = Unit} quiet.get_secret (some token_ref) "ns" tt ≡ (ok token, tt)
unfolding extract_auth
extract_token = refl

extract_auth-OneScheme_example : OneScheme token
extract_auth-OneScheme_example =
    extract_auth-OneScheme quiet.get_secret (some token_ref) "ns" tt tt token extract_token

abbrev token_client : MimirClient
token_client = record keyed_client { key = ""; auth_token = "t0ken" }

create_token :
    create_mimir_client quiet (some token_ref) "http://mimir" "tenant" "ns" tt
    ≡ (ok token_client, tt)
unfolding create_mimir_client extract_auth new
create_token = refl

create_mimir_client-authorised_example :
    (headers : List Header) × (credentials token_client ≡ ok headers)
create_mimir_client-authorised_example =
    create_mimir_client-authorised quiet (some token_ref) "http://mimir" "tenant" "ns" tt tt
      token_client create_token

check_response_iff_example : (check_response net answer_ok ≡ ok tt) ↔ ((200 ≤ 202) × (202 ≤ 299))
check_response_iff_example = check_response_iff net answer_ok

deleted :
    do_request net quiet.send keyed_client "/rules/loki_alerts" "DELETE" none tt
    ≡ (ok answer_ok, tt)
unfolding do_request build_request credentials check_response
deleted = refl

do_request_ok_iff_example :
    (q : Request) × Asked net keyed_client "/rules/loki_alerts" "DELETE" none q
    × (quiet.send q tt ≡ (ok answer_ok, tt))
    × (200 ≤ 202)
    × (202 ≤ 299)
do_request_ok_iff_example =
    (do_request_ok_iff net quiet.send keyed_client "/rules/loki_alerts" "DELETE" none tt tt
        answer_ok).0
      deleted
