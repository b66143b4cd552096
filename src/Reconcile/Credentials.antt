-- ===== src/Reconcile/Credentials.antt =====
-- The client that a controller makes, and the requests that it can send.
use mimir_operator.Base.{
  ◌≡◌, ◌⊎◌, inl, inr, ap, arith, String, ◌==◌, string_eq, List, [], ◌∷◌, ◌<>◌, Option, Bool-cases,
}
use mimir_operator.Exec.{ok, with_prefix, continue-eq-ok, with_prefix-eq-ok}
use mimir_operator.Auth.{Auth, Authentication, extract_auth}
use mimir_operator.Auth.Schemes.{OneScheme, extract_auth-OneScheme}
use mimir_operator.Client.{NetLibrary, Header, basic_auth, header, MimirClient, credentials, new}
use mimir_operator.Cluster.{Cluster}
use mimir_operator.Reconcile.{config_of, create_mimir_client}

-- A client with one scheme has credentials that `doRequest` can set.
credentials_one :
    (r : MimirClient)
    → (r.auth_token ≡ "") ⊎ ((r.user ≡ "") × (r.key ≡ ""))
    → (headers : List Header) × (credentials r ≡ ok headers)
unfolding credentials
credentials_one r one = elim (Bool-cases (r.user == "")) [
  | inr user ↦ (
    basic_auth r.user r.key ∷ [],
    ground (arith, string_eq.same_iff r.user "", string_eq.same_iff r.auth_token ""),
  )
  | inl no_user ↦ elim (Bool-cases (r.key == "")) [
    | inr key ↦ (
      basic_auth r.id r.key ∷ [],
      ground (arith, string_eq.same_iff r.key "", string_eq.same_iff r.auth_token ""),
    )
    | inl no_key ↦ elim (Bool-cases (r.auth_token == "")) [
      | inr token ↦ (header "Authorization" ("Bearer " <> r.auth_token) ∷ [], ground arith)
      | inl no_token ↦ ([], ground arith)
    ]
  ]
]

credentials-new :
    (U : NetLibrary) (a : Authentication) (url id : String) (mc : MimirClient)
    → OneScheme a
    → new U (config_of url id a) ≡ ok mc
    → (auth : List Header) × (credentials mc ≡ ok auth)
unfolding new
credentials-new U a url id mc one h = credentials_one mc (ground arith)

-- Whatever the auth block and the secrets say, the client that a controller makes has at most one
-- scheme of authentication, so `doRequest` never refuses to send a request for it.
pub create_mimir_client-authorised :
    (C : Cluster) (auth : Option Auth) (url id namespace : String) (w w' : C.World)
    (mc : MimirClient)
    → create_mimir_client C auth url id namespace w ≡ (ok mc, w')
    → (headers : List Header) × (credentials mc ≡ ok headers)
unfolding create_mimir_client
create_mimir_client-authorised C auth url id namespace w w' mc h =
    let (a, w₁, extracted, h₁) =
      continue-eq-ok (with_prefix _ (extract_auth C.get_secret auth namespace w)) _ h in
    let one =
      extract_auth-OneScheme C.get_secret auth namespace w w₁ a
        (with_prefix-eq-ok _ (extract_auth C.get_secret auth namespace w) extracted) in
    let made = with_prefix-eq-ok _ (new C.net (config_of url id a), w₁) h₁ in
    credentials-new C.net a url id mc one (ap (λ p. p.0) made)
