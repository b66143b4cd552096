-- ===== src/Client/Asked.antt =====
-- The request that a call of the client is to send: `buildRequest`, and the headers that
-- `doRequest` sets, by what they are to be.
use mimir_operator.Base.{
  ◌≡◌, ◌≢◌, ◌⊎◌, inl, inr, arith, String, ◌<>◌, string_eq, ◌==◌, List, [], ◌∷◌, ◌++◌, map, Option,
  Bool-cases, true, false,
}
use mimir_operator.Exec.{ok_inj, ok}
use mimir_operator.Client.{
  NetLibrary, Url, Header, basic_auth, header, Request, MimirClient, credentials,
}
use mimir_operator.Client.Joined.{Joined}

-- The headers that authenticate the client: a token, or a user and a key, or a key alone under the
-- name of the tenant, or none; never two of them.
pub data Authenticates (r : MimirClient) : List Header → Type 0 where
  by_user : r.user ≢ "" → r.auth_token ≡ "" → Authenticates r (basic_auth r.user r.key ∷ [])
  by_key :
      r.user ≡ "" → r.key ≢ "" → r.auth_token ≡ "" → Authenticates r (basic_auth r.id r.key ∷ [])
  by_token :
      r.user ≡ ""
      → r.key ≡ ""
      → r.auth_token ≢ ""
      → Authenticates r (header "Authorization" ("Bearer " <> r.auth_token) ∷ [])
  by_nothing : r.user ≡ "" → r.key ≡ "" → r.auth_token ≡ "" → Authenticates r []

pub empty : {s : String} → (s == "") ≡ true → s ≡ ""
empty {s = s} e = (string_eq.same_iff s "").0 e

pub nonempty : {s : String} → (s == "") ≡ false → s ≢ ""
nonempty {s = s} e same = let t = (string_eq.same_iff s "").1 same in absurd (cc)

pub credentials-Authenticates :
    (r : MimirClient) (auth : List Header) → credentials r ≡ ok auth → Authenticates r auth
unfolding credentials
credentials-Authenticates r auth h = elim (Bool-cases (r.auth_token == "")) [
  | inl t ↦ elim (Bool-cases (r.user == "")) [
    | inl u ↦ elim (Bool-cases (r.key == "")) [
      | inl k ↦
          let same = ok_inj (rw (u, k, t) at h) in
          rw (← same) (by_nothing (empty u) (empty k) (empty t))
      | inr k ↦
          let same = ok_inj (rw (u, k, t) at h) in
          rw (← same) (by_key (empty u) (nonempty k) (empty t))
    ]
    | inr u ↦ let same = ok_inj (rw (u, t) at h) in rw (← same) (by_user (nonempty u) (empty t))
  ]
  | inr t ↦ elim (Bool-cases (r.user == "")) [
    | inl u ↦ elim (Bool-cases (r.key == "")) [
      | inl k ↦
          let same = ok_inj (rw (u, k, t) at h) in
          rw (← same) (by_token (empty u) (empty k) (nonempty t))
      | inr k ↦ let refused = rw (u, k, t) at h in absurd (cc)
    ]
    | inr u ↦ let refused = rw (u, t) at h in absurd (cc)
  ]
]

pub Authenticates-credentials :
    (r : MimirClient) (auth : List Header) → Authenticates r auth → credentials r ≡ ok auth
unfolding credentials
Authenticates-credentials r auth (by_user u t) =
    ground (arith, string_eq.same_iff r.user "", string_eq.same_iff r.auth_token "")
Authenticates-credentials r auth (by_key u k t) = ground (
  arith,
  string_eq.same_iff r.user "",
  string_eq.same_iff r.key "",
  string_eq.same_iff r.auth_token "",
)
Authenticates-credentials r auth (by_token u k t) = ground (
  arith,
  string_eq.same_iff r.user "",
  string_eq.same_iff r.key "",
  string_eq.same_iff r.auth_token "",
)
Authenticates-credentials r auth (by_nothing u k t) = ground (
  arith,
  string_eq.same_iff r.user "",
  string_eq.same_iff r.key "",
  string_eq.same_iff r.auth_token "",
)

module _ (U : NetLibrary) where
  -- The address: that of the endpoint, its path joined with that of the call, and the query of the
  -- call.
  pub record Addressed (endpoint : Url) (path url : String) : Type 0 where
    pub p_url : Url
    pub parsed : U.parse path ≡ ok p_url
    pub target : Url
    pub same_base : target.base ≡ endpoint.base
    pub joined : Joined endpoint.path p_url.path target.path
    pub raw :
        ((p_url.raw_path ≡ "") × (endpoint.raw_path ≡ "") × (target.raw_path ≡ ""))
        ⊎ (((p_url.raw_path ≢ "") ⊎ (endpoint.raw_path ≢ ""))
            × Joined (U.escaped_path endpoint) (U.escaped_path p_url) target.raw_path)
    pub query : target.raw_query ≡ p_url.raw_query
    pub printed : url ≡ U.print target

  -- The request for a path, a method and a body: at the address, authenticated, with the further
  -- headers of the client, and for its tenant.
  pub record Asked (r : MimirClient) (path method : String) (payload : Option String) (q : Request)
      : Type 0 where
    pub address : Addressed r.endpoint path q.url
    pub asked_method : q.method ≡ method
    pub asked_body : q.body ≡ payload
    pub auth : List Header
    pub authenticates : Authenticates r auth
    pub headers :
        q.headers
        ≡ auth ++ (map (λ (k, v). header k v) r.extra_headers ++ (header "X-Scope-OrgID" r.id ∷ []))
