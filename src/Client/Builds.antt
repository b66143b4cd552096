-- ===== src/Client/Builds.antt =====
-- `buildRequest` and the headers of `doRequest` make the request that a call of the client is to
-- send, and no other.
use mimir_operator.Base.{
  ◌≡◌, ◌≢◌, ◌⊎◌, inl, inr, refl, sym, ap, ◌∙◌, String, string_eq, ◌==◌, List, [], Option,
  Bool-cases, not, ◌||◌, true, false,
}
use mimir_operator.Exec.{Exec, Outcome-cases, ok_inj, ok}
use mimir_operator.Client.{
  join_path, NetLibrary, Url, Header, Request, Response, with_headers, MimirClient, credentials,
  build_request,
}
use mimir_operator.Client.Joined.{join_path-Joined, Joined-join_path}
use mimir_operator.Client.Asked.{
  empty, nonempty, credentials-Authenticates, Authenticates-credentials, Addressed, Asked,
}

module _ (U : NetLibrary) where
  raw_path-cases :
      (p_url endpoint : Url)
      → ((p_url.raw_path ≡ "")
          × (endpoint.raw_path ≡ "")
          × ((not (p_url.raw_path == "") || not (endpoint.raw_path == "")) ≡ false))
        ⊎ (((p_url.raw_path ≢ "") ⊎ (endpoint.raw_path ≢ ""))
            × ((not (p_url.raw_path == "") || not (endpoint.raw_path == "")) ≡ true))
  raw_path-cases p_url endpoint = elim (Bool-cases (p_url.raw_path == "")) [
    | inl p ↦ elim (Bool-cases (endpoint.raw_path == "")) [
      | inl e ↦ inl (empty p, empty e, rw (p, e) refl)
      | inr e ↦ inr (inr (nonempty e), rw (p, e) refl)
    ]
    | inr p ↦ inr (inl (nonempty p), rw p refl)
  ]

  pub build_request-Addressed :
      (path method : String) (endpoint : Url) (payload : Option String) (base : Request)
      → build_request U path method endpoint payload ≡ ok base
      → Addressed U endpoint path base.url × (base.method ≡ method) × (base.body ≡ payload)
  unfolding build_request
  build_request-Addressed path method endpoint payload base h =
      elim (Outcome-cases (U.parse path)) [
        | inl (p_url, parsed) ↦ elim (raw_path-cases p_url endpoint) [
          | inl (p, e, raw) ↦
              let same = ok_inj (rw (parsed, raw, build_request) at h) in
              (
                record {
                  p_url = p_url;
                  parsed = parsed;
                  target = record endpoint {
                    path = join_path endpoint.path p_url.path;
                    raw_query = p_url.raw_query;
                  };
                  same_base = refl;
                  joined = join_path-Joined endpoint.path p_url.path;
                  raw = inl (p, e, e);
                  query = refl;
                  printed = ap (λ q. q.url) (sym same);
                },
                ap (λ q. q.method) (sym same),
                ap (λ q. q.body) (sym same),
              )
          | inr (some_raw, raw) ↦
              let same = ok_inj (rw (parsed, raw, build_request) at h) in
              (
                record {
                  p_url = p_url;
                  parsed = parsed;
                  target = record endpoint {
                    path = join_path endpoint.path p_url.path;
                    raw_path = join_path (U.escaped_path endpoint) (U.escaped_path p_url);
                    raw_query = p_url.raw_query;
                  };
                  same_base = refl;
                  joined = join_path-Joined endpoint.path p_url.path;
                  raw =
                      inr (
                        some_raw,
                        join_path-Joined (U.escaped_path endpoint) (U.escaped_path p_url),
                      );
                  query = refl;
                  printed = ap (λ q. q.url) (sym same);
                },
                ap (λ q. q.method) (sym same),
                ap (λ q. q.body) (sym same),
              )
        ]
        | inr (inl (e, failed)) ↦ let h' = rw (failed, build_request) at h in absurd (cc)
        | inr (inr panics) ↦ let h' = rw (panics, build_request) at h in absurd (cc)
      ]

  Url-eq :
      (u v : Url)
      → u.base ≡ v.base
      → u.path ≡ v.path
      → u.raw_path ≡ v.raw_path
      → u.raw_query ≡ v.raw_query
      → u ≡ v
  Url-eq u v b p r q = λ i. record { base = b i; path = p i; raw_path = r i; raw_query = q i }

  pub Addressed-build_request :
      (path method : String) (endpoint : Url) (payload : Option String) (url : String)
      → Addressed U endpoint path url
      → build_request U path method endpoint payload
        ≡ ok (record { method = method; url = url; headers = []; body = payload })
  unfolding build_request
  Addressed-build_request path method endpoint payload url a =
      let joined = Joined-join_path endpoint.path a.p_url.path a.target.path a.joined in
      elim (raw_path-cases a.p_url endpoint) [
        | inl (p, e, raw) ↦ elim a.raw [
          | inl (_, _, none_left) ↦
              let same =
                Url-eq
                  (record endpoint {
                    path = join_path endpoint.path a.p_url.path;
                    raw_query = a.p_url.raw_query;
                  })
                  a.target (sym a.same_base) (sym joined) (e ∙ sym none_left) (sym a.query) in
              rw (a.parsed, raw, build_request)
                (ap (λ u. ok (record { method = method; url = u; headers = []; body = payload }))
                  (ap U.print same ∙ sym a.printed))
          | inr (some_raw, _) ↦ elim some_raw [ inl n ↦ absurd (n p) | inr n ↦ absurd (n e) ]
        ]
        | inr (some_raw, raw) ↦ elim a.raw [
          | inl (p, e, _) ↦ elim some_raw [ inl n ↦ absurd (n p) | inr n ↦ absurd (n e) ]
          | inr (_, escaped) ↦
              let same =
                Url-eq
                  (record endpoint {
                    path = join_path endpoint.path a.p_url.path;
                    raw_path = join_path (U.escaped_path endpoint) (U.escaped_path a.p_url);
                    raw_query = a.p_url.raw_query;
                  })
                  a.target (sym a.same_base) (sym joined)
                  (sym (Joined-join_path _ _ a.target.raw_path escaped)) (sym a.query) in
              rw (a.parsed, raw, build_request)
                (ap (λ u. ok (record { method = method; url = u; headers = []; body = payload }))
                  (ap U.print same ∙ sym a.printed))
        ]
      ]

  Request-eq :
      (p q : Request)
      → p.method ≡ q.method
      → p.url ≡ q.url
      → p.headers ≡ q.headers
      → p.body ≡ q.body
      → p ≡ q
  Request-eq p q m u h b = λ i. record { method = m i; url = u i; headers = h i; body = b i }

  module _ {W : Type 0} (send : Request → Exec W Response) (r : MimirClient) where
    pub with_headers-Asked :
        (path method : String) (payload : Option String) (base : Request) (auth : List Header)
        → build_request U path method r.endpoint payload ≡ ok base
        → credentials r ≡ ok auth
        → Asked U r path method payload (with_headers U send r base auth)
    with_headers-Asked path method payload base auth built allowed =
        let (address, m, b) = build_request-Addressed path method r.endpoint payload base built in
        record {
          address = address;
          asked_method = m;
          asked_body = b;
          auth = auth;
          authenticates = credentials-Authenticates r auth allowed;
          headers = refl;
        }

    -- A request that is as it is to be is the one that is sent.
    pub Asked-with_headers :
        (path method : String) (payload : Option String) (q : Request)
        → Asked U r path method payload q
        → (base : Request) × (auth : List Header) × (build_request U path method r.endpoint payload
            ≡ ok base)
          × (credentials r ≡ ok auth)
          × (with_headers U send r base auth ≡ q)
    Asked-with_headers path method payload q a =
        let base : Request = record {
          method = method;
          url = q.url;
          headers = [];
          body = payload;
        } in
        (
          base,
          a.auth,
          Addressed-build_request path method r.endpoint payload q.url a.address,
          Authenticates-credentials r a.auth a.authenticates,
          Request-eq (with_headers U send r base a.auth) q (sym a.asked_method) refl (sym a.headers)
              (sym a.asked_body),
        )
