-- ===== src/Client/Requests.antt =====
-- When a request succeeds, and what it carries.
use mimir_operator.Base.{
  ◌≤◌, ◌≡◌, ◌≢◌, ◌↔◌, ◌⊎◌, inl, inr, refl, sym, ◌∙◌, ap, arith, String, string_eq, leb, ◌&&◌, List,
  Option, Bool-cases,
}
use mimir_operator.Exec.{Exec, ok, with_prefix, pure, continue-eq-ok, with_prefix-eq-ok}
use mimir_operator.Client.Asked.{Asked}
use mimir_operator.Client.Builds.{with_headers-Asked, Asked-with_headers}
use mimir_operator.Client.{
  NetLibrary, Header, Request, Response, MimirClient, credentials, check_response, build_request,
  checked, with_headers, send_with, authorised, do_request,
}

-- The client has a user or a key, and a token too.
abbrev pub HasTwoAuths : MimirClient → Type 0
HasTwoAuths r = ((r.user ≢ "") ⊎ (r.key ≢ "")) × (r.auth_token ≢ "")

module _ (U : NetLibrary) where
  -- `checkResponse` returns no error exactly for the statuses from 200 to 299.
  pub check_response_iff :
      (r : Response)
      → (check_response U r ≡ ok tt) ↔ ((200 ≤ r.status_code) × (r.status_code ≤ 299))
  unfolding check_response
  check_response_iff r = elim (Bool-cases (leb 200 r.status_code && leb r.status_code 299)) [
    | inl inside ↦ rw inside (ground arith)
    | inr outside ↦ ground arith
  ]

  module _ {W : Type 0} (send : Request → Exec W Response) where
    -- The parts that a `doRequest` without an error went through.
    pub do_request_parts :
        (r : MimirClient) (path method : String) (payload : Option String) (w w' : W)
        (resp : Response)
        → do_request U send r path method payload w ≡ (ok resp, w')
        → (req : Request) × (auth : List Header) × (build_request U path method r.endpoint payload
            ≡ ok req)
          × (credentials r ≡ ok auth)
          × (send (with_headers U send r req auth) w ≡ (ok resp, w'))
          × (200 ≤ resp.status_code)
          × (resp.status_code ≤ 299)
    unfolding do_request
    do_request_parts r path method payload w w' resp h =
        let (req, w₁, built, h₁) =
          continue-eq-ok (build_request U path method r.endpoint payload, w) (authorised U send r)
            h in
        let (auth, w₂, allowed, h₂) =
          continue-eq-ok (credentials r, w₁) (send_with U send r req) h₁ in
        let (resp', w₃, sent, h₃) =
          continue-eq-ok (send (with_headers U send r req auth) w₂) (checked U send req) h₂ in
        let (_, w₄, passed, h₄) =
          continue-eq-ok (with_prefix _ (check_response U resp', w₃)) (λ _. pure resp') h₃ in
        let ran = with_prefix-eq-ok _ (check_response U resp', w₃) passed in
        let same : resp' ≡ resp = cc in
        let before : w₂ ≡ w = sym (ap (λ p. p.1) built ∙ ap (λ p. p.1) allowed) in
        let after : w₃ ≡ w' = ap (λ p. p.1) ran ∙ ap (λ p. p.1) h₄ in
        let (low, high) = (check_response_iff resp').0 (ap (λ p. p.0) ran) in
        (
          req,
          auth,
          ap (λ p. p.0) built,
          ap (λ p. p.0) allowed,
          rw (← before, ← same, ← after) sent,
          rw (← same) low,
          rw (← same) high,
        )

    -- `doRequest` returns no error exactly where the one request that the client is to send for the
    -- path, the method and the body is sent, and answered with a status from 200 to 299: a request
    -- to the address of the client joined with the path, with the method and the body, with the
    -- header that authenticates the client, if it has a token, a user or a key, its further
    -- headers, and the tenant.
    pub do_request_ok_iff :
        (r : MimirClient) (path method : String) (payload : Option String) (w w' : W)
        (resp : Response)
        → (do_request U send r path method payload w ≡ (ok resp, w')) ↔ (
            (q : Request) × Asked U r path method payload q
            × (send q w ≡ (ok resp, w'))
            × (200 ≤ resp.status_code)
            × (resp.status_code ≤ 299))
    unfolding do_request
    do_request_ok_iff r path method payload w w' resp = (
      λ h.
          let (base, auth, built, allowed, sent, low, high) =
            do_request_parts r path method payload w w' resp h in
          (
            with_headers U send r base auth,
            with_headers-Asked U send r path method payload base auth built allowed,
            sent,
            low,
            high,
          ),
      λ (q, asked, sent, low, high).
          let (base, auth, built, allowed, same) =
            Asked-with_headers U send r path method payload q asked in
          let passed = (check_response_iff resp).1 (low, high) in
          rw (built, allowed, same, sent, passed) refl,
    )
