-- ===== src/Client/Failures.antt =====
-- The errors of a request.
use mimir_operator.Base.{
  ◌<◌, ◌≡◌, ◌≢◌, ◌⊎◌, inl, inr, sym, ◌∙◌, ap, arith, ℕ, String, ◌<>◌, string_eq, nat_eq, ◌==◌, leb,
  ◌&&◌, List, Option, Bool-cases, false,
}
use mimir_operator.Exec.{
  Error, failure, wrapped, ok, err, with_prefix, pure, Exec, Outcome-cases, err_inj,
  continue-eq-err, with_prefix-eq-err,
}
use mimir_operator.Client.{
  NetLibrary, Header, Request, Response, MimirClient, err_resource_not_found, err_conflict,
  err_too_many_requests, err_two_auths, response_error, credentials, check_response, build_request,
  checked, with_headers, send_with, authorised, do_request,
}
use mimir_operator.Client.Requests.{HasTwoAuths}

-- The error for a status.
pub data StatusError : ℕ → Error → Type 0 where
  on_not_found : StatusError 404 err_resource_not_found
  on_conflict : StatusError 409 err_conflict
  on_too_many : StatusError 429 err_too_many_requests
  on_other :
      {code : ℕ} (text : String)
      → code ≢ 404
      → code ≢ 409
      → code ≢ 429
      → StatusError code (failure ("server returned HTTP status: " <> text))

other_than : {m n : ℕ} → (m == n) ≡ false → m ≢ n
other_than {m = m} {n = n} e same = let t = (nat_eq.same_iff m n).1 same in absurd (cc)

outside : (code : ℕ) → (leb 200 code && leb code 299) ≡ false → (code < 200) ⊎ (299 < code)
outside code e = elim (Bool-cases (leb 200 code)) [
  | inl low ↦ inr (ground arith)
  | inr low ↦ inl (ground arith)
]

credentials-err :
    (r : MimirClient) (e : Error) → credentials r ≡ err e → HasTwoAuths r × (e ≡ err_two_auths)
unfolding credentials
credentials-err r e h = ground (
  arith,
  string_eq.same_iff r.user "",
  string_eq.same_iff r.key "",
  string_eq.same_iff r.auth_token "",
)

module _ (U : NetLibrary) where
  -- The error for a response: that of its status, or that of reading its body.
  abbrev pub ResponseError : Response → Error → Type 0
  ResponseError r e =
      ((f : Error) × (r.head ≡ err f) × (e ≡ wrapped "reading body" f))
      ⊎ ((text : String) × (r.head ≡ ok text) × StatusError r.status_code e)

  StatusError-response_error :
      (r : Response) (text : String) → StatusError r.status_code (response_error U r text)
  unfolding response_error
  StatusError-response_error r text = elim (Bool-cases (r.status_code == 404)) [
    | inl e ↦ let same = (nat_eq.same_iff r.status_code 404).0 e in rw (e, same) on_not_found
    | inr a ↦ elim (Bool-cases (r.status_code == 409)) [
      | inl e ↦ let same = (nat_eq.same_iff r.status_code 409).0 e in rw (a, e, same) on_conflict
      | inr b ↦ elim (Bool-cases (r.status_code == 429)) [
        | inl e ↦
            let same = (nat_eq.same_iff r.status_code 429).0 e in rw (a, b, e, same) on_too_many
        | inr c ↦ rw (a, b, c) (on_other _ (other_than a) (other_than b) (other_than c))
      ]
    ]
  ]

  check_response-err :
      (r : Response) (e : Error)
      → check_response U r ≡ err e
      → ((r.status_code < 200) ⊎ (299 < r.status_code)) × ResponseError r e
  unfolding check_response
  check_response-err r e h = elim (Bool-cases (leb 200 r.status_code && leb r.status_code 299)) [
    | inl inside ↦ absurd (let h' = rw inside at h in cc)
    | inr out ↦ elim (Outcome-cases r.head) [
      | inl (text, body) ↦
          let same = err_inj (rw (out, body) at h) in
          (
            outside r.status_code out,
            inr (text, body, rw (← same) (StatusError-response_error r text)),
          )
      | inr (inl (f, body)) ↦
          let same = err_inj (rw (out, body) at h) in
          (outside r.status_code out, inl (f, body, sym same))
      | inr (inr body) ↦ absurd (let h' = rw (out, body) at h in cc)
    ]
  ]

  module _ {W : Type 0} (send : Request → Exec W Response) where
    -- How a request fails.
    pub data Failed (r : MimirClient) (path method : String) (payload : Option String) (w : W)
        : Error → W → Type 0 where
      unbuilt :
          {e : Error}
          → build_request U path method r.endpoint payload ≡ err e
          → Failed r path method payload w e w
      two_auths : HasTwoAuths r → Failed r path method payload w err_two_auths w
      unsent :
          {e : Error} {w' : W} (req : Request) (auth : List Header)
          → build_request U path method r.endpoint payload ≡ ok req
          → credentials r ≡ ok auth
          → send (with_headers U send r req auth) w ≡ (err e, w')
          → Failed r path method payload w e w'
      refused :
          {e : Error} {w' : W} (req : Request) (auth : List Header) (resp : Response)
          → build_request U path method r.endpoint payload ≡ ok req
          → credentials r ≡ ok auth
          → send (with_headers U send r req auth) w ≡ (ok resp, w')
          → (resp.status_code < 200) ⊎ (299 < resp.status_code)
          → ResponseError resp e
          → Failed r path method payload w
              (wrapped (req.method <> " request to " <> req.url <> " failed") e)
              w'

    sent_Failed :
        (r : MimirClient) (path method : String) (payload : Option String) (w w' : W) (e : Error)
        (req : Request) (auth : List Header)
        → build_request U path method r.endpoint payload ≡ ok req
        → credentials r ≡ ok auth
        → send_with U send r req auth w ≡ (err e, w')
        → Failed r path method payload w e w'
    sent_Failed r path method payload w w' e req auth built allowed h =
        elim (continue-eq-err (send (with_headers U send r req auth) w) (checked U send req) h) [
          | inl failed ↦ unsent req auth built allowed failed
          | inr (resp, w₁, sent, h₁) ↦
              elim (continue-eq-err (with_prefix _ (check_response U resp, w₁)) (λ _. pure resp)
                h₁) [
                  | inl failed ↦
                      let (f, checks, same) =
                        with_prefix-eq-err _ (check_response U resp, w₁) failed in
                      let (status, why) = check_response-err resp f (ap (λ p. p.0) checks) in
                      rw (same, ← (ap (λ p. p.1) checks))
                        (refused req auth resp built allowed sent status why)
                  | inr (_, _, _, done) ↦ absurd (cc)
                ]
        ]

    -- An error of `doRequest`, with the world that it leaves, is that of the building of the
    -- request, or of a client with two schemes of authentication, and nothing was sent; or the
    -- request was sent with its credentials, and the error is that of the transport, or for an
    -- answer with a status below 200 or above 299: the one for its status, or that of reading its
    -- body.
    pub do_request-Failed :
        (r : MimirClient) (path method : String) (payload : Option String) (w w' : W) (e : Error)
        → do_request U send r path method payload w ≡ (err e, w')
        → Failed r path method payload w e w'
    unfolding do_request
    do_request-Failed r path method payload w w' e h =
        elim (continue-eq-err (build_request U path method r.endpoint payload, w)
          (authorised U send r) h) [
            | inl failed ↦ rw (← (ap (λ p. p.1) failed)) (unbuilt (ap (λ p. p.0) failed))
            | inr (req, w₁, built, h₁) ↦
                elim (continue-eq-err (credentials r, w₁) (send_with U send r req) h₁) [
                  | inl failed ↦
                      let (both, same) = credentials-err r e (ap (λ p. p.0) failed) in
                      let after : w ≡ w' = ap (λ p. p.1) built ∙ ap (λ p. p.1) failed in
                      rw (← after, same) (two_auths both)
                  | inr (auth, w₂, allowed, h₂) ↦
                      sent_Failed r path method payload w w' e req auth (ap (λ p. p.0) built)
                        (ap (λ p. p.0) allowed)
                        (rw (← (ap (λ p. p.1) built ∙ ap (λ p. p.1) allowed)) at h₂)
                ]
          ]
