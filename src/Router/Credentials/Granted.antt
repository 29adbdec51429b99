-- ===== src/Router/Credentials/Granted.antt =====
-- When `/token` answers with tokens.
use openid_tls_connector.Common.{String, ◌≡◌, ◌↔◌, inl, inr, Option, ok, arith, Result-cases}
use openid_tls_connector.External.{Bytes, Codec}
use openid_tls_connector.Code.Signature.{Cbor}
use openid_tls_connector.Storage.{TokenStore}
use openid_tls_connector.Token.{JwtLib}
use openid_tls_connector.Protocol.{AccessTokenRequest, Readings, TokenResponse}
use openid_tls_connector.Protocol.Success.{IsGranted, access_token_request_iff}
use openid_tls_connector.Router.{AppState, TokenParams, Headers, token_context}
use openid_tls_connector.Router.Credentials.{token_request, token_handler}
use openid_tls_connector.Router.Credentials.Requests.{IsRequestOf, token_request_iff}

module _ (x : Codec) (from_utf8 : Bytes → Option String) (cbor : Cbor) {j : JwtLib} {S : Type 0}
    (t : TokenStore S) (state : AppState j) (headers : Headers) (env : Readings)
    (params : TokenParams) (s s' : S) (response : TokenResponse) where
  -- The request of header and body, which is granted.
  abbrev pub IsServed : Type 0
  IsServed =
      (req : AccessTokenRequest) × IsRequestOf x from_utf8 headers params req
      × IsGranted x cbor j t state.flow (token_context state) env req s s' response

  handled-IsServed :
      token_handler x from_utf8 cbor t state headers env params s ≡ (s', ok response) → IsServed
  unfolding token_handler
  handled-IsServed h = elim (Result-cases (token_request x from_utf8 headers params)) [
    | inr (e, p) ↦ absurd (ground arith)
    | inl (req, p) ↦ (
      req,
      (token_request_iff x from_utf8 headers params req).0 p,
      (access_token_request_iff x cbor j t state.flow (token_context state) env req s s' response).0
          (ground arith),
    )
  ]

  IsServed-handled :
      IsServed → token_handler x from_utf8 cbor t state headers env params s ≡ (s', ok response)
  unfolding token_handler
  IsServed-handled (req, made, granted) = ground (
    arith,
    (token_request_iff x from_utf8 headers params req).1 made,
    (access_token_request_iff x cbor j t state.flow (token_context state) env req s s' response).1
        granted,
  )

  -- `/token` answers with tokens, and leaves a store, exactly when the request that header and body
  -- make, with the credentials of a well-formed Basic header before those of the body, is granted by
  -- the flow on the store of the handler.
  pub token_handler_iff :
      (token_handler x from_utf8 cbor t state headers env params s ≡ (s', ok response)) ↔ IsServed
  token_handler_iff = (handled-IsServed, IsServed-handled)
