-- ===== src/Protocol/Checks.antt =====
-- What `access_token_request` has established when it comes to consume the code.
use mathlib.Core.List.{Memᴰ}
use openid_tls_connector.Common.{◌≡◌, ◌↔◌, inl, inr, some, true, ok, arith, Result-cases}
use openid_tls_connector.External.{Codec}
use openid_tls_connector.Client.{
  ClientConfig, allow, find_by_id, validate_redirect_uri, validate_client_secret,
}
use openid_tls_connector.Client.Registry.{
  Authenticates, validate_redirect_uri_iff, validate_client_secret_iff,
}
use openid_tls_connector.Code.Timestamp.{SystemTime}
use openid_tls_connector.Code.AuthorizationCode.{AuthorizationCode, validate_token_request}
use openid_tls_connector.Code.AuthorizationCode.Validation.{
  AnswersChallenge, validate_token_request_iff,
}
use openid_tls_connector.Code.Signature.{Cbor, decode_and_verify}
use openid_tls_connector.Code.Signature.Verify.{IsGenuine, decode_and_verify_iff}
use openid_tls_connector.Token.{JwtLib}
use openid_tls_connector.Protocol.{
  AccessTokenRequest, TokenIssueContext, OidcAuthCodePkceFlow, check_request,
}

module _ (x : Codec) (cbor : Cbor) (j : JwtLib) where
  -- The request bears a genuine, fresh code, issued for its client and redirect URI, and answers the
  -- code's challenge; its client is registered with the redirect URI, and authenticates.
  pub record IsAuthorized (flow : OidcAuthCodePkceFlow) (ctx : TokenIssueContext j)
      (now : SystemTime) (req : AccessTokenRequest) (code : AuthorizationCode) : Type 0 where
    pub genuine : IsGenuine x cbor now req.code flow.hmac_key flow.code_max_age code
    pub same_client : code.client_id ≡ req.client_id
    pub same_uri : code.redirect_uri ≡ req.redirect_uri
    pub answered :
        AnswersChallenge x code.code_challenge_method code.code_challenge req.code_verifier
    pub client : ClientConfig
    pub registered : find_by_id ctx.clients req.client_id ≡ some client
    pub listed : Memᴰ req.redirect_uri client.redirect_uris
    pub authenticated : Authenticates client req.client_secret

  module _ (flow : OidcAuthCodePkceFlow) (ctx : TokenIssueContext j) (now : SystemTime)
      (req : AccessTokenRequest) (code : AuthorizationCode) where
    -- The four tests have passed.
    check_request_parts :
        check_request x cbor j flow ctx now req ≡ ok code
        → (decode_and_verify x cbor now req.code flow.hmac_key flow.code_max_age ≡ ok code)
          × (validate_token_request x code req.client_id req.redirect_uri req.code_verifier ≡ ok tt)
          × (validate_redirect_uri ctx.clients req.client_id req.redirect_uri ≡ true)
          × (validate_client_secret ctx.clients req.client_id req.client_secret ≡ allow)
    unfolding check_request
    check_request_parts h =
        elim (Result-cases
          (decode_and_verify x cbor now req.code flow.hmac_key flow.code_max_age)) [
            | inr (e, failed) ↦ absurd (ground arith)
            | inl (c, decoded) ↦
                elim (Result-cases
                  (validate_token_request x c req.client_id req.redirect_uri req.code_verifier)) [
                    | inr (e, failed) ↦ absurd (ground arith)
                    | inl (u, valid) ↦ ground arith
                  ]
          ]

    check_request-IsAuthorized :
        check_request x cbor j flow ctx now req ≡ ok code → IsAuthorized flow ctx now req code
    check_request-IsAuthorized h =
        let (decoded, valid, redirect, secret) = check_request_parts h in
        let (same_client, same_uri, answered) =
          (validate_token_request_iff x code req.client_id req.redirect_uri req.code_verifier).0
            valid in
        let (c, found, listed) =
          (validate_redirect_uri_iff ctx.clients req.client_id req.redirect_uri).0 redirect in
        let (d, registered, authenticated) =
          (validate_client_secret_iff ctx.clients req.client_id req.client_secret).0 secret in
        let same : c ≡ d = cc in
        record {
          genuine =
              (decode_and_verify_iff x cbor now req.code flow.hmac_key flow.code_max_age code).0
                decoded;
          same_client = same_client;
          same_uri = same_uri;
          answered = answered;
          client = c;
          registered = found;
          listed = listed;
          authenticated = rw same authenticated;
        }

    IsAuthorized-check_request :
        IsAuthorized flow ctx now req code → check_request x cbor j flow ctx now req ≡ ok code
    unfolding check_request
    IsAuthorized-check_request a = ground (
      arith,
      (decode_and_verify_iff x cbor now req.code flow.hmac_key flow.code_max_age code).1 a.genuine,
      (validate_token_request_iff x code req.client_id req.redirect_uri req.code_verifier).1
          (a.same_client, a.same_uri, a.answered),
      (validate_redirect_uri_iff ctx.clients req.client_id req.redirect_uri).1
          (a.client, a.registered, a.listed),
      (validate_client_secret_iff ctx.clients req.client_id req.client_secret).1
          (a.client, a.registered, a.authenticated),
    )

-- A token request passes all checks, and gives a code, exactly when it is authorized for that code:
-- the code is genuine and fresh, was issued for the request's client and redirect URI, its challenge
-- is answered, and the client is registered, lists the redirect URI and authenticates.
pub check_request_iff :
    (x : Codec) (cbor : Cbor) (j : JwtLib) (flow : OidcAuthCodePkceFlow) (ctx : TokenIssueContext j)
    (now : SystemTime) (req : AccessTokenRequest) (code : AuthorizationCode)
    → (check_request x cbor j flow ctx now req ≡ ok code)
      ↔ IsAuthorized x cbor j flow ctx now req code
check_request_iff x cbor j flow ctx now req code = (
  check_request-IsAuthorized x cbor j flow ctx now req code,
  IsAuthorized-check_request x cbor j flow ctx now req code,
)
