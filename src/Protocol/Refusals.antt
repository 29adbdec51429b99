-- ===== src/Protocol/Refusals.antt =====
-- Which requests are told that the client failed to authenticate.
use openid_tls_connector.Common.{
  String, ◌≡◌, ◌≢◌, refl, ◌↔◌, ◌⊎◌, inl, inr, true, ok, err, arith, Result-cases, Bool-cases,
}
use openid_tls_connector.External.{Codec}
use openid_tls_connector.Client.{
  AuthResult, allow, deny, validate_redirect_uri, validate_client_secret,
}
use openid_tls_connector.Code.Timestamp.{SystemTime}
use openid_tls_connector.Code.AuthorizationCode.{
  AuthorizationCode, TokenRequestError, validate_token_request,
}
use openid_tls_connector.Code.Signature.{
  AuthorizationCodeVerificationError, invalid_timestamp, invalid_signature, invalid_base64_encoding,
  invalid_signed_data_container_encoding, Cbor, decode_and_verify,
}
use openid_tls_connector.Token.{JwtLib}
use openid_tls_connector.Protocol.{
  AccessTokenRequest, TokenIssueContext, OidcAuthCodePkceFlow, check_request,
}
use openid_tls_connector.Protocol.Errors.{
  invalid_client, map_code_verification_error, map_token_request_error,
}

code_error-grant :
    (e : AuthorizationCodeVerificationError) (m : String)
    → map_code_verification_error e ≢ invalid_client m
unfolding map_code_verification_error
code_error-grant (invalid_timestamp t) m h = cc
code_error-grant invalid_signature m h = cc
code_error-grant (invalid_base64_encoding t) m h = cc
code_error-grant (invalid_signed_data_container_encoding t) m h = cc

request_error-grant :
    (e : TokenRequestError) (m : String) → map_token_request_error e ≢ invalid_client m
unfolding map_token_request_error
request_error-grant e m h = cc

pub AuthResult-cases : (a : AuthResult) → (a ≡ allow) ⊎ (a ≡ deny)
AuthResult-cases allow = inl refl
AuthResult-cases deny = inr refl

module _ (x : Codec) (cbor : Cbor) (j : JwtLib) (flow : OidcAuthCodePkceFlow)
    (ctx : TokenIssueContext j) (now : SystemTime) (req : AccessTokenRequest) where
  -- All else is right, and the client is denied.
  pub record IsDenied (code : AuthorizationCode) : Type 0 where
    pub decoded : decode_and_verify x cbor now req.code flow.hmac_key flow.code_max_age ≡ ok code
    pub valid :
        validate_token_request x code req.client_id req.redirect_uri req.code_verifier ≡ ok tt
    pub listed : validate_redirect_uri ctx.clients req.client_id req.redirect_uri ≡ true
    pub denied : validate_client_secret ctx.clients req.client_id req.client_secret ≡ deny

  check_request-IsDenied :
      (m : String)
      → check_request x cbor j flow ctx now req ≡ err (invalid_client m)
      → (m ≡ "Client authentication failed") × (code : AuthorizationCode) × IsDenied code
  unfolding check_request
  check_request-IsDenied m h =
      elim (Result-cases (decode_and_verify x cbor now req.code flow.hmac_key flow.code_max_age)) [
        | inr (e, failed) ↦ absurd (ground (arith, code_error-grant e m))
        | inl (c, decoded) ↦
            elim (Result-cases
              (validate_token_request x c req.client_id req.redirect_uri req.code_verifier)) [
                | inr (e, failed) ↦ absurd (ground (arith, request_error-grant e m))
                | inl (u, valid) ↦
                    elim (Bool-cases
                      (validate_redirect_uri ctx.clients req.client_id req.redirect_uri)) [
                        | inr unlisted ↦ absurd (ground arith)
                        | inl fits ↦
                            elim (AuthResult-cases (
                              validate_client_secret ctx.clients req.client_id req.client_secret)) [
                                | inl a ↦ absurd (ground arith)
                                | inr d ↦ (
                                  ground arith,
                                  c,
                                  record {
                                    decoded = decoded;
                                    valid = valid;
                                    listed = fits;
                                    denied = d;
                                  },
                                )
                              ]
                      ]
              ]
      ]

  IsDenied-check_request :
      (code : AuthorizationCode)
      → IsDenied code
      → check_request x cbor j flow ctx now req
        ≡ err (invalid_client "Client authentication failed")
  unfolding check_request
  IsDenied-check_request code d = ground arith

  -- The checks end in `invalid_client` exactly when the code verifies, fits the request and its
  -- verifier, and the redirect URI is listed, while the client's secret is denied; any other failure
  -- has another error, and the text is always the same.
  pub invalid_client_iff :
      (m : String)
      → (check_request x cbor j flow ctx now req ≡ err (invalid_client m))
        ↔ ((m ≡ "Client authentication failed") × (code : AuthorizationCode) × IsDenied code)
  invalid_client_iff m =
      (check_request-IsDenied m, λ (e, code, d). rw e (IsDenied-check_request code d))
