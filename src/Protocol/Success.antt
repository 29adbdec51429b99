-- ===== src/Protocol/Success.antt =====
-- When a token request is granted, what it answers and what it leaves in the store.
use openid_tls_connector.Common.{
  ◌≡◌, refl, ◌↔◌, inl, inr, some, true, ok, arith, Result-cases, Bool-cases, Option-cases,
}
use openid_tls_connector.Common.Text.{join}
use openid_tls_connector.External.{Codec}
use openid_tls_connector.Code.Timestamp.{SystemTime}
use openid_tls_connector.Code.AuthorizationCode.{AuthorizationCode}
use openid_tls_connector.Code.Signature.{Cbor}
use openid_tls_connector.Storage.{TokenStore}
use openid_tls_connector.Token.{JwtLib, issue_id_token, issue_access_token, as_secs}
use openid_tls_connector.Protocol.{
  AccessTokenRequest, TokenIssueContext, OidcAuthCodePkceFlow, TokenResponse, Readings,
  add_duration, code_replay_key, check_request, issue_tokens, redeem, access_token_request,
}
use openid_tls_connector.Protocol.Errors.{GrantType, authorization_code}
use openid_tls_connector.Protocol.Jti.{random_jti}
use openid_tls_connector.Protocol.Checks.{IsAuthorized, check_request_iff}

pub grant_type-cases : (g : GrantType) → g ≡ authorization_code
grant_type-cases authorization_code = refl

module _ (j : JwtLib) {S : Type 0} (t : TokenStore S) where
  -- The tokens that answer a request with a code, on the store whose code is consumed.
  pub record AreIssued (ctx : TokenIssueContext j) (env : Readings) (req : AccessTokenRequest)
      (code : AuthorizationCode) (s s' : S) (response : TokenResponse) : Type 0 where
    pub expires_at : SystemTime
    pub id_token :
        issue_id_token j ctx.jwt_issuer env.at_id_token code.subject req.client_id code.groups
          code.nonce ctx.id_token_ttl
        ≡ ok response.id_token
    pub access_token :
        issue_access_token j ctx.jwt_issuer env.at_access_token code.subject req.client_id
          code.groups code.scope
          (random_jti env.random)
          ctx.access_token_ttl
        ≡ ok response.access_token
    pub expiry : add_duration env.at_expiry ctx.access_token_ttl ≡ some expires_at
    pub stored :
        s'
        ≡ t.issue s
            (random_jti env.random)
            code.subject
            req.client_id
            code.scope
            code.groups
            expires_at
    pub token_type : response.token_type ≡ "Bearer"
    pub expires_in : response.expires_in ≡ as_secs ctx.access_token_ttl
    pub scope : response.scope ≡ some (join " " code.scope)

  module _ (ctx : TokenIssueContext j) (env : Readings) (req : AccessTokenRequest)
      (code : AuthorizationCode) (s s' : S) (response : TokenResponse) where
    pub issue_tokens-AreIssued :
        issue_tokens j t ctx env req code s ≡ (s', ok response)
        → AreIssued ctx env req code s s' response
    unfolding issue_tokens
    issue_tokens-AreIssued h =
        let jti = random_jti env.random in
        elim (Result-cases (
          issue_id_token j ctx.jwt_issuer env.at_id_token code.subject req.client_id code.groups
            code.nonce ctx.id_token_ttl)) [
              | inr (e, p) ↦ absurd (ground arith)
              | inl (i, p) ↦
                  elim (Result-cases (
                    issue_access_token j ctx.jwt_issuer env.at_access_token code.subject
                      req.client_id code.groups code.scope jti ctx.access_token_ttl)) [
                        | inr (e, q) ↦ absurd (ground arith)
                        | inl (a, q) ↦
                            elim (Option-cases (add_duration env.at_expiry ctx.access_token_ttl)) [
                              | inl r ↦ absurd (ground arith)
                              | inr (expires_at, r) ↦ record {
                                expires_at = expires_at;
                                id_token = ground arith;
                                access_token = ground arith;
                                expiry = r;
                                stored = ground arith;
                                token_type = ground arith;
                                expires_in = ground arith;
                                scope = ground arith;
                              }
                            ]
                      ]
            ]

    AreIssued-issue_tokens :
        AreIssued ctx env req code s s' response
        → issue_tokens j t ctx env req code s ≡ (s', ok response)
    unfolding issue_tokens
    AreIssued-issue_tokens a = ground arith

module _ (x : Codec) (cbor : Cbor) (j : JwtLib) {S : Type 0} (t : TokenStore S) where
  -- A granted request: it was authorized, the store let its code be consumed, and the tokens were
  -- issued on the store that consuming the code left.
  pub record IsGranted (flow : OidcAuthCodePkceFlow) (ctx : TokenIssueContext j) (env : Readings)
      (req : AccessTokenRequest) (s s' : S) (response : TokenResponse) : Type 0 where
    pub code : AuthorizationCode
    pub authorized : IsAuthorized x cbor j flow ctx env.at_verify req code
    pub first_use : (t.consume_code s (code_replay_key x req.code)).1 ≡ true
    pub issued :
        AreIssued j t ctx env req code (t.consume_code s (code_replay_key x req.code)).0 s' response

  module _ (flow : OidcAuthCodePkceFlow) (ctx : TokenIssueContext j) (env : Readings)
      (req : AccessTokenRequest) (s s' : S) (response : TokenResponse) where
    redeem_parts :
        (code : AuthorizationCode)
        → redeem j t x ctx env req code s ≡ (s', ok response)
        → ((t.consume_code s (code_replay_key x req.code)).1 ≡ true)
          × (issue_tokens j t ctx env req code (t.consume_code s (code_replay_key x req.code)).0
              ≡ (s', ok response))
    unfolding redeem
    redeem_parts code h = elim (Bool-cases (t.consume_code s (code_replay_key x req.code)).1) [
      | inl e ↦ (e, ground arith)
      | inr e ↦ absurd (ground arith)
    ]

    access_token_request-IsGranted :
        access_token_request x cbor j t flow ctx env req s ≡ (s', ok response)
        → IsGranted flow ctx env req s s' response
    unfolding access_token_request
    access_token_request-IsGranted h =
        elim (Result-cases (check_request x cbor j flow ctx env.at_verify req)) [
          | inr (e, p) ↦ absurd (ground (arith, grant_type-cases req.grant_type))
          | inl (code, p) ↦
              let (first, rest) =
                redeem_parts code (ground (arith, grant_type-cases req.grant_type)) in
              record {
                code = code;
                authorized = (check_request_iff x cbor j flow ctx env.at_verify req code).0 p;
                first_use = first;
                issued = issue_tokens-AreIssued j t ctx env req code _ s' response rest;
              }
        ]

    IsGranted-access_token_request :
        IsGranted flow ctx env req s s' response
        → access_token_request x cbor j t flow ctx env req s ≡ (s', ok response)
    unfolding access_token_request redeem
    IsGranted-access_token_request g = ground (
      arith,
      grant_type-cases req.grant_type,
      (check_request_iff x cbor j flow ctx env.at_verify req g.code).1 g.authorized,
      AreIssued-issue_tokens j t ctx env req g.code
          (t.consume_code s (code_replay_key x req.code)).0 s' response g.issued,
    )

-- A token request answers with tokens, and leaves a store, exactly when it is authorized for a code,
-- the store let that code be consumed, and, on the store that this left, both tokens were minted from
-- the code, the expiry time exists, the record of the access token was added to the store, and the
-- answer carries those tokens, "Bearer", the lifetime in seconds and the code's scope.
pub access_token_request_iff :
    (x : Codec) (cbor : Cbor) (j : JwtLib) {S : Type 0} (t : TokenStore S)
    (flow : OidcAuthCodePkceFlow) (ctx : TokenIssueContext j) (env : Readings)
    (req : AccessTokenRequest) (s s' : S) (response : TokenResponse)
    → (access_token_request x cbor j t flow ctx env req s ≡ (s', ok response))
      ↔ IsGranted x cbor j t flow ctx env req s s' response
access_token_request_iff x cbor j t flow ctx env req s s' response = (
  access_token_request-IsGranted x cbor j t flow ctx env req s s' response,
  IsGranted-access_token_request x cbor j t flow ctx env req s s' response,
)
