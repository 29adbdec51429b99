-- ===== src/Protocol/Effect.antt =====
-- The four ways in which a token request ends, each with what it did to the store.
use openid_tls_connector.Common.{
  String, ◌≡◌, ◌⊎◌, inl, inr, true, false, ok, err, Result, arith, Result-cases, Bool-cases,
}
use openid_tls_connector.External.{Codec}
use openid_tls_connector.Code.AuthorizationCode.{AuthorizationCode}
use openid_tls_connector.Code.Signature.{Cbor}
use openid_tls_connector.Storage.{TokenStore}
use openid_tls_connector.Token.{JwtLib, issue_id_token, issue_access_token}
use openid_tls_connector.Token
use openid_tls_connector.Protocol.{
  AccessTokenRequest, TokenIssueContext, OidcAuthCodePkceFlow, TokenResponse, Readings, Failure,
  error, panic, code_replay_key, check_request, issue_tokens, redeem, access_token_request,
}
use openid_tls_connector.Protocol.Errors.{OidcError, invalid_grant, server_error}
use openid_tls_connector.Protocol.Jti.{random_jti}
use openid_tls_connector.Protocol.Success.{grant_type-cases, AreIssued, issue_tokens-AreIssued}

-- A failure of the server's own: of the token libraries, or a time past the last one.
abbrev pub IsServerFailure : Failure → Type 0
IsServerFailure f = (f ≡ panic) ⊎ ((e : String) × (f ≡ error (server_error e)))

module _ (x : Codec) (cbor : Cbor) (j : JwtLib) {S : Type 0} (t : TokenStore S)
    (flow : OidcAuthCodePkceFlow) (ctx : TokenIssueContext j) (env : Readings)
    (req : AccessTokenRequest) (s : S) where
  abbrev pub used : S
  used = (t.consume_code s (code_replay_key x req.code)).0

  pub data Effect : S → Result Failure TokenResponse → Type 0 where
    -- A check failed: the store is as it was.
    refused :
        (e : OidcError)
        → check_request x cbor j flow ctx env.at_verify req ≡ err e
        → Effect s (err (error e))
    -- The checks passed, and the store answered that the code had been consumed.
    replayed :
        (code : AuthorizationCode)
        → check_request x cbor j flow ctx env.at_verify req ≡ ok code
        → (t.consume_code s (code_replay_key x req.code)).1 ≡ false
        → Effect used (err (error (invalid_grant "Authorization code has already been used")))
    -- The code was consumed, and the server failed.
    failed :
        (code : AuthorizationCode) (f : Failure)
        → check_request x cbor j flow ctx env.at_verify req ≡ ok code
        → (t.consume_code s (code_replay_key x req.code)).1 ≡ true
        → IsServerFailure f
        → Effect used (err f)
    -- The code was consumed, and tokens were issued.
    granted :
        (code : AuthorizationCode) (s' : S) (response : TokenResponse)
        → check_request x cbor j flow ctx env.at_verify req ≡ ok code
        → (t.consume_code s (code_replay_key x req.code)).1 ≡ true
        → AreIssued j t ctx env req code used s' response
        → Effect s' (ok response)

  pub issue_tokens-eq-err :
      (code : AuthorizationCode) {s₀ s' : S} (f : Failure)
      → issue_tokens j t ctx env req code s₀ ≡ (s', err f)
      → (s' ≡ s₀) × IsServerFailure f
  unfolding issue_tokens
  issue_tokens-eq-err code f h =
      let jti = random_jti env.random in
      elim (Result-cases (
        issue_id_token j ctx.jwt_issuer env.at_id_token code.subject req.client_id code.groups
          code.nonce ctx.id_token_ttl)) [
            | inr (e, p) ↦ (ground arith, inr (Token.error_text e, ground arith))
            | inl (i, p) ↦
                elim (Result-cases (
                  issue_access_token j ctx.jwt_issuer env.at_access_token code.subject req.client_id
                    code.groups code.scope jti ctx.access_token_ttl)) [
                      | inr (e, q) ↦ (ground arith, inr (Token.error_text e, ground arith))
                      | inl (a, q) ↦ (ground arith, inl (ground arith))
                    ]
          ]

  issue_tokens-Effect :
      (code : AuthorizationCode) (s' : S) (r : Result Failure TokenResponse)
      → check_request x cbor j flow ctx env.at_verify req ≡ ok code
      → (t.consume_code s (code_replay_key x req.code)).1 ≡ true
      → issue_tokens j t ctx env req code used ≡ (s', r)
      → Effect s' r
  issue_tokens-Effect code s' (ok response) c h e =
      granted code s' response c h (issue_tokens-AreIssued j t ctx env req code used s' response e)
  issue_tokens-Effect code s' (err f) c h e =
      let (same, server) = issue_tokens-eq-err code f e in rw same (failed code f c h server)

  pub access_token_request-Effect :
      (s' : S) (r : Result Failure TokenResponse)
      → access_token_request x cbor j t flow ctx env req s ≡ (s', r)
      → Effect s' r
  unfolding access_token_request redeem
  access_token_request-Effect s' r h =
      elim (Result-cases (check_request x cbor j flow ctx env.at_verify req)) [
        | inr (e, p) ↦
            let same : s' ≡ s = ground (arith, grant_type-cases req.grant_type) in
            let answer : r ≡ err (error e) = ground (arith, grant_type-cases req.grant_type) in
            rw same (rw answer (refused e p))
        | inl (code, p) ↦ elim (Bool-cases (t.consume_code s (code_replay_key x req.code)).1) [
          | inl q ↦
              issue_tokens-Effect code s' r p q (ground (arith, grant_type-cases req.grant_type))
          | inr q ↦
              let same : s' ≡ used = ground (arith, grant_type-cases req.grant_type) in
              let answer : r
                  ≡ err (error (invalid_grant "Authorization code has already been used")) =
                ground (arith, grant_type-cases req.grant_type) in
              rw same (rw answer (replayed code p q))
        ]
      ]
