-- ===== src/Protocol/Abstract.antt =====
-- The flow depends on its store through the trait's promises alone: seen through its view, it is the
-- flow on the abstract store.
use openid_tls_connector.Common.{String, ◌≡◌, inl, inr, Bool, arith, Result-cases, Option-cases}
use openid_tls_connector.External.{Codec}
use openid_tls_connector.Code.AuthorizationCode.{AuthorizationCode}
use openid_tls_connector.Code.Signature.{Cbor}
use openid_tls_connector.Storage.{TokenStore}
use openid_tls_connector.Storage.Contract.{Contract}
use openid_tls_connector.Storage.Abstract.{
  abstract_store, view, seen, view-issue, seen-consume_code,
}
use openid_tls_connector.Token.{JwtLib, issue_id_token, issue_access_token}
use openid_tls_connector.Protocol.{
  AccessTokenRequest, TokenIssueContext, OidcAuthCodePkceFlow, Readings, code_replay_key,
  check_request, issue_tokens, redeem, access_token_request, add_duration,
}
use openid_tls_connector.Protocol.Jti.{random_jti}
use openid_tls_connector.Protocol.Success.{grant_type-cases}

module _ (x : Codec) (cbor : Cbor) (j : JwtLib) {S : Type 0} (t : TokenStore S)
    (consumed : S → String → Bool) (contract : Contract t consumed) (flow : OidcAuthCodePkceFlow)
    (ctx : TokenIssueContext j) (env : Readings) (req : AccessTokenRequest) where
  seen-issue_tokens :
      (code : AuthorizationCode) (s : S)
      → seen t consumed (issue_tokens j t ctx env req code s)
        ≡ issue_tokens j abstract_store ctx env req code (view t consumed s)
  unfolding issue_tokens
  seen-issue_tokens code s =
      elim (Result-cases (
        issue_id_token j ctx.jwt_issuer env.at_id_token code.subject req.client_id code.groups
          code.nonce ctx.id_token_ttl)) [
            | inr (e, p) ↦ ground arith
            | inl (i, p) ↦
                elim (Result-cases (
                  issue_access_token j ctx.jwt_issuer env.at_access_token code.subject req.client_id
                    code.groups code.scope (random_jti env.random) ctx.access_token_ttl)) [
                      | inr (e, q) ↦ ground arith
                      | inl (a, q) ↦
                          elim (Option-cases (add_duration env.at_expiry ctx.access_token_ttl)) [
                            | inl o ↦ ground arith
                            | inr (expires_at, o) ↦ ground (
                              arith,
                              view-issue t consumed contract s (random_jti env.random) code.subject
                                  req.client_id code.scope code.groups expires_at,
                            )
                          ]
                    ]
          ]

  seen-redeem :
      (code : AuthorizationCode) (s : S)
      → seen t consumed (redeem j t x ctx env req code s)
        ≡ redeem j abstract_store x ctx env req code (view t consumed s)
  unfolding redeem
  seen-redeem code s =
      let key = code_replay_key x req.code in
      let taken = seen-consume_code t consumed contract s key in
      let issued = seen-issue_tokens code (t.consume_code s key).0 in ground arith

  pub seen-access_token_request :
      (s : S)
      → seen t consumed (access_token_request x cbor j t flow ctx env req s)
        ≡ access_token_request x cbor j abstract_store flow ctx env req (view t consumed s)
  unfolding access_token_request
  seen-access_token_request s =
      elim (Result-cases (check_request x cbor j flow ctx env.at_verify req)) [
        | inr (e, c) ↦ ground (arith, grant_type-cases req.grant_type)
        | inl (code, c) ↦ ground (arith, grant_type-cases req.grant_type, seen-redeem code s)
      ]
