-- ===== src/Protocol/Granted.antt =====
-- Token requests that pass their checks, where the library of tokens signs.
use openid_tls_connector.Common.{
  String, ◌+◌, ◌<◌, ◌≡◌, ◌≢◌, refl, ap, true, some, ok, arith, map_err,
}
use openid_tls_connector.Common.Text.{join}
use openid_tls_connector.External.{Codec}
use openid_tls_connector.Code.AuthorizationCode.{AuthorizationCode}
use openid_tls_connector.Code.Signature.{Cbor}
use openid_tls_connector.Storage.{TokenStore}
use openid_tls_connector.Token.{
  JwtLib, JwtIssuer, IdTokenClaims, AccessTokenClaims, rs256_header, jwt, id_token_claims,
  access_token_claims, issue_id_token, issue_access_token, as_secs,
}
use openid_tls_connector.Protocol.{
  AccessTokenRequest, TokenIssueContext, OidcAuthCodePkceFlow, TokenResponse, Readings,
  add_duration, time_limit, code_replay_key, check_request, access_token_request,
}
use openid_tls_connector.Protocol.Checks.{check_request_iff}
use openid_tls_connector.Protocol.Jti.{random_jti}
use openid_tls_connector.Protocol.Success.{AreIssued, access_token_request_iff}

module _ (j : JwtLib) (issuer : JwtIssuer j) where
  -- `jsonwebtoken` signs all claims with the issuer's key, and no token is empty.
  pub record Signs : Type 0 where
    pub sign_id :
        (c : IdTokenClaims)
        → (token : String) × (j.encode_id (rs256_header j issuer) c issuer.encoding_key ≡ ok token)
          × (token ≢ "")
    pub sign_access :
        (c : AccessTokenClaims)
        → (token : String) × (j.encode_access (rs256_header j issuer) c issuer.encoding_key
            ≡ ok token)
          × (token ≢ "")

module _ (x : Codec) (cbor : Cbor) (j : JwtLib) {S : Type 0} (t : TokenStore S)
    (ctx : TokenIssueContext j) where
  -- A request that passes its checks, and whose code was not consumed, is granted.
  pub record Granted (flow : OidcAuthCodePkceFlow) (env : Readings) (req : AccessTokenRequest)
      (code : AuthorizationCode) (s : S) : Type 0 where
    pub response : TokenResponse
    pub after : S
    pub answered : access_token_request x cbor j t flow ctx env req s ≡ (after, ok response)
    pub issued :
        AreIssued j t ctx env req code
          (t.consume_code s (code_replay_key x req.code)).0
          after
          response
    pub has_id : response.id_token ≢ ""
    pub has_access : response.access_token ≢ ""

  pub request-Granted :
      (flow : OidcAuthCodePkceFlow) (env : Readings) (req : AccessTokenRequest)
      (code : AuthorizationCode) (s : S)
      → Signs j ctx.jwt_issuer
      → env.at_expiry + ctx.access_token_ttl < time_limit
      → check_request x cbor j flow ctx env.at_verify req ≡ ok code
      → (t.consume_code s (code_replay_key x req.code)).1 ≡ true
      → Granted flow env req code s
  unfolding issue_id_token issue_access_token add_duration
  request-Granted flow env req code s signs in_range passed first =
      let consumed = (t.consume_code s (code_replay_key x req.code)).0 in
      let (id_token, signed_id, has_id) = signs.sign_id (
        id_token_claims j ctx.jwt_issuer env.at_id_token code.subject req.client_id code.groups
          code.nonce ctx.id_token_ttl) in
      let (access_token, signed_access, has_access) = signs.sign_access (
        access_token_claims j ctx.jwt_issuer env.at_access_token code.subject req.client_id
          code.groups code.scope (random_jti env.random) ctx.access_token_ttl) in
      let response : TokenResponse = record {
        access_token = access_token;
        token_type = "Bearer";
        expires_in = as_secs ctx.access_token_ttl;
        id_token = id_token;
        scope = some (join " " code.scope);
      } in
      let after =
        t.issue consumed (random_jti env.random) code.subject req.client_id code.scope code.groups
          (env.at_expiry + ctx.access_token_ttl) in
      let issued : AreIssued j t ctx env req code consumed after response = record {
        expires_at = env.at_expiry + ctx.access_token_ttl;
        id_token = ap (map_err jwt) signed_id;
        access_token = ap (map_err jwt) signed_access;
        expiry = ground arith;
        stored = refl;
        token_type = refl;
        expires_in = refl;
        scope = refl;
      } in
      record {
        response = response;
        after = after;
        answered =
            (access_token_request_iff x cbor j t flow ctx env req s after response).1 (record {
              code = code;
              authorized = (check_request_iff x cbor j flow ctx env.at_verify req code).0 passed;
              first_use = first;
              issued = issued;
            });
        issued = issued;
        has_id = has_id;
        has_access = has_access;
      }
