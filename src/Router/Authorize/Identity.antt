-- ===== src/Router/Authorize/Identity.antt =====
-- The identity token of a login.
use openid_tls_connector.Common.{ℕ, ◌+◌, ◌≤◌, String, ◌≡◌, List, some, ok}
use openid_tls_connector.External.{Codec}
use openid_tls_connector.Url.{UrlLib}
use openid_tls_connector.Users.{resolve_groups}
use openid_tls_connector.Code.Timestamp.{SystemTime}
use openid_tls_connector.Code.Signature.{Cbor}
use openid_tls_connector.Code.Signature.RoundTrip.{ReadsBack}
use openid_tls_connector.Storage.{TokenStore}
use openid_tls_connector.Token.{
  JwtLib, IdTokenClaims, id_token_claims, verify_id_token, now_secs, as_secs, add_u64,
}
use openid_tls_connector.Token.RoundTrip.{IsKeyPair, verify_id_token-issue_id_token}
use openid_tls_connector.Protocol.{
  AccessTokenRequest, TokenResponse, Readings, code_for, access_token_request,
}
use openid_tls_connector.Protocol.Checks.{check_request_iff}
use openid_tls_connector.Protocol.Success.{IsGranted, access_token_request_iff}
use openid_tls_connector.Router.{AppState, AuthorizeParams, Headers, token_context}
use openid_tls_connector.Router.Authorize.Accepted.{IsAccepted}
use openid_tls_connector.Router.Authorize.Redemption.{given, Redeems, redemption_iff}

module _ (x : Codec) (cbor : Cbor) (u : UrlLib) (table : ℕ → List ℕ) {j : JwtLib}
    (state : AppState j) (headers : Headers) (at_code at_sign : SystemTime)
    (params : AuthorizeParams) (location : String)
    (a : IsAccepted x cbor u table state headers at_code at_sign params location) where
  -- What the client learns of a login from the identity token.
  abbrev pub identity : Readings → IdTokenClaims
  identity env = record {
    iss = state.jwt_issuer.issuer;
    sub = a.user.subject;
    aud = params.client_id;
    exp = add_u64 (now_secs env.at_id_token) (as_secs state.id_token_ttl);
    iat = now_secs env.at_id_token;
    nonce = params.nonce;
    groups = some (resolve_groups a.client.groups state.default_groups);
  }

  -- The identity token of a request that was granted for the code of the answer.
  pub granted_identity :
      {S : Type 0} (t : TokenStore S)
      (keys : IsKeyPair j state.jwt_issuer.encoding_key state.jwt_issuer.decoding_key)
      (env : Readings) (req : AccessTokenRequest) (s s' : S) (response : TokenResponse)
      (g : IsGranted x cbor j t state.flow (token_context state) env req s s' response)
      → g.code ≡ given x cbor u table state headers at_code at_sign params location a
      → req.client_id ≡ params.client_id
      → (later : SystemTime)
      → now_secs later ≤ add_u64 (now_secs env.at_id_token) (as_secs state.id_token_ttl) + 5
      → verify_id_token j state.jwt_issuer later response.id_token params.client_id
        ≡ ok (identity env)
  unfolding code_for id_token_claims
  granted_identity t keys env req s s' response g same client later soon =
      verify_id_token-issue_id_token j state.jwt_issuer keys env.at_id_token later a.user.subject
        params.client_id (resolve_groups a.client.groups state.default_groups) params.nonce
        state.id_token_ttl response.id_token (rw same at (rw client at g.issued.id_token)) soon

  -- With keys that are a pair, where the libraries read back what they write: if a token request that
  -- bears the code of an answer of `/authorize` is answered with tokens, on any store, then it comes
  -- from the client of that authorization request, in time and with all that the code asks for, and
  -- the identity token verifies for that client, until five seconds past its expiry, as the issuer's
  -- statement of the user whom the certificate named, with the nonce of the authorization request
  -- and the client's groups with the default ones.
  pub login_identity :
      {S : Type 0} (t : TokenStore S)
      (keys : IsKeyPair j state.jwt_issuer.encoding_key state.jwt_issuer.decoding_key)
      (back : ReadsBack x cbor state.flow.hmac_key at_sign
        (given x cbor u table state headers at_code at_sign params location a))
      (env : Readings) (req : AccessTokenRequest)
      → req.code ≡ a.encoded
      → (s s' : S) (response : TokenResponse)
      → access_token_request x cbor j t state.flow (token_context state) env req s
        ≡ (s', ok response)
      → (later : SystemTime)
      → now_secs later ≤ add_u64 (now_secs env.at_id_token) (as_secs state.id_token_ttl) + 5
      → Redeems x cbor u table state headers at_code at_sign params location a env.at_verify req
        × (verify_id_token j state.jwt_issuer later response.id_token params.client_id
            ≡ ok (identity env))
  login_identity t keys back env req bears s s' response granted later soon =
      let g =
        (access_token_request_iff x cbor j t state.flow (token_context state) env req s s'
            response).0
          granted in
      let (same, redeems) =
        (redemption_iff x cbor u table state headers at_code at_sign params location a back
            env.at_verify req bears g.code).0
          ((check_request_iff x cbor j state.flow (token_context state) env.at_verify req g.code).1
            g.authorized) in
      (redeems, granted_identity t keys env req s s' response g same redeems.same_client later soon)
