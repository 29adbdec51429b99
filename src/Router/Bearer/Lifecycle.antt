-- ===== src/Router/Bearer/Lifecycle.antt =====
-- From a granted token to `/userinfo`.
use Prim.Native.String
use openid_tls_connector.Common.{
  Bool, ◌+◌, ◌≤◌, String, ◌≡◌, refl, sym, ap, ◌∙◌, ◌↔◌, inl, inr, none, some, ok, err, arith, ◌==◌,
  if◌then◌else◌, eq_refl, Option-cases, Result-cases,
}
use openid_tls_connector.Common.Text.{strip_prefix}
use openid_tls_connector.Common.Text.Splits.{strip_prefix_iff}
use openid_tls_connector.Code.Timestamp.{SystemTime}
use openid_tls_connector.External.{Codec}
use openid_tls_connector.Code.Signature.{Cbor}
use openid_tls_connector.Code.AuthorizationCode.{AuthorizationCode}
use openid_tls_connector.Protocol.Checks.{check_request_iff}
use openid_tls_connector.Storage.{TokenStore, TokenRecord}
use openid_tls_connector.Storage.Contract.{Contract}
use openid_tls_connector.Token.{
  JwtLib, AccessTokenClaims, access_token_claims, now_secs, as_secs, add_u64, verify_access_token,
}
use openid_tls_connector.Token.RoundTrip.{IsKeyPair, verify_access_token-issue_access_token}
use openid_tls_connector.Protocol.{
  check_request, code_replay_key, AccessTokenRequest, Readings, TokenResponse, access_token_request,
}
use openid_tls_connector.Protocol.Success.{access_token_request_iff}
use openid_tls_connector.Protocol.Jti.{random_jti}
use openid_tls_connector.Router.{AppState, Headers, token_context}
use openid_tls_connector.Router.Bearer.{
  UserInfo, unauthenticated_error, verify_bearer_token, userinfo_handler,
}

if_same {ℓ} : {A : Type ℓ} (k : String) (a b : A) → (if k == k then a else b) ≡ a
if_same k a b = rw (eq_refl k) refl

module _ {j : JwtLib} (state : AppState j) (now : SystemTime) (headers : Headers) where
  -- The header bears a token that verifies.
  abbrev pub Bears : AccessTokenClaims → Type 0
  Bears claims =
      (bearer : String) × (headers "authorization" ≡ some (String.◌++◌ "Bearer " bearer))
      × (verify_access_token j state.jwt_issuer now bearer ≡ ok claims)

  verify_bearer_token_iff :
      (claims : AccessTokenClaims)
      → (verify_bearer_token state now headers ≡ ok claims) ↔ Bears claims
  unfolding verify_bearer_token
  verify_bearer_token_iff claims = (
    λ h. elim (Option-cases (headers "authorization")) [
      | inl e ↦ absurd (ground arith)
      | inr (header, e) ↦ elim (Option-cases (strip_prefix "Bearer " header)) [
        | inl p ↦ absurd (ground arith)
        | inr (bearer, p) ↦
            elim (Result-cases (verify_access_token j state.jwt_issuer now bearer)) [
              | inr (f, q) ↦ absurd (ground arith)
              | inl (c, q) ↦ (
                bearer,
                e ∙ ap some ((strip_prefix_iff "Bearer " header bearer).0 p),
                ground arith,
              )
            ]
      ]
    ],
    λ (bearer, e, q).
        ground (arith, (strip_prefix_iff "Bearer " (String.◌++◌ "Bearer " bearer) bearer).1 refl),
  )

  abbrev shown : TokenRecord → UserInfo
  shown r = record { sub = r.subject; groups = r.groups; scope = r.scope; client_id = r.client_id }

  module _ {S : Type 0} (t : TokenStore S) (s : S) where
    -- `/userinfo` answers exactly when the Authorization header is "Bearer " and a token that verifies
    -- and whose identifier the store still has; the answer is what the store has of it, whatever the
    -- token claims.
    pub userinfo_handler_iff :
        (info : UserInfo)
        → (userinfo_handler t state now headers s ≡ ok info) ↔ (
            (claims : AccessTokenClaims) × (found : TokenRecord) × Bears claims
            × (t.lookup s claims.jti ≡ some found)
            × (info ≡ shown found))
    unfolding userinfo_handler
    userinfo_handler_iff info = (
      λ h. elim (Result-cases (verify_bearer_token state now headers)) [
        | inr (e, p) ↦ absurd (ground arith)
        | inl (claims, p) ↦ elim (Option-cases (t.lookup s claims.jti)) [
          | inl q ↦ absurd (ground arith)
          | inr (found, q) ↦ (claims, found, (verify_bearer_token_iff claims).0 p, q, ground arith)
        ]
      ],
      λ (claims, found, b, q, e). ground (arith, (verify_bearer_token_iff claims).1 b),
    )

    -- A token that verifies and whose identifier the store has not.
    userinfo_unknown :
        (claims : AccessTokenClaims)
        → Bears claims
        → t.lookup s claims.jti ≡ none
        → userinfo_handler t state now headers s
          ≡ err (unauthenticated_error "Token has been revoked or is unknown")
    unfolding userinfo_handler
    userinfo_unknown claims b h = ground (arith, (verify_bearer_token_iff claims).1 b)

module _ (x : Codec) (cbor : Cbor) {j : JwtLib} {S : Type 0} (t : TokenStore S)
    (consumed : S → String → Bool) (contract : Contract t consumed) (state : AppState j)
    (keys : IsKeyPair j state.jwt_issuer.encoding_key state.jwt_issuer.decoding_key) where
  -- What `/userinfo` says of a token that was issued for a code to a client.
  abbrev info_of : AuthorizationCode → String → UserInfo
  info_of code client_id = record {
    sub = code.subject;
    groups = code.groups;
    scope = code.scope;
    client_id = client_id;
  }

  -- On a store that keeps the trait's promises, with keys that are a pair: the access token of a
  -- granted request opens `/userinfo`, on the store that the request left, until five seconds past its
  -- expiry, as the user, groups and scope of the code that was redeemed, for the client that redeemed
  -- it; once its identifier is revoked there, it is refused.
  pub granted_userinfo :
      (env : Readings) (req : AccessTokenRequest) (s s' : S) (response : TokenResponse)
      → access_token_request x cbor j t state.flow (token_context state) env req s
        ≡ (s', ok response)
      → (later : SystemTime) (headers : Headers)
      → headers "authorization" ≡ some (String.◌++◌ "Bearer " response.access_token)
      → now_secs later ≤ add_u64 (now_secs env.at_access_token) (as_secs state.access_token_ttl) + 5
      → (code : AuthorizationCode) × (check_request x cbor j state.flow
            (token_context state)
            env.at_verify
            req
          ≡ ok code)
        × (userinfo_handler t state later headers s' ≡ ok (info_of code req.client_id))
        × (userinfo_handler t state later headers (t.revoke s' (random_jti env.random)).0
            ≡ err (unauthenticated_error "Token has been revoked or is unknown"))
  unfolding access_token_claims
  granted_userinfo env req s s' response granted later headers bears soon =
      let g =
        (access_token_request_iff x cbor j t state.flow (token_context state) env req s s'
            response).0
          granted in
      let code = g.code in
      let jti = random_jti env.random in
      let verified =
        verify_access_token-issue_access_token j state.jwt_issuer keys env.at_access_token later
          code.subject req.client_id code.groups code.scope jti state.access_token_ttl
          response.access_token g.issued.access_token soon in
      let kept =
        contract.lookup-issue (t.consume_code s (code_replay_key x req.code)).0 jti code.subject
          req.client_id code.scope code.groups g.issued.expires_at jti in
      let stored : (found : TokenRecord) × (t.lookup s' jti ≡ some found)
          × (shown state later headers found ≡ info_of code req.client_id) =
        (_, ap (λ r. t.lookup r jti) g.issued.stored ∙ kept ∙ if_same jti _ _, refl) in
      (
        code,
        (check_request_iff x cbor j state.flow (token_context state) env.at_verify req code).1
            g.authorized,
        (userinfo_handler_iff state later headers t s' (info_of code req.client_id)).1
            (_, stored.0, (response.access_token, bears, verified), stored.1, sym stored.2),
        userinfo_unknown state later headers t (t.revoke s' jti).0 _
            (response.access_token, bears, verified)
            (contract.lookup-revoke s' jti jti ∙ if_same jti _ _),
      )
