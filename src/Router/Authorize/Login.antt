-- ===== src/Router/Authorize/Login.antt =====
-- A login runs through: from `/authorize` to tokens.
use openid_tls_connector.Common.{ℕ, String, ◌≡◌, refl, ap, ◌∙◌, Bool, false, not, List, some, ok}
use openid_tls_connector.Common.Text.{join}
use openid_tls_connector.External.{Codec}
use openid_tls_connector.Url.{UrlLib}
use openid_tls_connector.Code.Timestamp.{SystemTime}
use openid_tls_connector.Code.Signature.{Cbor}
use openid_tls_connector.Code.Signature.RoundTrip.{ReadsBack}
use openid_tls_connector.Storage.{TokenStore}
use openid_tls_connector.Storage.Contract.{Contract}
use openid_tls_connector.Token.{JwtLib, issue_id_token, issue_access_token, as_secs}
use openid_tls_connector.Protocol.{
  AccessTokenRequest, Readings, code_for, add_duration, code_replay_key, access_token_request,
}
use openid_tls_connector.Protocol.Checks.{check_request_iff}
use openid_tls_connector.Protocol.Jti.{random_jti}
use openid_tls_connector.Protocol.Success.{access_token_request_iff}
use openid_tls_connector.Router.{AppState, AuthorizeParams, Headers, token_context}
use openid_tls_connector.Router.Authorize.Accepted.{IsAccepted}
use openid_tls_connector.Router.Authorize.Redemption.{given, Redeems, redemption_iff}

module _ (x : Codec) (cbor : Cbor) (u : UrlLib) (table : ℕ → List ℕ) {j : JwtLib}
    (state : AppState j) (headers : Headers) (at_code at_sign : SystemTime)
    (params : AuthorizeParams) (location : String)
    (a : IsAccepted x cbor u table state headers at_code at_sign params location) where
  -- The libraries sign the tokens for the code of the answer, and the expiry has a time.
  pub record Signs (env : Readings) (req : AccessTokenRequest) (id_token access_token : String)
      (expires_at : SystemTime) : Type 0 where
    pub id_signed :
        issue_id_token j state.jwt_issuer env.at_id_token a.user.subject req.client_id
          (given x cbor u table state headers at_code at_sign params location a).groups
          params.nonce
          state.id_token_ttl
        ≡ ok id_token
    pub access_signed :
        issue_access_token j state.jwt_issuer env.at_access_token a.user.subject req.client_id
          (given x cbor u table state headers at_code at_sign params location a).groups
          (given x cbor u table state headers at_code at_sign params location a).scope
          (random_jti env.random)
          state.access_token_ttl
        ≡ ok access_token
    pub expiry : add_duration env.at_expiry state.access_token_ttl ≡ some expires_at

  -- On a store that keeps the trait's promises, where the libraries read back what they write: the
  -- client that comes with the code of an answer of `/authorize`, in time, with the same redirect URI,
  -- the verifier and its secret, while the code is not consumed, is granted tokens if they can be
  -- signed: the answer holds them, and the scope asked for, and the store holds the record of the
  -- user.
  pub login_completes :
      {S : Type 0} (t : TokenStore S) (consumed : S → String → Bool)
      (contract : Contract t consumed)
      (back : ReadsBack x cbor state.flow.hmac_key at_sign
        (given x cbor u table state headers at_code at_sign params location a))
      (env : Readings) (req : AccessTokenRequest)
      → req.code ≡ a.encoded
      → Redeems x cbor u table state headers at_code at_sign params location a env.at_verify req
      → (s : S) → consumed s (code_replay_key x req.code) ≡ false
      → (id_token access_token : String) (expires_at : SystemTime)
      → Signs env req id_token access_token expires_at
      → access_token_request x cbor j t state.flow (token_context state) env req s ≡ (
        t.issue
            (t.consume_code s (code_replay_key x req.code)).0
            (random_jti env.random)
            a.user.subject
            req.client_id
            (given x cbor u table state headers at_code at_sign params location a).scope
            (given x cbor u table state headers at_code at_sign params location a).groups
            expires_at,
        ok (record {
          access_token = access_token;
          token_type = "Bearer";
          expires_in = as_secs state.access_token_ttl;
          id_token = id_token;
          scope = some (
              join " "
                (given x cbor u table state headers at_code at_sign params location a).scope);
        }),
      )
  unfolding code_for
  login_completes t consumed contract back env req bears r s free id_token access_token expires_at
        signs =
      let code = given x cbor u table state headers at_code at_sign params location a in
      let checked =
        (redemption_iff x cbor u table state headers at_code at_sign params location a back
            env.at_verify req bears code).1
          (refl, r) in
      (access_token_request_iff x cbor j t state.flow (token_context state) env req s _ _).1
        (record {
          code = code;
          authorized =
              (check_request_iff x cbor j state.flow (token_context state) env.at_verify req code).0
                checked;
          first_use = contract.first_use s (code_replay_key x req.code) ∙ ap not free;
          issued = record {
            expires_at = expires_at;
            id_token = signs.id_signed;
            access_token = signs.access_signed;
            expiry = signs.expiry;
            stored = refl;
            token_type = refl;
            expires_in = refl;
            scope = refl;
          };
        })
