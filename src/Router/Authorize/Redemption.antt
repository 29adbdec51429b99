-- ===== src/Router/Authorize/Redemption.antt =====
-- The code that `/authorize` gives is the one that the token request redeems.
use openid_tls_connector.Common.{
  ℕ, ◌+◌, ◌≤◌, ◌<◌, String, ◌≡◌, sym, ap, ◌∙◌, ◌↔◌, List, some, ok, arith,
}
use openid_tls_connector.External.{Codec}
use openid_tls_connector.Url.{UrlLib}
use openid_tls_connector.Client.{find_by_id}
use openid_tls_connector.Client.Registry.{Authenticates}
use openid_tls_connector.Code.Timestamp.{SystemTime}
use openid_tls_connector.Code.AuthorizationCode.{AuthorizationCode}
use openid_tls_connector.Code.AuthorizationCode.Validation.{AnswersChallenge}
use openid_tls_connector.Code.Signature.{Cbor, decode_and_verify}
use openid_tls_connector.Code.Signature.Verify.{decode_and_verify_iff}
use openid_tls_connector.Code.Signature.RoundTrip.{ReadsBack, decode_and_verify-sign_and_encode}
use openid_tls_connector.Token.{JwtLib}
use openid_tls_connector.Protocol.{AccessTokenRequest, code_for, check_request}
use openid_tls_connector.Protocol.Checks.{IsAuthorized, check_request_iff}
use openid_tls_connector.Router.{AppState, AuthorizeParams, Headers, token_context}
use openid_tls_connector.Router.Authorize.Accepted.{request_for, IsAccepted}

module _ (x : Codec) (cbor : Cbor) (u : UrlLib) (table : ℕ → List ℕ) {j : JwtLib}
    (state : AppState j) (headers : Headers) (at_code at_sign : SystemTime)
    (params : AuthorizeParams) (location : String)
    (a : IsAccepted x cbor u table state headers at_code at_sign params location) where
  -- The code of the answer.
  abbrev pub given : AuthorizationCode
  given = code_for at_code (request_for x cbor u table state params a.method a.client a.user)

  -- What a token request must be to redeem the given code at a time.
  pub record Redeems (now : SystemTime) (req : AccessTokenRequest) : Type 0 where
    pub not_early : at_sign ≤ now
    pub not_late : now < at_sign + state.flow.code_max_age
    pub same_client : req.client_id ≡ params.client_id
    pub same_uri : req.redirect_uri ≡ params.redirect_uri
    pub answered : AnswersChallenge x a.method params.code_challenge req.code_verifier
    pub authenticated : Authenticates a.client req.client_secret

  -- A request that is authorized for the given code redeems it.
  pub authorized-Redeems :
      (now : SystemTime) (req : AccessTokenRequest) (code : AuthorizationCode)
      → IsAuthorized x cbor j state.flow (token_context state) now req code
      → code ≡ given
      → at_sign ≤ now
      → now < at_sign + state.flow.code_max_age
      → Redeems now req
  unfolding code_for
  authorized-Redeems now req code auth same early late =
      let same_client : req.client_id ≡ params.client_id =
        sym auth.same_client ∙ ap (λ (c : AuthorizationCode). c.client_id) same in
      let found : find_by_id state.clients params.client_id ≡ some auth.client =
        rw (sym same_client) auth.registered in
      let client : auth.client ≡ a.client = ground (arith, a.registered) in
      record {
        not_early = early;
        not_late = late;
        same_client = same_client;
        same_uri = sym auth.same_uri ∙ ap (λ (c : AuthorizationCode). c.redirect_uri) same;
        answered = rw same at auth.answered;
        authenticated = rw client at auth.authenticated;
      }

  module _ (back : ReadsBack x cbor state.flow.hmac_key at_sign given) (now : SystemTime)
      (req : AccessTokenRequest) (bears : req.code ≡ a.encoded) (code : AuthorizationCode) where
    decoded_iff :
        (decode_and_verify x cbor now req.code state.flow.hmac_key state.flow.code_max_age
          ≡ ok code)
        ↔ ((code ≡ given) × (at_sign ≤ now) × (now < at_sign + state.flow.code_max_age))
    decoded_iff =
        let (encoded, signed, verified) =
          decode_and_verify-sign_and_encode x cbor state.flow.hmac_key at_sign given back in
        let same : req.code ≡ encoded = ground (arith, a.signed) in
        let answer = verified now state.flow.code_max_age in (λ h. ground arith, λ h. ground arith)

    checked-Redeems :
        check_request x cbor j state.flow (token_context state) now req ≡ ok code
        → (code ≡ given) × Redeems now req
    checked-Redeems h =
        let auth = (check_request_iff x cbor j state.flow (token_context state) now req code).0 h in
        let (same, early, late) = decoded_iff.0 (
          (decode_and_verify_iff x cbor now req.code state.flow.hmac_key state.flow.code_max_age
              code).1
            auth.genuine) in
        (same, authorized-Redeems now req code auth same early late)

    Redeems-checked :
        (code ≡ given) × Redeems now req
        → check_request x cbor j state.flow (token_context state) now req ≡ ok code
    unfolding code_for
    Redeems-checked (same, r) =
        (check_request_iff x cbor j state.flow (token_context state) now req code).1 (record {
          genuine =
              (decode_and_verify_iff x cbor now req.code state.flow.hmac_key state.flow.code_max_age
                  code).0
                (decoded_iff.1 (same, r.not_early, r.not_late));
          same_client = ap (λ (c : AuthorizationCode). c.client_id) same ∙ sym r.same_client;
          same_uri = ap (λ (c : AuthorizationCode). c.redirect_uri) same ∙ sym r.same_uri;
          answered = rw same r.answered;
          client = a.client;
          registered = rw r.same_client a.registered;
          listed = rw r.same_uri a.listed;
          authenticated = r.authenticated;
        })

    -- Where the libraries read back what they write, a token request that bears the code of an answer
    -- of `/authorize` passes the checks, and is given the very code that the answer was for, exactly
    -- when it comes between the code's signing and its maximal age, from the same client and with the
    -- same redirect URI, answers the challenge, if the authorization request had one, and
    -- authenticates the client.
    pub redemption_iff :
        (check_request x cbor j state.flow (token_context state) now req ≡ ok code)
        ↔ ((code ≡ given) × Redeems now req)
    redemption_iff = (checked-Redeems, Redeems-checked)
