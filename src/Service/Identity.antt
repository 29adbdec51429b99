-- ===== src/Service/Identity.antt =====
-- Whom the identity tokens of `/token` speak of.
use openid_tls_connector.Common.{
  ℕ, ◌+◌, ◌≤◌, String, ◌≡◌, sym, ap, ◌∙◌, List, [], ◌∷◌, Option, some, Result, ok, err, arith,
}
use openid_tls_connector.External.{Bytes, Codec}
use openid_tls_connector.Url.{UrlLib}
use openid_tls_connector.Users.{resolve}
use openid_tls_connector.Code.AuthorizationCode.{AuthorizationCode}
use openid_tls_connector.Code.Signature.{Cbor}
use openid_tls_connector.Code.Timestamp.{SystemTime, TimestampedContainer}
use openid_tls_connector.Storage.{TokenStore}
use openid_tls_connector.Token.{JwtLib, verify_id_token, now_secs, as_secs, add_u64}
use openid_tls_connector.Token.RoundTrip.{IsKeyPair}
use openid_tls_connector.Protocol.{
  AccessTokenRequest, TokenResponse, Readings, Failure, error, panic,
}
use openid_tls_connector.Protocol.Checks.{IsAuthorized}
use openid_tls_connector.Router.{AppState, TokenParams, Headers, token_context}
use openid_tls_connector.Router.Authorize.Identity.{identity, granted_identity}
use openid_tls_connector.Router.Authorize.Redemption.{given, Redeems, authorized-Redeems}
use openid_tls_connector.Router.Credentials.{token_handler}
use openid_tls_connector.Router.Credentials.Granted.{token_handler_iff}
use openid_tls_connector.Router.Credentials.Requests.{IsRequestOf}
use openid_tls_connector.Service.{Request, post_token, tokens, response_of, handle}
use openid_tls_connector.Service.Authenticity.{Login, container_of, Unforged, ReadsContainers}

response_of-tokens :
    (answer : Result Failure TokenResponse) (response : TokenResponse)
    → response_of tokens answer ≡ tokens response
    → answer ≡ ok response
response_of-tokens (ok r) response h = ground arith
response_of-tokens (err (error e)) response h = cc
response_of-tokens (err panic) response h = cc

module _ (x : Codec) (cbor : Cbor) (u : UrlLib) (table : ℕ → List ℕ)
    (from_utf8 : Bytes → Option String) {j : JwtLib} (state : AppState j) where
  -- The code that an unforged request is authorized for is that of a login, and is redeemed in time.
  pub record IsFrom (history : List Request) (env : Readings) (req : AccessTokenRequest)
      (code : AuthorizationCode) : Type 0 where
    pub login : Login x cbor u table from_utf8 state history
    pub same :
        code
        ≡ given x cbor u table state login.headers login.at_code login.at_sign login.params
            login.location login.accepted
    pub redeems :
        Redeems x cbor u table state login.headers login.at_code login.at_sign login.params
          login.location login.accepted env.at_verify req

  authorized-IsFrom :
      ReadsContainers x cbor u table from_utf8 state
      → (history : List Request) (headers : Headers) (env : Readings) (params : TokenParams)
        (req : AccessTokenRequest) (code : AuthorizationCode)
      → Unforged x cbor u table from_utf8 state history (post_token headers env params ∷ [])
      → req.code ≡ params.code
      → IsAuthorized x cbor j state.flow (token_context state) env.at_verify req code
      → IsFrom history env req code
  authorized-IsFrom reads history headers env params req code (unforged, _) bears auth =
      let g = auth.genuine in
      let (login, written) =
        unforged g.serialized g.signed_code (rw (sym bears) g.decoded) g.parsed g.authentic in
      let back : g.container ≡ container_of x cbor u table from_utf8 state login = ground (
        arith,
        reads (container_of x cbor u table from_utf8 state login) g.signed_code.content,
        g.opened,
      ) in
      let same =
        sym g.holds ∙ ap (λ (c : TimestampedContainer AuthorizationCode). c.content) back in
      record {
        login = login;
        same = same;
        redeems =
            authorized-Redeems x cbor u table state login.headers login.at_code login.at_sign
              login.params login.location login.accepted env.at_verify req code auth same
              (rw back at g.not_early) (rw back at g.not_late);
      }

  -- With keys that are a pair, where CBOR reads back what it wrote and the token request does not bear
  -- a forged signature: whenever `/token` answers with tokens, on any store, some authorization
  -- request of the history was answered with a code that this request redeems: it comes in time, from
  -- the same client, which authenticates, with the same redirect URI, and answers the challenge; and
  -- the identity token verifies for that client, until five seconds past its expiry, as the issuer's
  -- statement of the user to whom the certificate header of the authorization request resolves, with
  -- the nonce of that request and the client's groups with the default ones.
  pub token_authentic :
      {S : Type 0} (t : TokenStore S)
      → IsKeyPair j state.jwt_issuer.encoding_key state.jwt_issuer.decoding_key
      → ReadsContainers x cbor u table from_utf8 state
      → (history : List Request) (headers : Headers) (env : Readings) (params : TokenParams)
      → Unforged x cbor u table from_utf8 state history (post_token headers env params ∷ [])
      → (s : S) (response : TokenResponse)
      → (handle x cbor u table from_utf8 t state (post_token headers env params) s).1
        ≡ tokens response
      → (later : SystemTime)
      → now_secs later ≤ add_u64 (now_secs env.at_id_token) (as_secs state.id_token_ttl) + 5
      → (l : Login x cbor u table from_utf8 state history) × (req : AccessTokenRequest)
        × IsRequestOf x from_utf8 headers params req
        × Redeems x cbor u table state l.headers l.at_code l.at_sign l.params l.location l.accepted
            env.at_verify req
        × (resolve table state.user_manager l.accepted.header_value ≡ some (ok l.accepted.user))
        × (verify_id_token j state.jwt_issuer later response.id_token l.params.client_id
            ≡ ok (
                identity x cbor u table state l.headers l.at_code l.at_sign l.params l.location
                  l.accepted env))
  unfolding handle
  token_authentic t keys reads history headers env params unforged s response h later soon =
      let answered : token_handler x from_utf8 cbor t state headers env params s
          ≡ ((token_handler x from_utf8 cbor t state headers env params s).0, ok response) =
        ap (λ r. ((token_handler x from_utf8 cbor t state headers env params s).0, r))
          (response_of-tokens _ response h) in
      let (req, made, g) =
        (token_handler_iff x from_utf8 cbor t state headers env params s _ response).0 answered in
      let from =
        authorized-IsFrom reads history headers env params req g.code unforged made.code
          g.authorized in
      let l = from.login in
      (
        l,
        req,
        made,
        from.redeems,
        l.accepted.identified,
        granted_identity x cbor u table state l.headers l.at_code l.at_sign l.params l.location
            l.accepted t keys env req s _ response g from.same from.redeems.same_client later soon,
      )
