-- ===== src/Service/Expiry.antt =====
-- Until when `/userinfo` answers.
use Prim.Native.String
use mathlib.Core.List.{Memᴰ}
use openid_tls_connector.Common.{
  ℕ, ◌+◌, ◌≤◌, String, ◌≡◌, refl, sym, ap, ◌∙◌, inl, inr, Bool, List, [], ◌∷◌, Option, none, some,
  ok, map_err-eq-ok,
}
use openid_tls_connector.External.{Bytes, Codec}
use openid_tls_connector.Url.{UrlLib}
use openid_tls_connector.Code.Signature.{Cbor}
use openid_tls_connector.Code.Timestamp.{SystemTime}
use openid_tls_connector.Storage.{TokenStore, TokenRecord}
use openid_tls_connector.Storage.Contract.{Contract}
use openid_tls_connector.Token.{
  JwtLib, AccessTokenClaims, Validation, access_token_claims, now_secs, as_secs, add_u64,
  verify_access_token, issue_access_token, validation_for, jwt, Header,
}
use openid_tls_connector.Protocol.{Readings}
use openid_tls_connector.Protocol.Jti.{random_jti}
use openid_tls_connector.Router.{AppState, TokenParams, Headers}
use openid_tls_connector.Router.Bearer.{UserInfo}
use openid_tls_connector.Service.{
  Request, get_discovery, get_jwks, get_authorize, post_token, get_userinfo, info, handle,
  serve_all,
}
use openid_tls_connector.Service.Provenance.{Issued, WasIssued, userinfo_provenance}

-- What `jsonwebtoken` documents of a token that it decodes: its expiry is not past by more than the
-- leeway.
abbrev pub ChecksExpiry : (j : JwtLib) → j.DecodingKey → Type 0
ChecksExpiry j dk =
    (clock : SystemTime) (token : String) (v : Validation) (c : AccessTokenClaims)
    → j.decode_access clock token dk v ≡ ok c
    → now_secs clock ≤ c.exp + v.leeway

-- What `jsonwebtoken` documents of a token that it signed: where it is decoded, it is to its claims.
abbrev pub DecodesSigned : (j : JwtLib) → j.EncodingKey → j.DecodingKey → Type 0
DecodesSigned j ek dk =
    (h : Header) (c c' : AccessTokenClaims) (token : String) (clock : SystemTime) (v : Validation)
    → j.encode_access h c ek ≡ ok token
    → j.decode_access clock token dk v ≡ ok c'
    → c' ≡ c

module _ {j : JwtLib} (state : AppState j) where
  -- The token is one that the service signs for a token request of the history.
  pub record SignedIn (history : List Request) (token : String) : Type 0 where
    pub headers : Headers
    pub env : Readings
    pub params : TokenParams
    pub asked : Memᴰ (post_token headers env params) history
    pub subject : String
    pub client_id : String
    pub groups : List String
    pub scope : List String
    pub signed :
        issue_access_token j state.jwt_issuer env.at_access_token subject client_id groups scope
          (random_jti env.random)
          state.access_token_ttl
        ≡ ok token

  -- The request bears no forged token: if what it bears verifies, it was signed in the history.
  abbrev pub UnforgedBearer : List Request → Headers → SystemTime → Type 0
  UnforgedBearer history headers now =
      (token : String) (claims : AccessTokenClaims)
      → headers "authorization" ≡ some (String.◌++◌ "Bearer " token)
      → verify_access_token j state.jwt_issuer now token ≡ ok claims
      → SignedIn history token

-- The random bytes of a history do not repeat: requests that draw the same identifier are one.
abbrev pub FreshIdentifiers : List Request → Type 0
FreshIdentifiers history =
    (headers headers' : Headers) (env env' : Readings) (params params' : TokenParams)
    → Memᴰ (post_token headers env params) history
    → Memᴰ (post_token headers' env' params') history
    → random_jti env.random ≡ random_jti env'.random
    → post_token headers env params ≡ post_token headers' env' params'

module _ (x : Codec) (cbor : Cbor) (u : UrlLib) (table : ℕ → List ℕ)
    (from_utf8 : Bytes → Option String) {j : JwtLib} (state : AppState j) where
  -- A request of the history that issued the record.
  pub record Origin (history : List Request) (jti : String) (found : TokenRecord) : Type 0 where
    pub headers : Headers
    pub env : Readings
    pub params : TokenParams
    pub asked : Memᴰ (post_token headers env params) history
    pub issued : Issued x cbor from_utf8 state headers env params jti found

  Origin-cons :
      (q : Request) (qs : List Request) (jti : String) (found : TokenRecord)
      → Origin qs jti found
      → Origin (q ∷ qs) jti found
  Origin-cons q qs jti found o = record {
    headers = o.headers;
    env = o.env;
    params = o.params;
    asked = Memᴰ.tail o.asked;
    issued = o.issued;
  }

  WasIssued-Origin :
      (qs : List Request) (jti : String) (found : TokenRecord)
      → WasIssued x cbor from_utf8 state qs jti found
      → Origin qs jti found
  WasIssued-Origin [] jti found h = elim h [ ]
  WasIssued-Origin (get_discovery ∷ qs) jti found h =
      Origin-cons _ qs jti found (WasIssued-Origin qs jti found h)
  WasIssued-Origin (get_jwks ∷ qs) jti found h =
      Origin-cons _ qs jti found (WasIssued-Origin qs jti found h)
  WasIssued-Origin (get_authorize headers at_code at_sign params ∷ qs) jti found h =
      Origin-cons _ qs jti found (WasIssued-Origin qs jti found h)
  WasIssued-Origin (get_userinfo headers now ∷ qs) jti found h =
      Origin-cons _ qs jti found (WasIssued-Origin qs jti found h)
  WasIssued-Origin (post_token headers env params ∷ qs) jti found (inr h) =
      Origin-cons _ qs jti found (WasIssued-Origin qs jti found h)
  WasIssued-Origin (post_token headers env params ∷ qs) jti found (inl i) = record {
    headers = headers;
    env = env;
    params = params;
    asked = Memᴰ.head refl;
    issued = i;
  }

  -- On a store that keeps the trait's promises and has no token at first, where the token library
  -- checks the expiry and decodes what it signed to its claims, and no identifier is drawn twice:
  -- whenever `/userinfo` answers a request that bears no forged token, the record that it answers
  -- from was issued by a token request of the history, and the time, in whole seconds, is at most
  -- five past the 64-bit sum of the time at which that request signed its access token and the
  -- lifetime of access tokens.
  pub userinfo_expires :
      {S : Type 0} (t : TokenStore S) (consumed : S → String → Bool)
      (contract : Contract t consumed)
      → ChecksExpiry j state.jwt_issuer.decoding_key
      → DecodesSigned j state.jwt_issuer.encoding_key state.jwt_issuer.decoding_key
      → (qs : List Request) → FreshIdentifiers qs
      → (s : S) → ((jti : String) → t.lookup s jti ≡ none)
      → (headers : Headers) (now : SystemTime) → UnforgedBearer state qs headers now
      → (answer : UserInfo)
      → (handle x cbor u table from_utf8 t state
          (get_userinfo headers now)
          (serve_all x cbor u table from_utf8 t state qs s)).1
        ≡ info answer
      → (jti : String) × (found : TokenRecord) × (o : Origin qs jti found) × (answer ≡ record {
        sub = found.subject;
        groups = found.groups;
        scope = found.scope;
        client_id = found.client_id;
      })
        × (now_secs now
            ≤ add_u64 (now_secs o.env.at_access_token) (as_secs state.access_token_ttl) + 5)
  unfolding verify_access_token issue_access_token access_token_claims
  userinfo_expires t consumed contract checks decodes qs fresh s empty headers now unforged answer
        h =
      let (claims, found, bears, issued, shown) =
        userinfo_provenance x cbor u table from_utf8 t consumed contract state qs s empty headers
          now answer h in
      let o = WasIssued-Origin qs claims.jti found issued in
      let signed = unforged bears.0 claims bears.1 bears.2 in
      let content =
        decodes _ _ claims bears.0 now _ (map_err-eq-ok jwt _ signed.signed)
          (map_err-eq-ok jwt _ bears.2) in
      let jti : claims.jti ≡ random_jti signed.env.random =
        ap (λ (c : AccessTokenClaims). c.jti) content in
      let one =
        fresh signed.headers o.headers signed.env o.env signed.params o.params signed.asked o.asked
          (sym jti ∙ o.issued.identifier) in
      let same : signed.env ≡ o.env = cc in
      let exp : claims.exp
          ≡ add_u64 (now_secs o.env.at_access_token) (as_secs state.access_token_ttl) =
        ap (λ (c : AccessTokenClaims). c.exp) content
        ∙ ap
            (λ (e : Readings).
              add_u64 (now_secs e.at_access_token) (as_secs state.access_token_ttl))
            same in
      let bound =
        checks now bears.0 (validation_for j state.jwt_issuer state.jwt_issuer.issuer) claims
          (map_err-eq-ok jwt _ bears.2) in
      (claims.jti, found, o, shown, rw exp at bound)
