-- ===== src/Service/Authenticity.antt =====
-- From `/authorize` to `/userinfo`: whom the service speaks of.
use mathlib.Core.List.{Memᴰ}
use openid_tls_connector.Common.{
  ℕ, String, ◌≡◌, sym, ap, ◌∙◌, inl, inr, Bool, List, [], ◌∷◌, Option, none, some, ok, arith,
}
use openid_tls_connector.External.{Bytes, Codec}
use openid_tls_connector.Url.{UrlLib}
use openid_tls_connector.Code.AuthorizationCode.{AuthorizationCode}
use openid_tls_connector.Code.Signature.{Cbor, SignedAuthorizationCode}
use openid_tls_connector.Code.Timestamp.{SystemTime, TimestampedContainer}
use openid_tls_connector.Storage.{TokenStore, TokenRecord}
use openid_tls_connector.Storage.Contract.{Contract}
use openid_tls_connector.Token.{JwtLib}
use openid_tls_connector.Protocol.{Readings, code_for}
use openid_tls_connector.Router.{AppState, AuthorizeParams, TokenParams, Headers}
use openid_tls_connector.Router.Authorize.Accepted.{IsAccepted}
use openid_tls_connector.Router.Authorize.Redemption.{given}
use openid_tls_connector.Router.Authorize.{scope_list}
use openid_tls_connector.Users.{resolve, resolve_groups}
use openid_tls_connector.Router.Bearer.{UserInfo}
use openid_tls_connector.Service.{
  Request, get_discovery, get_jwks, get_authorize, post_token, get_userinfo, info, handle,
  serve_all,
}
use openid_tls_connector.Service.Provenance.{Issued, WasIssued, userinfo_provenance}

module _ (x : Codec) (cbor : Cbor) (u : UrlLib) (table : ℕ → List ℕ)
    (from_utf8 : Bytes → Option String) {j : JwtLib} (state : AppState j) where
  -- An authorization request of the history that was answered with a code.
  pub record Login (history : List Request) : Type 0 where
    pub headers : Headers
    pub at_code : SystemTime
    pub at_sign : SystemTime
    pub params : AuthorizeParams
    pub location : String
    pub asked : Memᴰ (get_authorize headers at_code at_sign params) history
    pub accepted : IsAccepted x cbor u table state headers at_code at_sign params location

  abbrev pub container_of :
      {history : List Request} → Login history → TimestampedContainer AuthorizationCode
  container_of l = record {
    content =
        given x cbor u table state l.headers l.at_code l.at_sign l.params l.location l.accepted;
    timestamp = l.at_sign;
  }

  -- No signature is forged: what a token request bears, if its signature is the key's for its content,
  -- is content that the service signed for an authorization request of the history.
  abbrev pub Unforged : List Request → List Request → Type 0
  Unforged history [] = Unit
  Unforged history (post_token headers env params ∷ qs) =
      ((serialized : Bytes) (signed_code : SignedAuthorizationCode)
        → x.base64_url_decode params.code ≡ ok serialized
        → cbor.read_signed serialized ≡ ok signed_code
        → signed_code.signature ≡ x.blake3_keyed_hash state.flow.hmac_key signed_code.content
        → (l : Login history) × (cbor.write_container (container_of l) ≡ some signed_code.content))
      × Unforged history qs
  Unforged history (get_discovery ∷ qs) = Unforged history qs
  Unforged history (get_jwks ∷ qs) = Unforged history qs
  Unforged history (get_authorize headers at_code at_sign params ∷ qs) = Unforged history qs
  Unforged history (get_userinfo headers now ∷ qs) = Unforged history qs

  -- CBOR reads back what it wrote.
  abbrev pub ReadsContainers : Type 0
  ReadsContainers =
      (c : TimestampedContainer AuthorizationCode) (bytes : Bytes)
      → cbor.write_container c ≡ some bytes
      → cbor.read_container bytes ≡ ok c

  -- The record says what the login was for.
  pub record Describes (history : List Request) (found : TokenRecord) : Type 0 where
    pub login : Login history
    pub subject : found.subject ≡ login.accepted.user.subject
    pub client_id : found.client_id ≡ login.params.client_id
    pub content :
        (found.groups ≡ (container_of login).content.groups)
        × (found.scope ≡ (container_of login).content.scope)

  Issued-Describes :
      ReadsContainers
      → (history : List Request) (headers : Headers) (env : Readings) (params : TokenParams)
        (qs : List Request) (jti : String) (found : TokenRecord)
      → Unforged history (post_token headers env params ∷ qs)
      → Issued x cbor from_utf8 state headers env params jti found
      → Describes history found
  unfolding code_for
  Issued-Describes reads history headers env params qs jti found (unforged, _) i =
      let g = i.authorized.genuine in
      let (login, written) =
        unforged g.serialized g.signed_code (rw (sym i.made.code) g.decoded) g.parsed g.authentic in
      let back : g.container ≡ container_of login =
        ground (arith, reads (container_of login) g.signed_code.content, g.opened) in
      let code : i.code ≡ (container_of login).content =
        sym g.holds ∙ ap (λ (c : TimestampedContainer AuthorizationCode). c.content) back in
      record {
        login = login;
        subject = i.subject ∙ ap (λ (c : AuthorizationCode). c.subject) code;
        client_id = i.client_id ∙ ap (λ (c : AuthorizationCode). c.client_id) code;
        content = (
          i.groups ∙ ap (λ (c : AuthorizationCode). c.groups) code,
          i.scope ∙ ap (λ (c : AuthorizationCode). c.scope) code,
        );
      }

  WasIssued-Describes :
      ReadsContainers
      → (history qs : List Request) (jti : String) (found : TokenRecord) → Unforged history qs
      → WasIssued x cbor from_utf8 state qs jti found
      → Describes history found
  WasIssued-Describes reads history [] jti found w h = elim h [ ]
  WasIssued-Describes reads history (get_discovery ∷ qs) jti found w h =
      WasIssued-Describes reads history qs jti found w h
  WasIssued-Describes reads history (get_jwks ∷ qs) jti found w h =
      WasIssued-Describes reads history qs jti found w h
  WasIssued-Describes reads history (get_authorize headers at_code at_sign params ∷ qs) jti found w
        h =
      WasIssued-Describes reads history qs jti found w h
  WasIssued-Describes reads history (get_userinfo headers now ∷ qs) jti found w h =
      WasIssued-Describes reads history qs jti found w h
  WasIssued-Describes reads history (post_token headers env params ∷ qs) jti found w (inl i) =
      Issued-Describes reads history headers env params qs jti found w i
  WasIssued-Describes reads history (post_token headers env params ∷ qs) jti found w (inr h) =
      WasIssued-Describes reads history qs jti found w.1 h

  -- On a store that keeps the trait's promises and has no token at first, where CBOR reads back what
  -- it wrote and no token request of the history bears a forged signature: whenever `/userinfo`
  -- answers, some authorization request of the history, from the client of the answer, was accepted
  -- with a certificate header that resolves to the subject of the answer, and the groups and scope
  -- are those that were put into its code.
  pub userinfo_authentic :
      {S : Type 0} (t : TokenStore S) (consumed : S → String → Bool)
      (contract : Contract t consumed)
      → ReadsContainers
      → (qs : List Request) → Unforged qs qs
      → (s : S) → ((jti : String) → t.lookup s jti ≡ none)
      → (headers : Headers) (now : SystemTime) (answer : UserInfo)
      → (handle x cbor u table from_utf8 t state
          (get_userinfo headers now)
          (serve_all x cbor u table from_utf8 t state qs s)).1
        ≡ info answer
      → (l : Login qs) × (resolve table state.user_manager l.accepted.header_value
          ≡ some (ok l.accepted.user))
        × (answer.sub ≡ l.accepted.user.subject)
        × (answer.client_id ≡ l.params.client_id)
        × (answer.groups ≡ resolve_groups l.accepted.client.groups state.default_groups)
        × (answer.scope ≡ scope_list l.params.scope)
  unfolding code_for
  userinfo_authentic t consumed contract reads qs unforged s empty headers now answer h =
      let (claims, found, bears, issued, shown) =
        userinfo_provenance x cbor u table from_utf8 t consumed contract state qs s empty headers
          now answer h in
      let d = WasIssued-Describes reads qs qs claims.jti found unforged issued in
      (
        d.login,
        d.login.accepted.identified,
        ap (λ (i : UserInfo). i.sub) shown ∙ d.subject,
        ap (λ (i : UserInfo). i.client_id) shown ∙ d.client_id,
        ap (λ (i : UserInfo). i.groups) shown ∙ d.content.0,
        ap (λ (i : UserInfo). i.scope) shown ∙ d.content.1,
      )
