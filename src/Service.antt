-- ===== src/Service.antt =====
-- src/oidc/router.rs, `oidc_router`: the service as a whole. A request is what axum hands to a
-- handler, with the clock readings and random bytes that the handler meets; a response is what the
-- handler hands back.
pub mod Provenance
pub mod Authenticity
pub mod Statuses
pub mod Abstract
pub mod Expiry
pub mod Identity
pub mod Errors
use openid_tls_connector.Common.{ℕ, String, List, [], ◌∷◌, Option, Result, ok, err}
use openid_tls_connector.External.{Bytes, Codec}
use openid_tls_connector.Url.{UrlLib}
use openid_tls_connector.Code.Timestamp.{SystemTime}
use openid_tls_connector.Code.Signature.{Cbor}
use openid_tls_connector.Storage.{TokenStore}
use openid_tls_connector.Token.{JwtLib, Jwks}
use openid_tls_connector.Discovery.{OidcDiscovery}
use openid_tls_connector.Protocol.{TokenResponse, Readings, Failure, error, panic}
use openid_tls_connector.Router.{
  AppState, AuthorizeParams, TokenParams, ErrorResponse, Headers, into_response, discovery_handler,
}
use openid_tls_connector.Router.Authorize.{authorize_handler}
use openid_tls_connector.Router.Credentials.{token_handler}
use openid_tls_connector.Router.Bearer.{UserInfo, userinfo_handler, jwks_handler}

pub data Request : Type 0 where
  get_discovery get_jwks : Request
  get_authorize : Headers → SystemTime → SystemTime → AuthorizeParams → Request
  post_token : Headers → Readings → TokenParams → Request
  get_userinfo : Headers → SystemTime → Request

pub data Response : Type 0 where
  document : OidcDiscovery → Response
  keys : Jwks → Response
  -- A temporary redirect.
  redirect : String → Response
  tokens : TokenResponse → Response
  info : UserInfo → Response
  -- A status and its body.
  failure : ℕ × ErrorResponse → Response
  -- The handler panics, and the connection is closed.
  closed : Response

-- The answer of a handler that fails.
abbrev pub response_of_failure : Failure → Response
response_of_failure (error e) = failure (into_response e)
response_of_failure panic = closed

abbrev pub response_of {ℓ} : {A : Type ℓ} → (A → Response) → Result Failure A → Response
response_of f (ok a) = f a
response_of f (err e) = response_of_failure e

abbrev pub userinfo_response : Result (ℕ × ErrorResponse) UserInfo → Response
userinfo_response (ok i) = info i
userinfo_response (err e) = failure e

module _ (x : Codec) (cbor : Cbor) (u : UrlLib) (table : ℕ → List ℕ)
    (from_utf8 : Bytes → Option String) {j : JwtLib} {S : Type 0} (t : TokenStore S)
    (state : AppState j) where
  unfoldable pub handle : Request → S → S × Response
  handle get_discovery s = (s, document (discovery_handler state))
  handle get_jwks s = (s, keys (jwks_handler state))
  handle (get_authorize headers at_code at_sign params) s = (
    s,
    response_of redirect (authorize_handler x cbor u table state headers at_code at_sign params),
  )
  handle (post_token headers env params) s =
      let (s', answer) = token_handler x from_utf8 cbor t state headers env params s in
      (s', response_of tokens answer)
  handle (get_userinfo headers now) s =
      (s, userinfo_response (userinfo_handler t state now headers s))

  -- The store after requests, served one after the other.
  unfoldable pub serve_all : List Request → S → S
  unfolding handle
  serve_all [] s = s
  serve_all (q ∷ qs) s = serve_all qs (handle q s).0
