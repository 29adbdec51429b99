-- ===== src/Router/Bearer.antt =====
-- src/oidc/router.rs: the handlers of `/userinfo` and `/jwks`.
pub mod Lifecycle
use openid_tls_connector.Common.{ℕ, String, List, some, Result, ok, ◌>>=◌, map_err, ok_or}
use openid_tls_connector.Common.Text.{strip_prefix}
use openid_tls_connector.Code.Timestamp.{SystemTime}
use openid_tls_connector.Storage.{TokenStore}
use openid_tls_connector.Token.{JwtLib, AccessTokenClaims, Jwks, verify_access_token, get_jwks}
use openid_tls_connector.Users
use openid_tls_connector.Router.{AppState, ErrorResponse, Headers}

-- The body of the answer of `/userinfo`.
pub record UserInfo : Type 0 where
  pub sub : String
  pub groups : List String
  pub scope : List String
  pub client_id : String

-- `unauthenticated_error`: status 401, and this body.
unfoldable pub unauthenticated_error : String → ℕ × ErrorResponse
unauthenticated_error description =
    (401, record { error = "invalid_token"; error_description = some description })

module _ {j : JwtLib} where
  unfoldable pub verify_bearer_token :
      AppState j → SystemTime → Headers → Result (ℕ × ErrorResponse) AccessTokenClaims
  verify_bearer_token state now headers = do
    auth_header ←
        ok_or (headers "authorization") (unauthenticated_error "Missing Authorization header")
    bearer ←
        ok_or (strip_prefix "Bearer " auth_header)
          (unauthenticated_error "Authorization header must use Bearer scheme")
    map_err (λ e. unauthenticated_error "Invalid or expired access token")
        (verify_access_token j state.jwt_issuer now bearer)

  unfoldable pub userinfo_handler :
      {S : Type 0}
      → TokenStore S
      → AppState j
      → SystemTime
      → Headers
      → S
      → Result (ℕ × ErrorResponse) UserInfo
  userinfo_handler t state now headers s = do
    claims ← verify_bearer_token state now headers
    found ←
        ok_or (t.lookup s claims.jti) (unauthenticated_error "Token has been revoked or is unknown")
    ok (record {
      sub = found.subject;
      groups = found.groups;
      scope = found.scope;
      client_id = found.client_id;
    })

  unfoldable pub jwks_handler : AppState j → Jwks
  jwks_handler state = get_jwks j state.jwt_issuer
