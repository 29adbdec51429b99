-- ===== src/Router.antt =====
-- src/oidc/router.rs: the HTTP handlers. A request's headers are given by what
-- `headers.get(name).and_then(|v| v.to_str().ok())` answers for each name.
pub mod Authorize
pub mod Credentials
pub mod Bearer
use Prim.Native.String.{◌++◌}
use openid_tls_connector.Common.{
  ℕ, String, Bool, true, false, not, List, [], ◌∷◌, Option, none, some, Result, ok, err, ◌>>=◌,
  map_err, ok_or, ◌==◌, if◌then◌else◌,
}
use openid_tls_connector.Common.Text.{trim, strip_prefix, split_once, split_whitespace}
use openid_tls_connector.External.{Bytes, Codec}
use openid_tls_connector.Url.{UrlLib}
use openid_tls_connector.Client.{ClientRegistry, find_by_id, validate_redirect_uri}
use openid_tls_connector.Code.Pkce.{CodeChallengeMethod, plain, s256}
use openid_tls_connector.Code.Timestamp.{SystemTime, Duration}
use openid_tls_connector.Code.Signature.{Cbor}
use openid_tls_connector.Storage.{TokenStore}
use openid_tls_connector.Token.{
  JwtLib, JwtIssuer, AccessTokenClaims, Jwks, verify_access_token, get_jwks,
}
use openid_tls_connector.Users.{User, UserManager, resolve, resolve_groups}
use openid_tls_connector.Users
use openid_tls_connector.Discovery.{OidcDiscovery, DiscoveryManager, get_discovery_info}
use openid_tls_connector.Protocol.{
  TokenResponse, AuthorizationRequest, AccessTokenRequest, TokenIssueContext, OidcAuthCodePkceFlow,
  Readings, Failure, error, panic, authorization_request, access_token_request,
}
use openid_tls_connector.Protocol.Errors.{
  OidcError, invalid_request, unauthorized_client, access_denied, invalid_client, server_error,
  temporarily_unavailable, error_code, error_text, response_type_from_str, grant_type_from_str,
}

-- The state that the handlers share; the token store is the state that they run on.
pub record AppState (j : JwtLib) : Type 0 where
  pub flow : OidcAuthCodePkceFlow
  pub jwt_issuer : JwtIssuer j
  pub clients : ClientRegistry
  pub user_manager : UserManager
  pub discovery_manager : DiscoveryManager
  pub user_header : String
  pub id_token_ttl : Duration
  pub access_token_ttl : Duration
  pub default_groups : List String

abbrev pub token_context : {j : JwtLib} → AppState j → TokenIssueContext j
token_context state = record {
  clients = state.clients;
  jwt_issuer = state.jwt_issuer;
  id_token_ttl = state.id_token_ttl;
  access_token_ttl = state.access_token_ttl;
}

pub record AuthorizeParams : Type 0 where
  pub response_type : String
  pub client_id : String
  pub redirect_uri : String
  pub scope : Option String
  pub state : Option String
  pub code_challenge : Option String
  pub code_challenge_method : Option String
  pub nonce : Option String

pub record TokenParams : Type 0 where
  pub grant_type : String
  pub code : String
  pub redirect_uri : String
  pub code_verifier : Option String
  pub client_id : Option String
  pub client_secret : Option String

pub record ErrorResponse : Type 0 where
  pub error : String
  pub error_description : Option String

unfoldable pub status_for_error : OidcError → ℕ
status_for_error (access_denied _) = 403
status_for_error (invalid_client _) = 401
status_for_error (server_error _) = 500
status_for_error (temporarily_unavailable _) = 503
status_for_error _ = 400

-- `IntoResponse` for an error: its status and its body.
unfoldable pub into_response : OidcError → ℕ × ErrorResponse
into_response e =
    (status_for_error e, record { error = error_code e; error_description = some (error_text e) })

pub data Method : Type 0 where
  get post : Method

pub data Handler : Type 0 where
  discovery authorize token userinfo jwks : Handler

abbrev pub oidc_router : List (String × Method × Handler)
oidc_router =
    ("/.well-known/openid-configuration", get, discovery)
    ∷ ("/authorize", get, authorize)
    ∷ ("/token", post, token)
    ∷ ("/userinfo", get, userinfo)
    ∷ ("/jwks", get, jwks)
    ∷ []

unfoldable pub discovery_handler : {j : JwtLib} → AppState j → OidcDiscovery
discovery_handler state = get_discovery_info state.discovery_manager

abbrev pub Headers : Type 0
Headers = String → Option String
