-- ===== src/Protocol/Errors.antt =====
-- The errors of src/oidc/protocol.rs, their codes, and the texts that requests are parsed from.
use Prim.Native.String.{◌++◌}
use openid_tls_connector.Common.{String, Result, ok, err, ◌==◌, if◌then◌else◌}
use openid_tls_connector.Code.AuthorizationCode.{TokenRequestError}
use openid_tls_connector.Code.AuthorizationCode
use openid_tls_connector.Code.Signature.{
  AuthorizationCodeVerificationError, invalid_timestamp, invalid_signature, invalid_base64_encoding,
  invalid_signed_data_container_encoding,
}

pub data OidcError : Type 0 where
  invalid_request unauthorized_client access_denied : String → OidcError
  unsupported_response_type invalid_scope invalid_grant : String → OidcError
  invalid_client server_error temporarily_unavailable : String → OidcError

unfoldable pub error_code : OidcError → String
error_code (invalid_request _) = "invalid_request"
error_code (unauthorized_client _) = "unauthorized_client"
error_code (access_denied _) = "access_denied"
error_code (unsupported_response_type _) = "unsupported_response_type"
error_code (invalid_scope _) = "invalid_scope"
error_code (invalid_grant _) = "invalid_grant"
error_code (invalid_client _) = "invalid_client"
error_code (server_error _) = "server_error"
error_code (temporarily_unavailable _) = "temporarily_unavailable"

-- The `#[error]` texts.
unfoldable pub error_text : OidcError → String
error_text (invalid_request e) =
    "The request is missing a required parameter, includes an invalid parameter value, includes a parameter more than once, or is otherwise malformed: "
    ++ e
error_text (unauthorized_client e) =
    "The client is not authorized to request an authorization code using this method: " ++ e
error_text (access_denied e) =
    "The resource owner or authorization server denied the request: " ++ e
error_text (unsupported_response_type e) =
    "The authorization server does not support obtaining an authorization code using this method: "
    ++ e
error_text (invalid_scope e) = "The requested scope is invalid, unknown, or malformed: " ++ e
error_text (invalid_grant e) =
    "The provided authorization grant or refresh token is invalid, expired, revoked, or was issued to another client: "
    ++ e
error_text (invalid_client e) = "Client authentication failed: " ++ e
error_text (server_error e) =
    "The authorization server encountered an unexpected condition that prevented it from fulfilling the request: "
    ++ e
error_text (temporarily_unavailable e) =
    "The authorization server is currently unable to handle the request due to temporary overloading or maintenance: "
    ++ e

pub data ResponseType : Type 0 where
  code : ResponseType

unfoldable pub response_type_from_str : String → Result OidcError ResponseType
response_type_from_str s =
    if s == "code"
    then ok code
    else err (unsupported_response_type ("Unsupported response_type: " ++ s))

pub data GrantType : Type 0 where
  authorization_code : GrantType

unfoldable pub grant_type_from_str : String → Result OidcError GrantType
grant_type_from_str s =
    if s == "authorization_code"
    then ok authorization_code
    else err (invalid_request ("Unsupported grant_type: " ++ s))

unfoldable pub map_code_verification_error : AuthorizationCodeVerificationError → OidcError
map_code_verification_error (invalid_timestamp _) = invalid_grant "Authorization code has expired"
map_code_verification_error invalid_signature = invalid_grant "Authorization code is invalid"
map_code_verification_error (invalid_base64_encoding _) =
    invalid_grant "Authorization code is malformed"
map_code_verification_error (invalid_signed_data_container_encoding _) =
    invalid_grant "Authorization code is malformed"

unfoldable pub map_token_request_error : TokenRequestError → OidcError
map_token_request_error e = invalid_grant (AuthorizationCode.error_text e)
