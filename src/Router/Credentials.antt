-- ===== src/Router/Credentials.antt =====
-- src/oidc/router.rs: `parse_basic_auth` and `token_handler`.
pub mod Basic
pub mod Requests
pub mod Granted
pub mod Fallback
use openid_tls_connector.Common.{String, Option, none, some, Result, ok, err, ◌>>=◌, ok_or}
use openid_tls_connector.Common.Text.{trim, strip_prefix, split_once}
use openid_tls_connector.External.{Bytes, Codec}
use openid_tls_connector.Code.Signature.{Cbor}
use openid_tls_connector.Storage.{TokenStore}
use openid_tls_connector.Token.{JwtLib}
use openid_tls_connector.Users
use openid_tls_connector.Protocol.{
  TokenResponse, AccessTokenRequest, Readings, Failure, error, access_token_request,
}
use openid_tls_connector.Protocol.Errors.{OidcError, invalid_request, grant_type_from_str}
use openid_tls_connector.Router.{AppState, token_context, TokenParams, Headers}

-- `Option::or`
abbrev pub or_else : Option String → Option String → Option String
or_else none b = b
or_else (some a) b = some a

-- `parse_basic_auth`, `from_utf8` being the standard library's.
module _ (x : Codec) (from_utf8 : Bytes → Option String) where
  -- From the header's text on.
  unfoldable pub basic_credentials : String → Option (String × String)
  basic_credentials encoded = elim (x.base64_standard_decode encoded) [
    | err e ↦ none
    | ok decoded ↦ elim (from_utf8 decoded) [
      | none ↦ none
      | some decoded_str ↦ split_once b':' decoded_str
    ]
  ]

  unfoldable pub basic_payload : String → Option String
  basic_payload header = elim (strip_prefix "Basic " header) [
    | some e ↦ some (trim e)
    | none ↦ elim (strip_prefix "basic " header) [ some e ↦ some (trim e) | none ↦ none ]
  ]

  unfoldable pub parse_basic_auth : Headers → Option String × Option String
  parse_basic_auth headers = elim (headers "authorization") [
    | none ↦ (none, none)
    | some header ↦ elim (basic_payload header) [
      | none ↦ (none, none)
      | some encoded ↦ elim (basic_credentials encoded) [
        | none ↦ (none, none)
        | some (id, secret) ↦ (some id, some secret)
      ]
    ]
  ]

  -- The request that `token_handler` makes of its parameters and headers.
  unfoldable pub token_request : Headers → TokenParams → Result OidcError AccessTokenRequest
  token_request headers params = do
    grant_type ← grant_type_from_str params.grant_type
    let credentials = parse_basic_auth headers
    client_id ← ok_or (or_else credentials.0 params.client_id) (invalid_request "Missing client_id")
    ok (record {
      grant_type = grant_type;
      client_id = client_id;
      client_secret = or_else credentials.1 params.client_secret;
      code = params.code;
      redirect_uri = params.redirect_uri;
      code_verifier = params.code_verifier;
    })

  module _ (cbor : Cbor) {j : JwtLib} {S : Type 0} (t : TokenStore S) where
    unfoldable pub token_handler :
        AppState j → Headers → Readings → TokenParams → S → S × Result Failure TokenResponse
    token_handler state headers env params s = elim (token_request headers params) [
      | err e ↦ (s, err (error e))
      | ok req ↦ access_token_request x cbor j t state.flow (token_context state) env req s
    ]
