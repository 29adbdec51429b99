-- ===== src/Router/Authorize.antt =====
-- src/oidc/router.rs: `authorize_handler`.
pub mod Steps
pub mod Accepted
pub mod Redemption
pub mod Login
pub mod Identity
use Prim.Native.String.{◌++◌}
use openid_tls_connector.Common.{
  ℕ, String, Bool, List, [], Option, none, some, Result, ok, err, ◌>>=◌, map_err, ok_or, ◌==◌,
  if◌then◌else◌,
}
use openid_tls_connector.Common.Text.{split_whitespace}
use openid_tls_connector.External.{Codec}
use openid_tls_connector.Url.{UrlLib}
use openid_tls_connector.Client.{find_by_id, validate_redirect_uri}
use openid_tls_connector.Code.Pkce.{CodeChallengeMethod, plain, s256}
use openid_tls_connector.Code.Timestamp.{SystemTime}
use openid_tls_connector.Code.Signature.{Cbor}
use openid_tls_connector.Token.{JwtLib}
use openid_tls_connector.Users.{User, UserManager, resolve, resolve_groups}
use openid_tls_connector.Users
use openid_tls_connector.Protocol.{
  AuthorizationRequest, Failure, error, panic, authorization_request,
}
use openid_tls_connector.Protocol.Errors.{
  OidcError, invalid_request, unauthorized_client, access_denied, server_error,
  response_type_from_str,
}
use openid_tls_connector.Router.{AppState, AuthorizeParams, Headers}

unfoldable pub parse_method : Option String → Result OidcError CodeChallengeMethod
parse_method none = ok plain
parse_method (some m) =
    if m == "S256"
    then ok s256
    else if m == "plain"
    then ok plain
    else err (invalid_request ("Unsupported code_challenge_method: " ++ m))

abbrev pub scope_list : Option String → List String
scope_list none = []
scope_list (some s) = split_whitespace s

abbrev pub checked : Bool → Failure → Result Failure (Unit {0})
checked b f = if b then ok tt else err f

-- The user of a header, as the handler answers for it.
unfoldable pub resolved : Option (Result Users.UserError User) → Result Failure User
resolved none = err panic
resolved (some r) =
    map_err (λ e. error (access_denied ("Failed to resolve user: " ++ Users.error_text e))) r

module _ (u : UrlLib) where
  -- The location: the redirect URI with the code and the state added to its query.
  unfoldable pub redirect_location : AuthorizeParams → String → Result Failure String
  redirect_location params encoded_code = do
    redirect_url ←
        map_err (λ e. error (server_error ("Invalid redirect_uri: " ++ e)))
          (u.parse params.redirect_uri)
    let with_code = u.append_pair redirect_url "code" encoded_code
    elim params.state [
      | none ↦ ok (u.to_text with_code)
      | some state_val ↦ ok (u.to_text (u.append_pair with_code "state" state_val))
    ]

module _ (x : Codec) (cbor : Cbor) (u : UrlLib) (table : ℕ → List ℕ) {j : JwtLib} where
  -- The clock is read twice, for the code and for its signature. The answer is where to redirect.
  unfoldable pub authorize_handler :
      AppState j → Headers → SystemTime → SystemTime → AuthorizeParams → Result Failure String
  authorize_handler state headers at_code at_sign params = do
    _ ← map_err error (response_type_from_str params.response_type)
    code_challenge_method ← map_err error (parse_method params.code_challenge_method)
    client ←
        ok_or (find_by_id state.clients params.client_id)
          (error (unauthorized_client ("Unknown client_id: " ++ params.client_id)))
    _ ←
        checked (validate_redirect_uri state.clients params.client_id params.redirect_uri)
          (error (invalid_request "Invalid redirect_uri for this client"))
    header_value ←
        ok_or (headers state.user_header)
          (error (access_denied ("Missing required header: " ++ state.user_header)))
    user ← resolved (resolve table state.user_manager header_value)
    let req : AuthorizationRequest = record {
      client_id = params.client_id;
      redirect_uri = params.redirect_uri;
      code_challenge = params.code_challenge;
      code_challenge_method = code_challenge_method;
      subject = user.subject;
      nonce = params.nonce;
      groups = resolve_groups client.groups state.default_groups;
      scope = scope_list params.scope;
    }
    signed ← authorization_request x cbor state.flow at_code at_sign req
    redirect_location u params signed.1
