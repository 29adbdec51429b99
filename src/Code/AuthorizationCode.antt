-- ===== src/Code/AuthorizationCode.antt =====
-- src/oidc/code/authorization_code.rs: the code and the checks of a token request against it.
pub mod Validation
pub mod Signing
use openid_tls_connector.Common.{
  String, Bool, List, Option, none, some, not, Result, ok, err, ◌>>=◌, ok_or, ◌==◌, if◌then◌else◌,
}
use openid_tls_connector.External.{Codec}
use openid_tls_connector.Code.Pkce.{CodeChallengeMethod, verify_pkce}
use openid_tls_connector.Code.Timestamp.{SystemTime}

pub data TokenRequestError : Type 0 where
  invalid_client_id invalid_redirect_uri invalid_pkce : TokenRequestError

-- The `#[error]` texts.
unfoldable pub error_text : TokenRequestError → String
error_text invalid_client_id = "Authorization code not issued for this client."
error_text invalid_redirect_uri = "Authorization code not issued for this redirect URI."
error_text invalid_pkce = "Proof key did not match verifier."

pub record AuthorizationCode : Type 0 where
  pub client_id : String
  pub redirect_uri : String
  pub code_challenge : Option String
  pub code_challenge_method : CodeChallengeMethod
  pub timestamp : SystemTime
  pub subject : String
  pub nonce : Option String
  pub groups : List String
  pub scope : List String

-- The last check: a stored challenge wants a verifier that meets it.
check_pkce :
    Codec
    → CodeChallengeMethod
    → Option String
    → Option String
    → Result TokenRequestError (Unit {0})
check_pkce x method none code_verifier = ok tt
check_pkce x method (some challenge) code_verifier = do
  verifier ← ok_or code_verifier invalid_pkce
  if not (verify_pkce x method challenge verifier) then err invalid_pkce else ok tt

unfoldable pub validate_token_request :
    Codec
    → AuthorizationCode
    → String
    → String
    → Option String
    → Result TokenRequestError (Unit {0})
unfolding check_pkce
validate_token_request x code client_id redirect_uri code_verifier =
    if not (code.client_id == client_id)
    then err invalid_client_id
    else if not (code.redirect_uri == redirect_uri)
    then err invalid_redirect_uri
    else check_pkce x code.code_challenge_method code.code_challenge code_verifier
