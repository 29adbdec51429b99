-- ===== src/Protocol.antt =====
-- src/oidc/protocol.rs: the authorization code flow. The errors are in Protocol/Errors, the token
-- identifiers in Protocol/Jti; the clock and the random source are arguments of each request.
pub mod Abstract
pub mod Errors
pub mod Jti
pub mod Checks
pub mod Success
pub mod Effect
pub mod Consumption
pub mod Refusals
pub mod Concurrent
pub mod Replay
pub mod Granted
use Prim.Native.String.{◌++◌}
use openid_tls_connector.Common.{
  ℕ, ◌+◌, ◌*◌, ◌^◌, String, Bool, true, false, not, List, Option, none, some, Result, ok, err,
  ◌>>=◌, map_err, ltb, if◌then◌else◌,
}
use openid_tls_connector.Common.Text.{as_bytes, join}
use openid_tls_connector.External.{Bytes, Codec}
use openid_tls_connector.Client.{
  AuthResult, allow, deny, ClientRegistry, validate_redirect_uri, validate_client_secret,
}
use openid_tls_connector.Code.Pkce.{CodeChallengeMethod}
use openid_tls_connector.Code.Timestamp.{SystemTime, Duration}
use openid_tls_connector.Code.AuthorizationCode.{AuthorizationCode, validate_token_request}
use openid_tls_connector.Code.AuthorizationCode.Signing.{sign_and_encode, decode_and_verify}
use openid_tls_connector.Code.Signature.{MacKey, Cbor}
use openid_tls_connector.Storage.{TokenStore}
use openid_tls_connector.Token.{
  JwtLib, JwtIssuer, issue_id_token, issue_access_token, as_secs, nanos_per_sec,
}
use openid_tls_connector.Token
use Errors.{
  OidcError, invalid_grant, invalid_client, server_error, GrantType, authorization_code,
  map_code_verification_error, map_token_request_error,
}
use Jti.{random_jti}

pub record TokenResponse : Type 0 where
  pub access_token : String
  pub token_type : String
  pub expires_in : ℕ
  pub id_token : String
  pub scope : Option String

pub record AuthorizationRequest : Type 0 where
  pub client_id : String
  pub redirect_uri : String
  pub code_challenge : Option String
  pub code_challenge_method : CodeChallengeMethod
  pub subject : String
  pub nonce : Option String
  pub groups : List String
  pub scope : List String

pub record AccessTokenRequest : Type 0 where
  pub grant_type : GrantType
  pub client_id : String
  pub client_secret : Option String
  pub code : String
  pub redirect_uri : String
  pub code_verifier : Option String

-- The collaborators; the store is the state that the request runs on.
pub record TokenIssueContext (j : JwtLib) : Type 0 where
  pub clients : ClientRegistry
  pub jwt_issuer : JwtIssuer j
  pub id_token_ttl : Duration
  pub access_token_ttl : Duration

-- `OIDCAuthCodePKCEFlow`
pub record OidcAuthCodePkceFlow : Type 0 where
  pub code_max_age : Duration
  pub hmac_key : MacKey

-- What a token request reads from its surroundings: the clock, once in each place, and 16 random
-- bytes.
pub record Readings : Type 0 where
  pub at_verify : SystemTime
  pub at_id_token : SystemTime
  pub at_access_token : SystemTime
  pub at_expiry : SystemTime
  pub random : Bytes

-- A request fails with an error of the protocol, or by a panic.
pub data Failure : Type 0 where
  error : OidcError → Failure
  panic : Failure

-- `SystemTime + Duration`, which panics past the last time of the platform.
abbrev pub time_limit : ℕ
time_limit = 2 ^ 64 * nanos_per_sec

unfoldable pub add_duration : SystemTime → Duration → Option SystemTime
add_duration t d = if ltb (t + d) time_limit then some (t + d) else none

unfoldable pub code_replay_key : Codec → String → String
code_replay_key x code = x.base64_url_no_pad_encode (x.blake3_hash (as_bytes code))

unfoldable pub code_for : SystemTime → AuthorizationRequest → AuthorizationCode
code_for now req = record {
  client_id = req.client_id;
  redirect_uri = req.redirect_uri;
  code_challenge = req.code_challenge;
  code_challenge_method = req.code_challenge_method;
  timestamp = now;
  subject = req.subject;
  nonce = req.nonce;
  groups = req.groups;
  scope = req.scope;
}

module _ (x : Codec) (cbor : Cbor) where
  -- The clock is read for the code, and again for the container that `sign_and_encode` makes.
  unfoldable pub authorization_request :
      OidcAuthCodePkceFlow
      → SystemTime
      → SystemTime
      → AuthorizationRequest
      → Result Failure (AuthorizationCode × String)
  authorization_request flow at_code at_sign req =
      let code = code_for at_code req in
      elim (sign_and_encode x cbor at_sign code flow.hmac_key) [
        | none ↦ err panic
        | some encoded ↦ ok (code, encoded)
      ]

  module _ (j : JwtLib) where
    -- `access_token_request` up to the authentication of the client: steps 1 to 3 of its comment.
    unfoldable pub check_request :
        OidcAuthCodePkceFlow
        → TokenIssueContext j
        → SystemTime
        → AccessTokenRequest
        → Result OidcError AuthorizationCode
    check_request flow ctx now req = do
      auth_code ←
          map_err map_code_verification_error
            (decode_and_verify x cbor now req.code flow.hmac_key flow.code_max_age)
      _ ←
          map_err map_token_request_error
            (validate_token_request x auth_code req.client_id req.redirect_uri req.code_verifier)
      if not (validate_redirect_uri ctx.clients req.client_id req.redirect_uri)
          then err (invalid_grant "Invalid redirect_uri for this client")
          else elim (validate_client_secret ctx.clients req.client_id req.client_secret) [
            | allow ↦ ok auth_code
            | deny ↦ err (invalid_client "Client authentication failed")
          ]

module _ (j : JwtLib) {S : Type 0} (t : TokenStore S) where
  -- Its step 5, on the store whose code is consumed.
  unfoldable pub issue_tokens :
      TokenIssueContext j
      → Readings
      → AccessTokenRequest
      → AuthorizationCode
      → S
      → S × Result Failure TokenResponse
  issue_tokens ctx env req code s =
      let jti = random_jti env.random in
      elim (issue_id_token j ctx.jwt_issuer env.at_id_token code.subject req.client_id code.groups
        code.nonce ctx.id_token_ttl) [
          | err e ↦ (s, err (error (server_error (Token.error_text e))))
          | ok id_token ↦
              elim (issue_access_token j ctx.jwt_issuer env.at_access_token code.subject
                req.client_id code.groups code.scope jti ctx.access_token_ttl) [
                  | err e ↦ (s, err (error (server_error (Token.error_text e))))
                  | ok access_token ↦ elim (add_duration env.at_expiry ctx.access_token_ttl) [
                    | none ↦ (s, err panic)
                    | some expires_at ↦ (
                      t.issue s jti code.subject req.client_id code.scope code.groups expires_at,
                      ok (record {
                        access_token = access_token;
                        token_type = "Bearer";
                        expires_in = as_secs ctx.access_token_ttl;
                        id_token = id_token;
                        scope = some (join " " code.scope);
                      }),
                    )
                  ]
                ]
        ]

  -- Its steps 4 and 5.
  unfoldable pub redeem :
      Codec
      → TokenIssueContext j
      → Readings
      → AccessTokenRequest
      → AuthorizationCode
      → S
      → S × Result Failure TokenResponse
  redeem x ctx env req code s =
      let (consumed, first) = t.consume_code s (code_replay_key x req.code) in
      if not first
      then (consumed, err (error (invalid_grant "Authorization code has already been used")))
      else issue_tokens ctx env req code consumed

module _ (x : Codec) (cbor : Cbor) (j : JwtLib) {S : Type 0} (t : TokenStore S) where
  -- The one grant type is that of the flow.
  unfoldable pub access_token_request :
      OidcAuthCodePkceFlow
      → TokenIssueContext j
      → Readings
      → AccessTokenRequest
      → S
      → S × Result Failure TokenResponse
  access_token_request flow ctx env req s = elim req.grant_type [
    | authorization_code ↦ elim (check_request x cbor j flow ctx env.at_verify req) [
      | err e ↦ (s, err (error e))
      | ok code ↦ redeem j t x ctx env req code s
    ]
  ]
