-- ===== src/Tests/Unit/Protocol.antt =====
-- The tests of src/oidc/protocol.rs. Protocol/Passes is about their answers, and Protocol/Granted
-- about those of the requests that are granted.

pub mod Passes
pub mod Granted
use Prim.Native.String
use openid_tls_connector.Common.{
  String, ◌≡◌, refl, Bool, true, false, not, ◌&&◌, List, [], ◌∷◌, Option, none, some, Result, ok,
  err, ◌==◌, eqb,
}
use openid_tls_connector.Common.Text.{as_bytes}
use openid_tls_connector.External.{Bytes, Codec}
use openid_tls_connector.Client.{ClientConfig, ClientRegistry, ClientRegistryError}
use openid_tls_connector.Client
use openid_tls_connector.Code.Pkce.{s256}
use openid_tls_connector.Code.Timestamp.{SystemTime, Duration}
use openid_tls_connector.Code.AuthorizationCode.{AuthorizationCode}
use openid_tls_connector.Code.Signature.{MacKey, Cbor}
use openid_tls_connector.Storage.{InMemoryTokenStore, in_memory}
use openid_tls_connector.Storage
use openid_tls_connector.Token.{
  JwtLib, JwtIssuer, IdTokenClaims, AccessTokenClaims, generate, verify_id_token,
  verify_access_token,
}
use openid_tls_connector.Protocol.{
  TokenResponse, AuthorizationRequest, AccessTokenRequest, TokenIssueContext, OidcAuthCodePkceFlow,
  Readings, Failure, error, panic, authorization_request, access_token_request,
}
use openid_tls_connector.Protocol.Errors.{
  OidcError, invalid_grant, invalid_client, authorization_code, code, ResponseType, GrantType,
  response_type_from_str, grant_type_from_str,
}
use openid_tls_connector.Server.{from_secs}
use openid_tls_connector.Tests.Unit.{texts_eq, on_some, on_ok, on_err}
use openid_tls_connector.Tests.Unit.Signature.{filled}

abbrev pub test_client_id : String
test_client_id = "client1"

abbrev pub test_redirect_uri : String
test_redirect_uri = "https://app.example/cb"

abbrev pub test_key : MacKey
test_key = filled 42 32

abbrev pub test_flow : OidcAuthCodePkceFlow
test_flow = record { code_max_age = from_secs 300; hmac_key = test_key }

abbrev pub two_clients : List ClientConfig
two_clients =
    record {
      client_id = test_client_id;
      client_secret = none;
      redirect_uris = test_redirect_uri ∷ [];
      groups = "users" ∷ [];
    }
    ∷ record {
      client_id = "confidential";
      client_secret = some "s3cr3t";
      redirect_uris = test_redirect_uri ∷ [];
      groups = [];
    }
    ∷ []

abbrev pub test_clients : Result ClientRegistryError ClientRegistry
test_clients = Client.new two_clients

abbrev pub test_ctx : {j : JwtLib} → ClientRegistry → JwtIssuer j → TokenIssueContext j
test_ctx clients jwt = record {
  clients = clients;
  jwt_issuer = jwt;
  id_token_ttl = from_secs 3600;
  access_token_ttl = from_secs 3600;
}

abbrev pub s256_challenge : Codec → String → String
s256_challenge x verifier = x.base64_url_no_pad_encode (x.sha256 (as_bytes verifier))

abbrev pub asked_code :
    Codec → String → String → Option String → List String → String → AuthorizationRequest
asked_code x client_id subject nonce groups verifier = record {
  client_id = client_id;
  redirect_uri = test_redirect_uri;
  code_challenge = some (s256_challenge x verifier);
  code_challenge_method = s256;
  subject = subject;
  nonce = nonce;
  groups = groups;
  scope = "openid" ∷ [];
}

-- The request of `issue_code`.
abbrev pub users_code : Codec → String → AuthorizationRequest
users_code x verifier =
    asked_code x test_client_id "alice" (some "nonce-xyz") ("users" ∷ []) verifier

-- The request of the tests of the confidential client.
abbrev pub confidential_code : Codec → AuthorizationRequest
confidential_code x = asked_code x "confidential" "bob" none [] "v"

abbrev pub asked_token : String → Option String → String → String → AccessTokenRequest
asked_token client_id secret verifier encoded = record {
  grant_type = authorization_code;
  client_id = client_id;
  client_secret = secret;
  code = encoded;
  redirect_uri = test_redirect_uri;
  code_verifier = some verifier;
}

abbrev pub is_invalid_grant : Failure → Bool
is_invalid_grant (error (invalid_grant e)) = true
is_invalid_grant _ = false

abbrev pub is_invalid_client : Failure → Bool
is_invalid_client (error (invalid_client e)) = true
is_invalid_client _ = false

abbrev pub is_empty : String → Bool
is_empty t = t == ""

abbrev test_response_type_from_str : Bool
test_response_type_from_str =
    on_ok (λ (t : ResponseType). true) (response_type_from_str "code")
    && on_err (λ e. true) (response_type_from_str "token")

abbrev test_grant_type_from_str : Bool
test_grant_type_from_str =
    on_ok (λ (g : GrantType). true) (grant_type_from_str "authorization_code")
    && on_err (λ e. true) (grant_type_from_str "client_credentials")

from_str_tests_pass : (test_response_type_from_str ≡ true) × (test_grant_type_from_str ≡ true)
unfolding response_type_from_str grant_type_from_str
from_str_tests_pass = (refl, refl)

-- The clock is read when a code is made, when it is signed, and by the readings of each request.
module _ (x : Codec) (cbor : Cbor) (j : JwtLib) (random : Bytes) (made signed : SystemTime) where
  abbrev pub on_code : OidcAuthCodePkceFlow → AuthorizationRequest → (String → Bool) → Bool
  on_code flow asked p =
      on_ok (λ (c, encoded). p encoded) (authorization_request x cbor flow made signed asked)

  abbrev is_as_asked : AuthorizationCode × String → Bool
  is_as_asked (c, encoded) =
      c.client_id == test_client_id
      && c.redirect_uri == test_redirect_uri
      && c.subject == "alice"
      && on_some (λ n. n == "nonce-1") c.nonce
      && texts_eq c.groups ("g1" ∷ [])
      && not (is_empty encoded)

  abbrev pub test_authorization_request_fields : Bool
  test_authorization_request_fields = on_ok is_as_asked (
      authorization_request x cbor test_flow made signed
        (asked_code x test_client_id "alice" (some "nonce-1") ("g1" ∷ []) "verifier"))

  -- The collaborators of a test: a new issuer and the clients; its store is new.
  abbrev pub with_ctx : (TokenIssueContext j → Bool) → Bool
  with_ctx p =
      on_ok (λ jwt. on_ok (λ clients. p (test_ctx clients jwt)) test_clients)
        (generate j x random "https://test.example.com")

  abbrev pub redeem_at :
      OidcAuthCodePkceFlow
      → TokenIssueContext j
      → Readings
      → AccessTokenRequest
      → InMemoryTokenStore
      → InMemoryTokenStore × Result Failure TokenResponse
  redeem_at flow ctx env req s = access_token_request x cbor j in_memory flow ctx env req s

  -- A code is issued, and redeemed on a new store.
  abbrev pub on_redeemed :
      OidcAuthCodePkceFlow
      → AuthorizationRequest
      → Readings
      → (String → AccessTokenRequest)
      → (TokenIssueContext j → Result Failure TokenResponse → Bool)
      → Bool
  on_redeemed flow asked env req p = with_ctx λ ctx.
      on_code flow asked λ encoded. p ctx (redeem_at flow ctx env (req encoded) Storage.new).1

  module _ (env : Readings) where
    abbrev pub is_granted_at : SystemTime → SystemTime → TokenIssueContext j → TokenResponse → Bool
    is_granted_at verified verified' ctx response =
        response.token_type == "Bearer"
        && not (is_empty response.access_token)
        && not (is_empty response.id_token)
        && eqb response.expires_in 3600
        && on_ok
            (λ (claims : IdTokenClaims).
              claims.sub == "alice" && on_some (λ n. n == "nonce-xyz") claims.nonce)
            (verify_id_token j ctx.jwt_issuer verified response.id_token test_client_id)
        && on_ok
            (λ (claims : AccessTokenClaims).
              claims.sub == "alice" && claims.client_id == test_client_id)
            (verify_access_token j ctx.jwt_issuer verified' response.access_token)

    abbrev pub test_access_token_request_succeeds : SystemTime → SystemTime → Bool
    test_access_token_request_succeeds verified verified' =
        on_redeemed test_flow (users_code x "my-verifier") env
          (asked_token test_client_id none "my-verifier")
          λ ctx. on_ok (is_granted_at verified verified' ctx)

    abbrev pub test_access_token_request_wrong_verifier : Bool
    test_access_token_request_wrong_verifier =
        on_redeemed test_flow (users_code x "correct-verifier") env
          (asked_token test_client_id none "wrong-verifier") λ ctx. on_err is_invalid_grant

    abbrev pub test_access_token_request_wrong_client : Bool
    test_access_token_request_wrong_client =
        on_redeemed test_flow (users_code x "verifier") env
          (asked_token "other-client" none "verifier") λ ctx. on_err is_invalid_grant

    abbrev pub test_access_token_request_expired_code : Bool
    test_access_token_request_expired_code =
        on_redeemed (record { code_max_age = 0; hmac_key = test_key }) (users_code x "v") env
          (asked_token test_client_id none "v") λ ctx. on_err is_invalid_grant

    abbrev pub test_access_token_request_replay_rejected : Readings → Bool
    test_access_token_request_replay_rejected env' = with_ctx λ ctx.
        on_code test_flow (users_code x "v") λ encoded.
          let req = asked_token test_client_id none "v" encoded in
          let (s, first) = redeem_at test_flow ctx env req Storage.new in
          on_ok (λ (response : TokenResponse). true) first
          && on_err is_invalid_grant (redeem_at test_flow ctx env' req s).1

    abbrev pub test_confidential_client_requires_secret : Readings → Bool
    test_confidential_client_requires_secret env' = with_ctx λ ctx.
        on_code test_flow (confidential_code x) λ encoded.
          let (s, result) =
            redeem_at test_flow ctx env (asked_token "confidential" none "v" encoded) Storage.new in
          on_err is_invalid_client result
          && on_err is_invalid_client
              (redeem_at test_flow ctx env' (asked_token "confidential" (some "wrong") "v" encoded)
                s).1

    abbrev pub test_confidential_client_with_correct_secret_succeeds : Bool
    test_confidential_client_with_correct_secret_succeeds =
        on_redeemed test_flow (confidential_code x) env
          (asked_token "confidential" (some "s3cr3t") "v")
          λ ctx. on_ok λ (response : TokenResponse). not (is_empty response.access_token)
