-- ===== src/Tests/Unit/Protocol/Passes.antt =====
-- The tests of src/oidc/protocol.rs, for libraries that read back what they write.
use openid_tls_connector.Common.{
  String, ◌+◌, ◌≤◌, ◌<◌, ◌≡◌, ◌≢◌, refl, ap, ◌∙◌, Bool, true, ◌&&◌, [], ◌∷◌, none, some, Result, ok,
  err, ltb, leb, arith, eq_iff, eq_refl, if◌then◌else◌,
}
use openid_tls_connector.Common.Text.{as_bytes, utf8}
use openid_tls_connector.External.{Bytes, Codec}
use openid_tls_connector.Client
use openid_tls_connector.Client.{
  ClientRegistry, find_by_id, validate_redirect_uri, validate_client_secret, constant_time_eq,
}
use openid_tls_connector.Code.Pkce.{verify_pkce}
use openid_tls_connector.Code.Timestamp.{SystemTime, Duration, not_fresh}
use openid_tls_connector.Code.AuthorizationCode.{validate_token_request}
use openid_tls_connector.Code.AuthorizationCode.Signing.{sign_and_encode, decode_and_verify}
use openid_tls_connector.Code.Signature.{Cbor, invalid_timestamp}
use openid_tls_connector.Code.Signature.RoundTrip.{ReadsBack, decode_and_verify-sign_and_encode}
use openid_tls_connector.Token.{JwtLib, JwtIssuer, generate}
use openid_tls_connector.Protocol.{
  AuthorizationRequest, AccessTokenRequest, TokenIssueContext, OidcAuthCodePkceFlow, Readings,
  TokenResponse, Failure, authorization_request, access_token_request, check_request, code_for,
}
use openid_tls_connector.Protocol.Errors.{map_code_verification_error, map_token_request_error}
use openid_tls_connector.Server.{from_secs}
use openid_tls_connector.Storage
use openid_tls_connector.Tests.Unit.{on_ok, on_err}
use openid_tls_connector.Tests.Unit.Protocol.{
  test_client_id, test_key, test_flow, test_clients, test_ctx, s256_challenge, asked_code,
  users_code, confidential_code, asked_token, is_invalid_grant, is_invalid_client, on_code,
  test_authorization_request_fields, with_ctx, redeem_at, on_redeemed,
  test_access_token_request_wrong_verifier, test_access_token_request_wrong_client,
  test_access_token_request_expired_code, test_confidential_client_requires_secret,
}

module _ (x : Codec) (cbor : Cbor) (j : JwtLib) (random : Bytes) (made signed : SystemTime)
    (issuer : JwtIssuer j)
    (generated : generate j x random "https://test.example.com" ≡ ok issuer) where
  abbrev pub flow_of : Duration → OidcAuthCodePkceFlow
  flow_of max_age = record { code_max_age = max_age; hmac_key = test_key }

  -- The codes that the tests ask for are written and read back.
  abbrev pub Readable : AuthorizationRequest → Type 0
  Readable asked = ReadsBack x cbor test_key signed (code_for made asked)

  -- What a test knows of a code that was issued for a request.
  abbrev pub Opens : AuthorizationRequest → String → Type 0
  Opens asked encoded =
      (now : SystemTime) (max_age : Duration)
      → decode_and_verify x cbor now encoded test_key max_age ≡ (
          if leb signed now && ltb now (signed + max_age)
          then ok (code_for made asked)
          else err (invalid_timestamp not_fresh))

  pub on_code_passes :
      (max_age : Duration) (asked : AuthorizationRequest) (p : String → Bool)
      → Readable asked
      → ((encoded : String) → Opens asked encoded → p encoded ≡ true)
      → on_code x cbor j random made signed (flow_of max_age) asked p ≡ true
  unfolding authorization_request
  on_code_passes max_age asked p back h =
      let (encoded, e, opens) =
        decode_and_verify-sign_and_encode x cbor test_key signed (code_for made asked) back in
      let issued : authorization_request x cbor (flow_of max_age) made signed asked
          ≡ ok (code_for made asked, encoded) =
        ground (arith, e) in
      ap (on_ok (λ (c, encoded). p encoded)) issued ∙ h encoded opens

  -- A test that runs on the collaborators passes where it does on those that are made.
  pub with_ctx_passes :
      (clients : ClientRegistry) (p : TokenIssueContext j → Bool)
      → test_clients ≡ ok clients
      → p (test_ctx clients issuer) ≡ true
      → with_ctx x cbor j random made signed p ≡ true
  with_ctx_passes clients p e h = rw (generated, e) h

  -- So does a test on the answer to a request with a code.
  pub redeemed_passes :
      (max_age : Duration) (asked : AuthorizationRequest) (env : Readings)
      (req : String → AccessTokenRequest) (clients : ClientRegistry)
      (p : TokenIssueContext j → Result Failure TokenResponse → Bool)
      → test_clients ≡ ok clients
      → Readable asked
      → ((encoded : String)
          → Opens asked encoded
          → p
              (test_ctx clients issuer)
              (redeem_at x cbor j random made signed
                (flow_of max_age)
                (test_ctx clients issuer)
                env
                (req encoded)
                Storage.new).1
            ≡ true)
      → on_redeemed x cbor j random made signed (flow_of max_age) asked env req p ≡ true
  redeemed_passes max_age asked env req clients p e back h =
      with_ctx_passes clients
        (λ ctx. on_code x cbor j random made signed (flow_of max_age) asked λ encoded.
          p ctx
            (redeem_at x cbor j random made signed (flow_of max_age) ctx env (req encoded)
              Storage.new).1)
        e
        (on_code_passes max_age asked
          (λ encoded.
            p (test_ctx clients issuer)
              (redeem_at x cbor j random made signed (flow_of max_age) (test_ctx clients issuer) env
                (req encoded) Storage.new).1)
          back h)

  abbrev fields_code : AuthorizationRequest
  fields_code = asked_code x test_client_id "alice" (some "nonce-1") ("g1" ∷ []) "verifier"

  fields_test_passes :
      Readable fields_code
      → ((encoded : String)
          → sign_and_encode x cbor signed (code_for made fields_code) test_key ≡ some encoded
          → encoded ≢ "")
      → test_authorization_request_fields x cbor j random made signed ≡ true
  unfolding authorization_request code_for
  fields_test_passes back nonempty =
      let (encoded, e, opens) =
        decode_and_verify-sign_and_encode x cbor test_key signed (code_for made fields_code) back in
      ground (arith, e, nonempty encoded e, eq_iff encoded "")

  expired_test_passes :
      (env : Readings)
      → Readable (users_code x "v")
      → test_access_token_request_expired_code x cbor j random made signed env ≡ true
  unfolding access_token_request check_request map_code_verification_error Client.new
  expired_test_passes env back =
      redeemed_passes 0 (users_code x "v") env (asked_token test_client_id none "v") _
        (λ ctx. on_err is_invalid_grant) refl back
        λ encoded opens. ground (arith, opens env.at_verify 0)

  module _ (env : Readings) (in_order : signed ≤ env.at_verify)
      (in_time : env.at_verify < signed + from_secs 300) where
    wrong_client_test_passes :
        Readable (users_code x "verifier")
        → test_access_token_request_wrong_client x cbor j random made signed env ≡ true
    unfolding access_token_request check_request validate_token_request map_token_request_error
        code_for Client.new
    wrong_client_test_passes back =
        redeemed_passes (from_secs 300) (users_code x "verifier") env
          (asked_token "other-client" none "verifier") _ (λ ctx. on_err is_invalid_grant) refl back
          λ encoded opens. ground (arith, opens env.at_verify (from_secs 300))

    wrong_verifier_test_passes :
        s256_challenge x "correct-verifier" ≢ s256_challenge x "wrong-verifier"
        → Readable (users_code x "correct-verifier")
        → test_access_token_request_wrong_verifier x cbor j random made signed env ≡ true
    unfolding access_token_request check_request validate_token_request map_token_request_error
        code_for Client.new verify_pkce
    wrong_verifier_test_passes differs back =
        redeemed_passes (from_secs 300) (users_code x "correct-verifier") env
          (asked_token test_client_id none "wrong-verifier") _ (λ ctx. on_err is_invalid_grant) refl
          back
          λ encoded opens. ground (
            arith,
            opens env.at_verify (from_secs 300),
            eq_iff (s256_challenge x "correct-verifier") (s256_challenge x "wrong-verifier"),
            eq_iff (s256_challenge x "wrong-verifier") (s256_challenge x "correct-verifier"),
          )

    requires_secret_test_passes :
        (env' : Readings)
        → signed ≤ env'.at_verify
        → env'.at_verify < signed + from_secs 300
        → Readable (confidential_code x)
        → test_confidential_client_requires_secret x cbor j random made signed env env' ≡ true
    unfolding access_token_request check_request validate_token_request code_for Client.new
        verify_pkce validate_redirect_uri validate_client_secret find_by_id constant_time_eq
        as_bytes utf8
    requires_secret_test_passes env' h k back =
        with_ctx_passes _
          (λ ctx. on_code x cbor j random made signed test_flow (confidential_code x) λ encoded.
            let (s, result) =
              redeem_at x cbor j random made signed test_flow ctx env
                (asked_token "confidential" none "v" encoded) Storage.new in
            on_err is_invalid_client result
            && on_err is_invalid_client
                (redeem_at x cbor j random made signed test_flow ctx env'
                  (asked_token "confidential" (some "wrong") "v" encoded) s).1)
          refl
          (on_code_passes (from_secs 300) (confidential_code x) _ back λ encoded opens. ground (
            arith,
            opens env.at_verify (from_secs 300),
            opens env'.at_verify (from_secs 300),
            eq_refl (s256_challenge x "v"),
          ))
