-- ===== src/Tests/Unit/Code.antt =====
-- The tests of src/oidc/code/timestamp.rs, pkce.rs and authorization_code.rs, for any readings of a
-- clock that does not go back, and any digest.
use openid_tls_connector.Common.{
  ℕ, ◌+◌, ◌-◌, ◌≤◌, ◌<◌, String, ◌≡◌, ◌≢◌, refl, Bool, true, false, not, ◌&&◌, [], ◌∷◌, Option,
  none, some, Result, arith, ◌==◌, eq_iff, eq_refl, eqb,
}
use openid_tls_connector.Common.Text.{as_bytes}
use openid_tls_connector.External.{Codec}
use openid_tls_connector.Code.Pkce.{CodeChallengeMethod, plain, s256, verify_pkce}
use openid_tls_connector.Code.Timestamp.{
  SystemTime, Duration, TimestampedContainer, TimestampError, not_fresh, new, extract,
}
use openid_tls_connector.Code.AuthorizationCode.{
  AuthorizationCode, TokenRequestError, invalid_client_id, invalid_redirect_uri, invalid_pkce,
  validate_token_request,
}
use openid_tls_connector.Server.{from_secs}
use openid_tls_connector.Tests.Unit.{on_ok, on_err}

abbrev is_not_fresh : TimestampError → Bool
is_not_fresh not_fresh = true

-- The clock is read when the container is made, and again when it is opened.
module _ (made opened : SystemTime) where
  abbrev test_fresh_container_extracts : Bool
  test_fresh_container_extracts =
      let container : TimestampedContainer ℕ = new made 42 in
      on_ok (λ v. eqb v 42) (extract opened container (from_secs 60))

  test_fresh_container_extracts_passes :
      made ≤ opened → opened < made + from_secs 60 → test_fresh_container_extracts ≡ true
  unfolding new extract
  test_fresh_container_extracts_passes h k = ground arith

  -- The container's time is set to `age` before a reading of the clock, which is no less than `age`.
  abbrev refuses_at_age : SystemTime → Duration → Bool
  refuses_at_age now age =
      let container : TimestampedContainer ℕ = record (new made 42) { timestamp = now - age } in
      on_err is_not_fresh (extract opened container (from_secs 60))

  abbrev test_expired_container_returns_error : SystemTime → Bool
  test_expired_container_returns_error now = refuses_at_age now (from_secs 120)

  abbrev test_exactly_at_max_age : SystemTime → Bool
  test_exactly_at_max_age now = refuses_at_age now (from_secs 60)

  age_tests_pass :
      (now : SystemTime)
      → from_secs 120 ≤ now
      → now ≤ opened
      → (test_expired_container_returns_error now ≡ true) × (test_exactly_at_max_age now ≡ true)
  unfolding new extract
  age_tests_pass now h k = (ground arith, ground arith)

module _ (x : Codec) where
  abbrev test_plain_pkce_match : Bool
  test_plain_pkce_match =
      let verifier : String = "some-random-verifier" in verify_pkce x plain verifier verifier

  abbrev test_plain_pkce_mismatch : Bool
  test_plain_pkce_mismatch = not (verify_pkce x plain "challenge" "verifier")

  abbrev s256_challenge : String → String
  s256_challenge verifier = x.base64_url_no_pad_encode (x.sha256 (as_bytes verifier))

  abbrev test_s256_pkce_match : Bool
  test_s256_pkce_match =
      let verifier : String = "dBjftJeZ4CVP-mB92K27uhbUJU1p1r_wW1gFWFOEjXk" in
      verify_pkce x s256 (s256_challenge verifier) verifier

  abbrev test_s256_pkce_mismatch : Bool
  test_s256_pkce_mismatch =
      not (verify_pkce x s256 "E9Melhoa2OwvFrEMTJguCHaoeK1t8URWbuGJSstw-cM" "wrong-verifier")

  abbrev test_s256_known_vector : Bool
  test_s256_known_vector =
      let verifier : String = "dBjftJeZ4CVP-mB92K27uhbUJU1p1r_wW1gFWFOEjXk" in
      let expected_challenge : String = "E9Melhoa2OwvFrEMTJguCHaoeK1t8URWbuGJSstw-cM" in
      s256_challenge verifier == expected_challenge
      && verify_pkce x s256 expected_challenge verifier

  abbrev make_code : SystemTime → String → CodeChallengeMethod → AuthorizationCode
  make_code now challenge method = record {
    client_id = "client1";
    redirect_uri = "https://app.example/cb";
    code_challenge = some challenge;
    code_challenge_method = method;
    timestamp = now;
    subject = "user1";
    nonce = none;
    groups = [];
    scope = "openid" ∷ [];
  }

  pkce_tests_pass :
      (test_plain_pkce_match ≡ true)
      × (test_plain_pkce_mismatch ≡ true)
      × (test_s256_pkce_match ≡ true)
  unfolding verify_pkce
  pkce_tests_pass = (refl, refl, eq_refl _)

  -- The digests of the tests' verifiers, as RFC 7636 has the first.
  vector_tests_pass :
      s256_challenge "dBjftJeZ4CVP-mB92K27uhbUJU1p1r_wW1gFWFOEjXk"
        ≡ "E9Melhoa2OwvFrEMTJguCHaoeK1t8URWbuGJSstw-cM"
      → s256_challenge "wrong-verifier" ≢ "E9Melhoa2OwvFrEMTJguCHaoeK1t8URWbuGJSstw-cM"
      → (test_s256_known_vector ≡ true) × (test_s256_pkce_mismatch ≡ true)
  unfolding verify_pkce
  vector_tests_pass h k = (
    rw (h, eq_refl "E9Melhoa2OwvFrEMTJguCHaoeK1t8URWbuGJSstw-cM") refl,
    ground (
      arith,
      eq_iff "E9Melhoa2OwvFrEMTJguCHaoeK1t8URWbuGJSstw-cM" (s256_challenge "wrong-verifier"),
    ),
  )

  module _ (now : SystemTime) where
    -- What the code for a verifier answers to a request.
    abbrev validated :
        String → String → String → Option String → Result TokenRequestError (Unit {0})
    validated verifier client_id redirect_uri code_verifier =
        validate_token_request x (make_code now (s256_challenge verifier) s256) client_id
          redirect_uri code_verifier

    abbrev is_invalid_client_id : TokenRequestError → Bool
    is_invalid_client_id invalid_client_id = true
    is_invalid_client_id invalid_redirect_uri = false
    is_invalid_client_id invalid_pkce = false

    abbrev is_invalid_redirect_uri : TokenRequestError → Bool
    is_invalid_redirect_uri invalid_client_id = false
    is_invalid_redirect_uri invalid_redirect_uri = true
    is_invalid_redirect_uri invalid_pkce = false

    abbrev is_invalid_pkce : TokenRequestError → Bool
    is_invalid_pkce invalid_client_id = false
    is_invalid_pkce invalid_redirect_uri = false
    is_invalid_pkce invalid_pkce = true

    abbrev test_validate_matching_request : Bool
    test_validate_matching_request =
        on_ok (λ v. true)
          (validated "test-verifier" "client1" "https://app.example/cb" (some "test-verifier"))

    abbrev test_validate_wrong_client : Bool
    test_validate_wrong_client =
        on_err is_invalid_client_id
          (validated "test-verifier" "wrong-client" "https://app.example/cb" (some "test-verifier"))

    abbrev test_validate_wrong_redirect : Bool
    test_validate_wrong_redirect =
        on_err is_invalid_redirect_uri
          (validated "test-verifier" "client1" "https://evil.example/cb" (some "test-verifier"))

    abbrev test_validate_wrong_verifier : Bool
    test_validate_wrong_verifier = on_err is_invalid_pkce (
        validate_token_request x (make_code now "challenge" plain) "client1"
          "https://app.example/cb" (some "wrong-verifier"))

    abbrev test_validate_plain_pkce : Bool
    test_validate_plain_pkce =
        on_ok (λ v. true)
          (validate_token_request x (make_code now "my-verifier" plain) "client1"
            "https://app.example/cb" (some "my-verifier"))

    abbrev test_validate_no_challenge_skips_pkce : Bool
    test_validate_no_challenge_skips_pkce =
        let code = record (make_code now "ignored" s256) { code_challenge = none } in
        on_ok (λ v. true) (validate_token_request x code "client1" "https://app.example/cb" none)
        && on_ok (λ v. true)
            (validate_token_request x code "client1" "https://app.example/cb" (some "anything"))

    abbrev test_validate_challenge_present_but_verifier_missing : Bool
    test_validate_challenge_present_but_verifier_missing =
        on_err is_invalid_pkce (validated "test-verifier" "client1" "https://app.example/cb" none)

    refusal_tests_pass :
        (test_validate_wrong_client ≡ true)
        × (test_validate_wrong_redirect ≡ true)
        × (test_validate_wrong_verifier ≡ true)
        × (test_validate_challenge_present_but_verifier_missing ≡ true)
    unfolding validate_token_request verify_pkce
    refusal_tests_pass = (refl, refl, refl, refl)

    acceptance_tests_pass :
        (test_validate_matching_request ≡ true)
        × (test_validate_plain_pkce ≡ true)
        × (test_validate_no_challenge_skips_pkce ≡ true)
    unfolding validate_token_request verify_pkce
    acceptance_tests_pass = (ground (arith, eq_refl (s256_challenge "test-verifier")), refl, refl)
