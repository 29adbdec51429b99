-- ===== src/Tests/Unit/Signature.antt =====
-- The tests of src/oidc/code/signature.rs, for libraries that read back what they write.
use openid_tls_connector.Common.{
  ℕ, zero, suc, ◌+◌, ◌≤◌, ◌<◌, String, ◌≡◌, ◌≢◌, ap, ◌∙◌, Bool, true, false, ◌&&◌, [], ◌∷◌, none,
  some, Result, err, arith, ◌==◌,
}
use openid_tls_connector.External.{Bytes, Codec}
use openid_tls_connector.Code.Pkce.{s256}
use openid_tls_connector.Code.Timestamp.{SystemTime, Duration}
use openid_tls_connector.Code.AuthorizationCode.{AuthorizationCode}
use openid_tls_connector.Code.AuthorizationCode.Signing.{sign_and_encode, decode_and_verify}
use openid_tls_connector.Code.Signature
use openid_tls_connector.Code.Signature.{
  MacKey, Cbor, AuthorizationCodeVerificationError, invalid_timestamp, invalid_signature,
  invalid_base64_encoding, invalid_signed_data_container_encoding,
}
use openid_tls_connector.Code.Signature.RoundTrip.{
  ReadsBack, decode_and_verify-sign_and_encode, decode_and_verify_other_key,
}
use openid_tls_connector.Server.{from_secs}
use openid_tls_connector.Tests.Unit.{on_some, on_ok, on_err}

-- `[b; 32]`
abbrev pub filled : ℕ → ℕ → Bytes
filled b zero = []
filled b (suc n) = b ∷ filled b n

abbrev pub test_key : MacKey
test_key = filled 42 32

abbrev is_invalid_signature : AuthorizationCodeVerificationError → Bool
is_invalid_signature invalid_signature = true
is_invalid_signature _ = false

abbrev is_invalid_base64_encoding : AuthorizationCodeVerificationError → Bool
is_invalid_base64_encoding (invalid_base64_encoding e) = true
is_invalid_base64_encoding _ = false

abbrev is_invalid_timestamp : AuthorizationCodeVerificationError → Bool
is_invalid_timestamp (invalid_timestamp e) = true
is_invalid_timestamp _ = false

-- The clock is read for the code, when it is signed, and when it is verified.
module _ (x : Codec) (cbor : Cbor) (made signed verified : SystemTime) where
  abbrev test_code : AuthorizationCode
  test_code = record {
    client_id = "test-client";
    redirect_uri = "https://app.example/cb";
    code_challenge = some "challenge123";
    code_challenge_method = s256;
    timestamp = made;
    subject = "test-user";
    nonce = none;
    groups = "users" ∷ [];
    scope = "openid" ∷ [];
  }

  -- The result of verifying the signed code, under a key and a maximal age.
  abbrev on_verified :
      (Result AuthorizationCodeVerificationError AuthorizationCode → Bool)
      → MacKey
      → Duration
      → Bool
  on_verified p key max_age =
      on_some (λ encoded. p (decode_and_verify x cbor verified encoded key max_age))
        (sign_and_encode x cbor signed test_code test_key)

  abbrev is_as_signed : AuthorizationCode → Bool
  is_as_signed decoded =
      decoded.client_id == "test-client"
      && decoded.redirect_uri == "https://app.example/cb"
      && decoded.subject == "test-user"

  abbrev test_sign_encode_decode_roundtrip : Bool
  test_sign_encode_decode_roundtrip = on_verified (on_ok is_as_signed) test_key (from_secs 60)

  abbrev test_wrong_key_returns_invalid_signature : Bool
  test_wrong_key_returns_invalid_signature =
      on_verified (on_err is_invalid_signature) (filled 99 32) (from_secs 60)

  abbrev test_bad_base64_returns_error : Bool
  test_bad_base64_returns_error =
      on_err is_invalid_base64_encoding
        (decode_and_verify x cbor verified "not-valid-base64!!!" test_key (from_secs 60))

  abbrev test_expired_code_returns_not_fresh : Bool
  test_expired_code_returns_not_fresh = on_verified (on_err is_invalid_timestamp) test_key 0

  -- `base64` refuses a text with other characters than its own.
  bad_base64_test_passes :
      (e : String)
      → x.base64_url_decode "not-valid-base64!!!" ≡ err e
      → test_bad_base64_returns_error ≡ true
  unfolding Signature.decode_and_verify
  bad_base64_test_passes e h = ground arith

  module _ (back : ReadsBack x cbor test_key signed test_code) where
    -- A test on the verified code, where signing succeeds.
    on_verified_passes :
        (p : Result AuthorizationCodeVerificationError AuthorizationCode → Bool) (key : MacKey)
        (max_age : Duration) (encoded : String)
        → sign_and_encode x cbor signed test_code test_key ≡ some encoded
        → p (decode_and_verify x cbor verified encoded key max_age) ≡ true
        → on_verified p key max_age ≡ true
    on_verified_passes p key max_age encoded e h =
        ap (on_some (λ c. p (decode_and_verify x cbor verified c key max_age))) e ∙ h

    roundtrip_test_passes :
        signed ≤ verified
        → verified < signed + from_secs 60
        → test_sign_encode_decode_roundtrip ≡ true
    roundtrip_test_passes h k =
        let (encoded, e, opens) =
          decode_and_verify-sign_and_encode x cbor test_key signed test_code back in
        on_verified_passes (on_ok is_as_signed) test_key (from_secs 60) encoded e
          (ground (arith, opens verified (from_secs 60)))

    expired_test_passes : test_expired_code_returns_not_fresh ≡ true
    expired_test_passes =
        let (encoded, e, opens) =
          decode_and_verify-sign_and_encode x cbor test_key signed test_code back in
        on_verified_passes (on_err is_invalid_timestamp) test_key 0 encoded e
          (ground (arith, opens verified 0))

    -- The other key gives the code's bytes another hash.
    wrong_key_test_passes :
        x.blake3_keyed_hash (filled 99 32) back.content ≢ x.blake3_keyed_hash test_key back.content
        → test_wrong_key_returns_invalid_signature ≡ true
    wrong_key_test_passes differs =
        let (encoded, e, refused) =
          decode_and_verify_other_key x cbor test_key signed test_code back (filled 99 32)
            differs in
        on_verified_passes (on_err is_invalid_signature) (filled 99 32) (from_secs 60) encoded e
          (ap (on_err is_invalid_signature) (refused verified (from_secs 60)))
