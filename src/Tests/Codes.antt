-- ===== src/Tests/Codes.antt =====
-- Runs of the authorization codes.
use openid_tls_connector.Common.{
  ℕ, ◌+◌, ◌&&◌, String, ◌≡◌, refl, [], ◌∷◌, some, ok, err, ltb, leb, if◌then◌else◌,
}
use openid_tls_connector.Code.Timestamp.{not_fresh}
use openid_tls_connector.Code.Timestamp
use openid_tls_connector.Code.Signature.{sign_and_encode, decode_and_verify, invalid_timestamp}
use openid_tls_connector.Code.Signature.Verify.{IsGenuine, decode_and_verify_iff}
use openid_tls_connector.Code.Signature.RoundTrip.{ReadsBack, decode_and_verify-sign_and_encode}
use openid_tls_connector.Tests.Samples.{codec, cbor, hmac_key, issued_at, sample_code, now, flow}

verified : decode_and_verify codec cbor now "signed" hmac_key flow.code_max_age ≡ ok sample_code
unfolding decode_and_verify Timestamp.extract
verified = refl

decode_and_verify_iff_example :
    IsGenuine codec cbor now "signed" hmac_key flow.code_max_age sample_code
decode_and_verify_iff_example =
    (decode_and_verify_iff codec cbor now "signed" hmac_key flow.code_max_age sample_code).0
      verified

pub code-ReadsBack : ReadsBack codec cbor hmac_key issued_at sample_code
code-ReadsBack = record {
  content = 2 ∷ [];
  written = refl;
  reread = refl;
  resigned = refl;
  retexted = refl;
}

decode_and_verify-sign_and_encode_example :
    (encoded : String) × (sign_and_encode codec cbor issued_at sample_code hmac_key ≡ some encoded)
    × ((later max_age : ℕ)
        → decode_and_verify codec cbor later encoded hmac_key max_age ≡ (
            if leb issued_at later && ltb later (issued_at + max_age)
            then ok sample_code
            else err (invalid_timestamp not_fresh)))
decode_and_verify-sign_and_encode_example =
    decode_and_verify-sign_and_encode codec cbor hmac_key issued_at sample_code code-ReadsBack
