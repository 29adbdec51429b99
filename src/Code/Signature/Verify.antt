-- ===== src/Code/Signature/Verify.antt =====
-- Which encoded codes are accepted, and the round trip of signing and verifying.
use openid_tls_connector.Common.{
  String, ◌+◌, ◌≤◌, ◌<◌, ◌≡◌, ◌↔◌, ok, map_err-eq-ok, Result-cases, inl, inr, arith, list_eq_sound,
  list_eq_refl,
}
use openid_tls_connector.External.{Bytes, Codec}
use openid_tls_connector.Code.Timestamp.{SystemTime, Duration, TimestampedContainer, extract}
use openid_tls_connector.Code.Timestamp.Fresh.{extract_iff}
use openid_tls_connector.Code.AuthorizationCode.{AuthorizationCode}
use openid_tls_connector.Code.Signature.{
  SignedAuthorizationCode, MacKey, Cbor, check_signed, invalid_timestamp, decode_and_verify,
}

module _ (x : Codec) (cbor : Cbor) where
  -- What a text must be for the holder of the key to accept it: the base64 of a signed code whose
  -- signature is the key's for its content, and whose content is a fresh container.
  pub record IsGenuine (now : SystemTime) (encoded : String) (key : MacKey) (max_age : Duration)
      (code : AuthorizationCode) : Type 0 where
    pub serialized : Bytes
    pub signed_code : SignedAuthorizationCode
    pub container : TimestampedContainer AuthorizationCode
    pub decoded : x.base64_url_decode encoded ≡ ok serialized
    pub parsed : cbor.read_signed serialized ≡ ok signed_code
    pub authentic : signed_code.signature ≡ x.blake3_keyed_hash key signed_code.content
    pub opened : cbor.read_container signed_code.content ≡ ok container
    pub not_early : container.timestamp ≤ now
    pub not_late : now < container.timestamp + max_age
    pub holds : container.content ≡ code

  module _ (now : SystemTime) (key : MacKey) (max_age : Duration) (code : AuthorizationCode) where
    check_signed_parts :
        (s : SignedAuthorizationCode)
        → check_signed x cbor now key max_age s ≡ ok code
        → (s.signature ≡ x.blake3_keyed_hash key s.content)
          × (c : TimestampedContainer AuthorizationCode) × (cbor.read_container s.content ≡ ok c)
          × (extract now c max_age ≡ ok code)
    unfolding check_signed
    check_signed_parts s h = elim (Result-cases (cbor.read_container s.content)) [
      | inl (c, e) ↦ (
        ground (arith, list_eq_sound (x.blake3_keyed_hash key s.content) s.signature),
        c,
        e,
        map_err-eq-ok invalid_timestamp (extract now c max_age) (ground arith),
      )
      | inr (d, e) ↦ absurd (ground arith)
    ]

    pub decode_and_verify-IsGenuine :
        (encoded : String)
        → decode_and_verify x cbor now encoded key max_age ≡ ok code
        → IsGenuine now encoded key max_age code
    unfolding decode_and_verify
    decode_and_verify-IsGenuine encoded h = elim (Result-cases (x.base64_url_decode encoded)) [
      | inr (d, e) ↦ absurd (ground arith)
      | inl (bs, decoded) ↦ elim (Result-cases (cbor.read_signed bs)) [
        | inr (d, e) ↦ absurd (ground arith)
        | inl (s, parsed) ↦
            let (authentic, c, opened, fresh) = check_signed_parts s (ground arith) in
            let (early, late, holds) = (extract_iff now c max_age code).0 fresh in
            record {
              serialized = bs;
              signed_code = s;
              container = c;
              decoded = decoded;
              parsed = parsed;
              authentic = authentic;
              opened = opened;
              not_early = early;
              not_late = late;
              holds = holds;
            }
      ]
    ]

    pub IsGenuine-decode_and_verify :
        (encoded : String)
        → IsGenuine now encoded key max_age code
        → decode_and_verify x cbor now encoded key max_age ≡ ok code
    unfolding decode_and_verify
    IsGenuine-decode_and_verify encoded g = ground (
      arith,
      list_eq_refl (x.blake3_keyed_hash key g.signed_code.content),
      (extract_iff now g.container max_age code).1 (g.not_early, g.not_late, g.holds),
    )

-- A text is accepted as a code exactly when it is the base64 of a signed code whose signature is the
-- key's for its content, whose content opens to that code, from the code's timestamp on and strictly
-- before `max_age` has passed.
pub decode_and_verify_iff :
    (x : Codec) (cbor : Cbor) (now : SystemTime) (encoded : String) (key : MacKey)
    (max_age : Duration) (code : AuthorizationCode)
    → (decode_and_verify x cbor now encoded key max_age ≡ ok code)
      ↔ IsGenuine x cbor now encoded key max_age code
decode_and_verify_iff x cbor now encoded key max_age code = (
  decode_and_verify-IsGenuine x cbor now key max_age code encoded,
  IsGenuine-decode_and_verify x cbor now key max_age code encoded,
)
