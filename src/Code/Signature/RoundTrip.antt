-- ===== src/Code/Signature/RoundTrip.antt =====
-- A signed code verifies under its own key while it is fresh, and under no other.
use openid_tls_connector.Common.{
  String, ◌+◌, ◌≡◌, ◌≢◌, ◌&&◌, some, ok, err, arith, ltb, leb, if◌then◌else◌, list_eq_sound,
  list_eq_refl,
}
use openid_tls_connector.External.{Bytes, Codec}
use openid_tls_connector.Code.Timestamp.{SystemTime, Duration, not_fresh, new, extract}
use openid_tls_connector.Code.AuthorizationCode.{AuthorizationCode}
use openid_tls_connector.Code.Signature.{
  invalid_signature, invalid_timestamp, SignedAuthorizationCode, MacKey, Cbor, sign_and_encode,
  decode_and_verify,
}

module _ (x : Codec) (cbor : Cbor) (key : MacKey) where
  abbrev signed_with_key : Bytes → SignedAuthorizationCode
  signed_with_key content = record {
    content = content;
    signature = x.blake3_keyed_hash key content;
  }

  -- What the libraries do with one code: CBOR writes its container, and reading gives back what
  -- was written; so for the signed bytes and their base64.
  pub record ReadsBack (issued : SystemTime) (code : AuthorizationCode) : Type 0 where
    pub content : Bytes
    pub written :
        cbor.write_container (record { content = code; timestamp = issued }) ≡ some content
    pub reread : cbor.read_container content ≡ ok (record { content = code; timestamp = issued })
    pub resigned :
        cbor.read_signed (cbor.write_signed (signed_with_key content))
        ≡ ok (signed_with_key content)
    pub retexted :
        x.base64_url_decode (x.base64_url_encode (cbor.write_signed (signed_with_key content)))
        ≡ ok (cbor.write_signed (signed_with_key content))

  -- Where the libraries read back what they write, signing a code succeeds, and verifying the result
  -- under the same key at any time gives that code from its issue on and strictly before `max_age`
  -- has passed, and else the error of a stale timestamp.
  pub decode_and_verify-sign_and_encode :
      (issued : SystemTime) (code : AuthorizationCode)
      → ReadsBack issued code
      → (encoded : String) × (sign_and_encode x cbor issued code key ≡ some encoded)
        × ((now : SystemTime) (max_age : Duration)
            → decode_and_verify x cbor now encoded key max_age ≡ (
                if leb issued now && ltb now (issued + max_age)
                then ok code
                else err (invalid_timestamp not_fresh)))
  unfolding sign_and_encode decode_and_verify new extract
  decode_and_verify-sign_and_encode issued code r = (
    x.base64_url_encode (cbor.write_signed (signed_with_key r.content)),
    ground arith,
    λ now max_age. ground (arith, list_eq_refl (x.blake3_keyed_hash key r.content)),
  )

  -- Under a key that gives the code's content another hash, the code is refused for its signature
  -- at any time and any age.
  pub decode_and_verify_other_key :
      (issued : SystemTime) (code : AuthorizationCode) (r : ReadsBack issued code) (other : MacKey)
      → x.blake3_keyed_hash other r.content ≢ x.blake3_keyed_hash key r.content
      → (encoded : String) × (sign_and_encode x cbor issued code key ≡ some encoded)
        × ((now : SystemTime) (max_age : Duration)
            → decode_and_verify x cbor now encoded other max_age ≡ err invalid_signature)
  unfolding sign_and_encode decode_and_verify new
  decode_and_verify_other_key issued code r other differs = (
    x.base64_url_encode (cbor.write_signed (signed_with_key r.content)),
    ground arith,
    λ now max_age. ground (
      arith,
      list_eq_sound (x.blake3_keyed_hash other r.content) (x.blake3_keyed_hash key r.content),
    ),
  )
