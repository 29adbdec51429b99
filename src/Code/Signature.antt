-- ===== src/Code/Signature.antt =====
-- src/oidc/code/signature.rs: codes signed with BLAKE3's keyed hash. CBOR (`ciborium`) is a
-- parameter.
pub mod Verify
pub mod RoundTrip
use openid_tls_connector.Common.{
  String, Option, none, some, Result, ok, err, ◌>>=◌, map_err, if◌then◌else◌, list_eq,
}
use openid_tls_connector.External.{Bytes, Codec}
use openid_tls_connector.Code.Timestamp.{
  SystemTime, Duration, TimestampError, TimestampedContainer, new, extract,
}
use openid_tls_connector.Code.AuthorizationCode.{AuthorizationCode}

pub data AuthorizationCodeVerificationError : Type 0 where
  invalid_timestamp : TimestampError → AuthorizationCodeVerificationError
  invalid_signature : AuthorizationCodeVerificationError
  invalid_base64_encoding : String → AuthorizationCodeVerificationError
  invalid_signed_data_container_encoding : String → AuthorizationCodeVerificationError

-- The field `data` of the source is `content` here.
pub record SignedAuthorizationCode : Type 0 where
  pub content : Bytes
  pub signature : Bytes

abbrev pub MacKey : Type 0
MacKey = Bytes

pub record Cbor : Type 0 where
  -- `into_writer` of a container: `none` where it fails, as for a time before the Unix epoch.
  pub write_container : TimestampedContainer AuthorizationCode → Option Bytes
  -- What `into_writer` leaves in the buffer; the caller ignores its result.
  pub write_signed : SignedAuthorizationCode → Bytes
  pub read_container : Bytes → Result String (TimestampedContainer AuthorizationCode)
  pub read_signed : Bytes → Result String SignedAuthorizationCode

module _ (x : Codec) (cbor : Cbor) where
  -- `none` is the panic of `expect`.
  unfoldable pub sign_and_encode : SystemTime → AuthorizationCode → MacKey → Option String
  sign_and_encode now code hmac_key = elim (cbor.write_container (new now code)) [
    | none ↦ none
    | some content ↦
        let signature = x.blake3_keyed_hash hmac_key content in
        let serialized = cbor.write_signed (record { content = content; signature = signature }) in
        some (x.base64_url_encode serialized)
  ]

  -- `decode_and_verify` from the comparison of the signatures on.
  check_signed :
      SystemTime
      → MacKey
      → Duration
      → SignedAuthorizationCode
      → Result AuthorizationCodeVerificationError AuthorizationCode
  check_signed now hmac_key max_age signed_code =
      let mac = x.blake3_keyed_hash hmac_key signed_code.content in
      if list_eq mac signed_code.signature
      then (do
        timestamped ←
            map_err invalid_signed_data_container_encoding (cbor.read_container signed_code.content)
        map_err invalid_timestamp (extract now timestamped max_age))
      else err invalid_signature

  unfoldable pub decode_and_verify :
      SystemTime
      → String
      → MacKey
      → Duration
      → Result AuthorizationCodeVerificationError AuthorizationCode
  unfolding check_signed
  decode_and_verify now encoded hmac_key max_age = do
    serialized ← map_err invalid_base64_encoding (x.base64_url_decode encoded)
    signed_code ← map_err invalid_signed_data_container_encoding (cbor.read_signed serialized)
    check_signed now hmac_key max_age signed_code
