-- ===== src/Code/AuthorizationCode/Signing.antt =====
-- `sign_and_encode` and `decode_and_verify` of an `AuthorizationCode`.
use openid_tls_connector.Common.{String, Option, Result}
use openid_tls_connector.External.{Codec}
use openid_tls_connector.Code.Timestamp.{SystemTime, Duration}
use openid_tls_connector.Code.AuthorizationCode.{AuthorizationCode}
use openid_tls_connector.Code.Signature
use openid_tls_connector.Code.Signature.{MacKey, Cbor, AuthorizationCodeVerificationError}

module _ (x : Codec) (cbor : Cbor) where
  abbrev pub sign_and_encode : SystemTime → AuthorizationCode → MacKey → Option String
  sign_and_encode now code hmac_key = Signature.sign_and_encode x cbor now code hmac_key

  abbrev pub decode_and_verify :
      SystemTime
      → String
      → MacKey
      → Duration
      → Result AuthorizationCodeVerificationError AuthorizationCode
  decode_and_verify now encoded hmac_key max_age =
      Signature.decode_and_verify x cbor now encoded hmac_key max_age
