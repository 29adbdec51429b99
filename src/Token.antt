-- ===== src/Token.antt =====
-- src/oidc/token.rs: RS256 tokens. `jsonwebtoken` and `rsa` are parameters; the clock is an argument.
pub mod Keys
pub mod RoundTrip
pub mod Published
use Prim.Native.String.{◌++◌}
use openid_tls_connector.Common.{
  ℕ, ◌+◌, ◌*◌, ◌/◌, ◌%◌, ◌^◌, String, List, [], ◌∷◌, Option, none, some, Result, ok, ◌>>=◌, map_err,
  take,
}
use openid_tls_connector.External.{Bytes, Codec}
use openid_tls_connector.Code.Timestamp.{SystemTime, Duration, duration_since}

pub record IdTokenClaims : Type 0 where
  pub iss : String
  pub sub : String
  pub aud : String
  pub exp : ℕ
  pub iat : ℕ
  pub nonce : Option String
  pub groups : Option (List String)

pub record AccessTokenClaims : Type 0 where
  pub iss : String
  pub sub : String
  pub aud : String
  pub exp : ℕ
  pub iat : ℕ
  pub jti : String
  pub scope : List String
  pub groups : List String
  pub client_id : String

pub record Jwk : Type 0 where
  pub kty : String
  pub use_ : String
  pub kid : String
  pub alg : String
  pub n : String
  pub e : String

pub record Jwks : Type 0 where
  pub keys : List Jwk

-- An error of a library is its text.
pub data JwtError : Type 0 where
  jwt rsa : String → JwtError

unfoldable pub error_text : JwtError → String
error_text (jwt e) = "JWT signing/verification failed: " ++ e
error_text (rsa e) = "RSA key error: " ++ e

-- The header and the validation rules that the code hands to `jsonwebtoken`.
pub data Algorithm : Type 0 where
  rs256 : Algorithm

pub record Header : Type 0 where
  pub alg : Algorithm
  pub kid : Option String

pub record Validation : Type 0 where
  pub alg : Algorithm
  pub issuers : List String
  pub audiences : List String
  pub leeway : ℕ

pub record JwtLib : Type 1 where
  pub RsaPrivateKey : Type 0
  pub EncodingKey : Type 0
  pub DecodingKey : Type 0
  pub from_pkcs8_pem : String → Result String RsaPrivateKey
  -- A new key of 2048 bits from the random source's output.
  pub generate_key : Bytes → Result String RsaPrivateKey
  pub to_pkcs1_der : RsaPrivateKey → Result String Bytes
  pub modulus_be : RsaPrivateKey → Bytes
  pub exponent_be : RsaPrivateKey → Bytes
  pub to_pkcs8_pem : RsaPrivateKey → Result String String
  pub from_rsa_pem : String → Result String EncodingKey
  pub from_rsa_der : Bytes → DecodingKey
  pub encode_id : Header → IdTokenClaims → EncodingKey → Result String String
  pub encode_access : Header → AccessTokenClaims → EncodingKey → Result String String
  -- Decoding reads the clock.
  pub decode_id : SystemTime → String → DecodingKey → Validation → Result String IdTokenClaims
  pub decode_access :
      SystemTime → String → DecodingKey → Validation → Result String AccessTokenClaims

abbrev pub nanos_per_sec : ℕ
nanos_per_sec = 10 ^ 9

abbrev pub as_secs : Duration → ℕ
as_secs d = d / nanos_per_sec

-- The Unix epoch among the times of the platform, whose seconds are an `i64`.
abbrev pub unix_epoch : SystemTime
unix_epoch = 2 ^ 63 * nanos_per_sec

-- `+` on `u64`, as the release build wraps it.
abbrev pub add_u64 : ℕ → ℕ → ℕ
add_u64 a b = (a + b) % 2 ^ 64

-- `JwtIssuer::now` at a reading of the clock: whole seconds since the epoch, or 0 before it.
unfoldable pub now_secs : SystemTime → ℕ
now_secs now = elim (duration_since now unix_epoch) [ none ↦ 0 | some d ↦ as_secs d ]

module _ (j : JwtLib) where
  open j use {
    RsaPrivateKey, EncodingKey, DecodingKey, from_pkcs8_pem, generate_key, to_pkcs1_der, modulus_be,
    exponent_be, to_pkcs8_pem, from_rsa_pem, from_rsa_der, encode_id, encode_access, decode_id,
    decode_access,
  }

  pub record JwtIssuer : Type 0 where
    pub issuer : String
    pub encoding_key : EncodingKey
    pub decoding_key : DecodingKey
    pub kid : String
    pub jwk : Jwk

  unfoldable pub from_private_key : Codec → RsaPrivateKey → String → Result JwtError JwtIssuer
  from_private_key x private_key issuer = do
    pkcs1_der ← map_err rsa (to_pkcs1_der private_key)
    let kid = x.base64_url_no_pad_encode (take 16 (x.sha256 pkcs1_der))
    let n = x.base64_url_no_pad_encode (modulus_be private_key)
    let e = x.base64_url_no_pad_encode (exponent_be private_key)
    pem ← map_err rsa (to_pkcs8_pem private_key)
    encoding_key ← map_err jwt (from_rsa_pem pem)
    ok (record {
      issuer = issuer;
      encoding_key = encoding_key;
      decoding_key = from_rsa_der pkcs1_der;
      kid = kid;
      jwk = record { kty = "RSA"; use_ = "sig"; kid = kid; alg = "RS256"; n = n; e = e };
    })

  unfoldable pub from_pem : Codec → String → String → Result JwtError JwtIssuer
  unfolding from_private_key
  from_pem x pem issuer = do
    private_key ← map_err rsa (from_pkcs8_pem pem)
    from_private_key x private_key issuer

  unfoldable pub generate : Codec → Bytes → String → Result JwtError JwtIssuer
  unfolding from_private_key
  generate x random issuer = do
    private_key ← map_err rsa (generate_key random)
    from_private_key x private_key issuer

  abbrev pub rs256_header : JwtIssuer → Header
  rs256_header i = record { alg = rs256; kid = some i.kid }

  unfoldable pub id_token_claims :
      JwtIssuer
      → SystemTime
      → String
      → String
      → List String
      → Option String
      → Duration
      → IdTokenClaims
  id_token_claims i clock subject audience groups nonce ttl =
      let now = now_secs clock in
      record {
        iss = i.issuer;
        sub = subject;
        aud = audience;
        exp = add_u64 now (as_secs ttl);
        iat = now;
        nonce = nonce;
        groups = some groups;
      }

  unfoldable pub issue_id_token :
      JwtIssuer
      → SystemTime
      → String
      → String
      → List String
      → Option String
      → Duration
      → Result JwtError String
  unfolding id_token_claims
  issue_id_token i clock subject audience groups nonce ttl =
      let claims = id_token_claims i clock subject audience groups nonce ttl in
      map_err jwt (encode_id (rs256_header i) claims i.encoding_key)

  unfoldable pub access_token_claims :
      JwtIssuer
      → SystemTime
      → String
      → String
      → List String
      → List String
      → String
      → Duration
      → AccessTokenClaims
  access_token_claims i clock subject client_id groups scope jti ttl =
      let now = now_secs clock in
      record {
        iss = i.issuer;
        sub = subject;
        aud = i.issuer;
        exp = add_u64 now (as_secs ttl);
        iat = now;
        jti = jti;
        scope = scope;
        groups = groups;
        client_id = client_id;
      }

  unfoldable pub issue_access_token :
      JwtIssuer
      → SystemTime
      → String
      → String
      → List String
      → List String
      → String
      → Duration
      → Result JwtError String
  unfolding access_token_claims
  issue_access_token i clock subject client_id groups scope jti ttl =
      let claims = access_token_claims i clock subject client_id groups scope jti ttl in
      map_err jwt (encode_access (rs256_header i) claims i.encoding_key)

  abbrev pub validation_for : JwtIssuer → String → Validation
  validation_for i audience = record {
    alg = rs256;
    issuers = i.issuer ∷ [];
    audiences = audience ∷ [];
    leeway = 5;
  }

  unfoldable pub verify_access_token :
      JwtIssuer → SystemTime → String → Result JwtError AccessTokenClaims
  verify_access_token i clock token =
      map_err jwt (decode_access clock token i.decoding_key (validation_for i i.issuer))

  unfoldable pub verify_id_token :
      JwtIssuer → SystemTime → String → String → Result JwtError IdTokenClaims
  verify_id_token i clock token expected_audience =
      map_err jwt (decode_id clock token i.decoding_key (validation_for i expected_audience))

  unfoldable pub get_jwks : JwtIssuer → Jwks
  get_jwks i = record { keys = i.jwk ∷ [] }
