-- ===== src/Token/Published.antt =====
-- The tokens of an issuer that is loaded from a PEM, and the key that it publishes for them.
use openid_tls_connector.Common.{
  ◌+◌, ◌≤◌, ◌≡◌, refl, sym, ap, ◌∙◌, String, List, [], ◌∷◌, Option, some, ok, map_err-eq-ok,
}
use openid_tls_connector.External.{Bytes, Codec}
use openid_tls_connector.Code.Timestamp.{SystemTime, Duration}
use openid_tls_connector.Token.{
  JwtLib, JwtIssuer, Jwk, rs256, IdTokenClaims, from_pem, get_jwks, issue_id_token, verify_id_token,
  id_token_claims, now_secs, as_secs, add_u64, jwt, rs256_header,
}
use openid_tls_connector.Token.Keys.{IsIssuerOf, from_pem-IsIssuerOf}
use openid_tls_connector.Token.RoundTrip.{IsKeyPair, verify_id_token-issue_id_token}

module _ (j : JwtLib) where
  -- What `rsa` and `jsonwebtoken` document of one private key: the key that its PKCS #8 text gives
  -- signs, and the key that its PKCS #1 bytes give verifies.
  abbrev pub MakesPairs : Type 0
  MakesPairs =
      (key : j.RsaPrivateKey) (der : Bytes) (pem : String) (ek : j.EncodingKey)
      → j.to_pkcs1_der key ≡ ok der
      → j.to_pkcs8_pem key ≡ ok pem
      → j.from_rsa_pem pem ≡ ok ek
      → IsKeyPair j ek (j.from_rsa_der der)

  -- The one published key is the public half of the private key, and the token was signed under its
  -- identifier.
  pub record SignedUnder (x : Codec) (i : JwtIssuer j) (key : j.RsaPrivateKey) (c : IdTokenClaims)
      (token : String) : Type 0 where
    pub published : Jwk
    pub only : get_jwks j i ≡ record { keys = published ∷ [] }
    pub modulus : published.n ≡ x.base64_url_no_pad_encode (j.modulus_be key)
    pub exponent : published.e ≡ x.base64_url_no_pad_encode (j.exponent_be key)
    pub encoded :
        j.encode_id (record { alg = rs256; kid = some published.kid }) c i.encoding_key ≡ ok token

  -- The claims of an identity token of an issuer with a name.
  abbrev pub claims_of :
      String → SystemTime → String → String → List String → Option String → Duration → IdTokenClaims
  claims_of issuer at subject audience groups nonce ttl = record {
    iss = issuer;
    sub = subject;
    aud = audience;
    exp = add_u64 (now_secs at) (as_secs ttl);
    iat = now_secs at;
    nonce = nonce;
    groups = some groups;
  }

  IsIssuerOf-IsKeyPair :
      MakesPairs
      → (x : Codec) (key : j.RsaPrivateKey) (issuer : String) (i : JwtIssuer j)
      → IsIssuerOf j x key issuer i
      → IsKeyPair j i.encoding_key i.decoding_key
  IsIssuerOf-IsKeyPair pairs x key issuer i o =
      rw o.verifies (pairs key o.der o.pem i.encoding_key o.exported o.printed o.signs)

  -- Where the libraries make a pair of one private key: an identity token that an issuer loaded from a
  -- PEM signs is verified by it, for the client that it was issued to and until five seconds past its
  -- expiry, as the claims with the name that the issuer was given; it was signed under the identifier
  -- of the one key that the issuer publishes, which has the modulus and the exponent of the PEM's
  -- private key.
  pub from_pem_signs :
      MakesPairs
      → (x : Codec) (pem issuer : String) (i : JwtIssuer j) → from_pem j x pem issuer ≡ ok i
      → (at later : SystemTime) (subject audience : String) (groups : List String)
        (nonce : Option String) (ttl : Duration) (token : String)
      → issue_id_token j i at subject audience groups nonce ttl ≡ ok token
      → now_secs later ≤ add_u64 (now_secs at) (as_secs ttl) + 5
      → (verify_id_token j i later token audience
          ≡ ok (claims_of issuer at subject audience groups nonce ttl))
        × (key : j.RsaPrivateKey) × (j.from_pkcs8_pem pem ≡ ok key)
        × SignedUnder x i key (claims_of issuer at subject audience groups nonce ttl) token
  unfolding issue_id_token id_token_claims
  from_pem_signs pairs x pem issuer i made at later subject audience groups nonce ttl token signed
        soon =
      let (key, read, o) = from_pem-IsIssuerOf j x pem issuer i made in
      let verified =
        verify_id_token-issue_id_token j i (IsIssuerOf-IsKeyPair pairs x key issuer i o) at later
          subject audience groups nonce ttl token signed soon in
      let named = ap (λ n. claims_of n at subject audience groups nonce ttl) o.named in
      (
        verified ∙ ap ok named,
        key,
        read,
        record {
          published = record {
            kty = "RSA";
            use_ = "sig";
            kid = i.kid;
            alg = "RS256";
            n = x.base64_url_no_pad_encode (j.modulus_be key);
            e = x.base64_url_no_pad_encode (j.exponent_be key);
          };
          only = o.published;
          modulus = refl;
          exponent = refl;
          encoded =
              ap (λ c. j.encode_id (rs256_header j i) c i.encoding_key) (sym named)
              ∙ map_err-eq-ok jwt _ signed;
        },
      )
