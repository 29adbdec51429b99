-- ===== src/Token/Keys.antt =====
-- The keys of an issuer, and the tokens that it signs with them.
use openid_tls_connector.Common.{◌≡◌, String, [], ◌∷◌, ok, arith, Result-cases, inl, inr, take}
use openid_tls_connector.External.{Bytes, Codec}
use openid_tls_connector.Token.{JwtLib, JwtIssuer, from_private_key, from_pem, generate, get_jwks}

module _ (j : JwtLib) where
  -- An issuer as it is made of a private key: it holds the name that it was given, and the one key
  -- that it publishes is the public half of the key that it signs with, under the key's identifier.
  pub record IsIssuerOf (x : Codec) (key : j.RsaPrivateKey) (issuer : String) (i : JwtIssuer j)
      : Type 0 where
    pub der : Bytes
    pub pem : String
    pub exported : j.to_pkcs1_der key ≡ ok der
    pub printed : j.to_pkcs8_pem key ≡ ok pem
    pub named : i.issuer ≡ issuer
    pub signs : j.from_rsa_pem pem ≡ ok i.encoding_key
    pub verifies : i.decoding_key ≡ j.from_rsa_der der
    pub kid : i.kid ≡ x.base64_url_no_pad_encode (take 16 (x.sha256 der))
    pub published : get_jwks j i ≡ record {
      keys =
          record {
            kty = "RSA";
            use_ = "sig";
            kid = i.kid;
            alg = "RS256";
            n = x.base64_url_no_pad_encode (j.modulus_be key);
            e = x.base64_url_no_pad_encode (j.exponent_be key);
          }
          ∷ [];
    }

  pub from_private_key-IsIssuerOf :
      (x : Codec) (key : j.RsaPrivateKey) (issuer : String) (i : JwtIssuer j)
      → from_private_key j x key issuer ≡ ok i
      → IsIssuerOf x key issuer i
  unfolding from_private_key get_jwks
  from_private_key-IsIssuerOf x key issuer i h = elim (Result-cases (j.to_pkcs1_der key)) [
    | inr (e, p) ↦ absurd (ground arith)
    | inl (der, p) ↦ elim (Result-cases (j.to_pkcs8_pem key)) [
      | inr (e, q) ↦ absurd (ground arith)
      | inl (pem, q) ↦ elim (Result-cases (j.from_rsa_pem pem)) [
        | inr (e, r) ↦ absurd (ground arith)
        | inl (encoding_key, r) ↦ record {
          der = der;
          pem = pem;
          exported = p;
          printed = q;
          named = ground arith;
          signs = ground arith;
          verifies = ground arith;
          kid = ground arith;
          published = ground arith;
        }
      ]
    ]
  ]

  -- An issuer that a PEM gives is made of the private key of that PEM: it has the name that it was
  -- given, signs with that key, and publishes as its only key the public half, under its key
  -- identifier, the first 16 bytes of the SHA-256 of the key.
  pub from_pem-IsIssuerOf :
      (x : Codec) (pem issuer : String) (i : JwtIssuer j)
      → from_pem j x pem issuer ≡ ok i
      → (key : j.RsaPrivateKey) × (j.from_pkcs8_pem pem ≡ ok key) × IsIssuerOf x key issuer i
  unfolding from_pem
  from_pem-IsIssuerOf x pem issuer i h = elim (Result-cases (j.from_pkcs8_pem pem)) [
    | inr (e, p) ↦ absurd (ground arith)
    | inl (key, p) ↦ (key, p, from_private_key-IsIssuerOf x key issuer i (ground arith))
  ]

  -- A generated issuer is one of the private key that was generated.
  pub generate-IsIssuerOf :
      (x : Codec) (random : Bytes) (issuer : String) (i : JwtIssuer j)
      → generate j x random issuer ≡ ok i
      → (key : j.RsaPrivateKey) × (j.generate_key random ≡ ok key) × IsIssuerOf x key issuer i
  unfolding generate
  generate-IsIssuerOf x random issuer i h = elim (Result-cases (j.generate_key random)) [
    | inr (e, p) ↦ absurd (ground arith)
    | inl (key, p) ↦ (key, p, from_private_key-IsIssuerOf x key issuer i (ground arith))
  ]
