-- ===== src/Tests/Unit/Token.antt =====
-- The tests of src/oidc/token.rs, for keys that are a pair. Those of identity tokens are in Token/Id.
pub mod Id
use mathlib.Core.List.{Memᴰ}
use openid_tls_connector.Common.{
  ℕ, ◌+◌, ◌≤◌, ◌<◌, ◌/◌, ◌^◌, ◌%◌, String, ◌≡◌, refl, sym, ap, ◌∙◌, Bool, true, false, not, ◌&&◌,
  List, [], ◌∷◌, Option, none, some, Result, ok, err, arith, ◌==◌, eq_refl, Result-cases, inl, inr,
  eqb, length,
}
use openid_tls_connector.External.{Bytes, Codec}
use openid_tls_connector.Code.Timestamp.{SystemTime, Duration}
use openid_tls_connector.Storage.{is_some}
use openid_tls_connector.Token.{
  JwtLib, validation_for, JwtIssuer, JwtError, IdTokenClaims, AccessTokenClaims, Jwk, Validation,
  generate, from_pem, issue_id_token, issue_access_token, verify_id_token, verify_access_token,
  get_jwks, Jwks, id_token_claims, access_token_claims, now_secs, as_secs, add_u64,
  from_private_key,
}
use openid_tls_connector.Token.RoundTrip.{
  IsKeyPair, verify_access_token-issue_access_token, verify_id_token-issue_id_token,
}
use openid_tls_connector.Service.Expiry.{ChecksExpiry}
use openid_tls_connector.Token.Keys.{generate-IsIssuerOf}
use openid_tls_connector.Server.{from_secs}
use openid_tls_connector.Tests.Unit.{texts_eq, on_some, on_ok, on_err}

abbrev pub test_issuer_name : String
test_issuer_name = "https://test.example.com"

module _ (j : JwtLib) (x : Codec) (random : Bytes) (issued verified : SystemTime) where
  -- `test_issuer`, and what a test does with it.
  abbrev pub with_issuer : (JwtIssuer j → Bool) → Bool
  with_issuer p = on_ok p (generate j x random test_issuer_name)

  -- An access token is issued and then verified.
  abbrev on_access :
      (Result JwtError AccessTokenClaims → Bool)
      → List String
      → List String
      → String
      → Duration
      → JwtIssuer j
      → Bool
  on_access p groups scope jti ttl issuer =
      on_ok (λ token. p (verify_access_token j issuer verified token))
        (issue_access_token j issuer issued "alice" "client1" groups scope jti ttl)

  abbrev is_access_claims : AccessTokenClaims → Bool
  is_access_claims claims =
      claims.sub == "alice"
      && claims.client_id == "client1"
      && claims.jti == "jti-123"
      && texts_eq claims.groups ("users" ∷ [])
      && texts_eq claims.scope ("openid" ∷ [])
      && claims.iss == test_issuer_name
      && claims.aud == test_issuer_name

  abbrev test_issue_and_verify_access_token : Bool
  test_issue_and_verify_access_token =
      with_issuer (
        on_access (on_ok is_access_claims) ("users" ∷ []) ("openid" ∷ []) "jti-123"
          (from_secs 3600))

  abbrev is_only_key : JwtIssuer j → List Jwk → Bool
  is_only_key issuer [] = false
  is_only_key issuer (key ∷ []) =
      key.kty == "RSA" && key.alg == "RS256" && key.use_ == "sig" && key.kid == issuer.kid
  is_only_key issuer (key ∷ other ∷ keys) = false

  abbrev test_jwks_contains_key : Bool
  test_jwks_contains_key = with_issuer λ issuer. is_only_key issuer (get_jwks j issuer).keys

  abbrev test_expired_token_fails_verification : Bool
  test_expired_token_fails_verification =
      with_issuer (on_access (on_err (λ e. true)) [] [] "jti" (from_secs 1))

  -- A new key is written as PEM, and two issuers are read from it.
  abbrev round_trips : String → Bool
  round_trips pem =
      on_ok
        (λ original.
          on_ok
            (λ reloaded.
              on_ok (λ token. on_ok (λ c. true) (verify_access_token j reloaded verified token))
                (issue_access_token j original issued "alice" "client1" [] [] "jti" (from_secs 60)))
            (from_pem j x pem test_issuer_name))
        (from_pem j x pem test_issuer_name)

  abbrev test_from_pem_round_trip : Bool
  test_from_pem_round_trip =
      on_ok (λ key. on_ok round_trips (j.to_pkcs8_pem key)) (j.generate_key random)

  -- What the tests take for granted: the libraries make an issuer.
  module _ (issuer : JwtIssuer j) (made : generate j x random test_issuer_name ≡ ok issuer) where
    pub with_issuer_passes : (p : JwtIssuer j → Bool) → p issuer ≡ true → with_issuer p ≡ true
    with_issuer_passes p h = ap (on_ok p) made ∙ h

    pub issuer_named : issuer.issuer ≡ test_issuer_name
    issuer_named =
        let (key, drawn, is_issuer) = generate-IsIssuerOf j x random test_issuer_name issuer made in
        is_issuer.named

    jwks_test_passes : test_jwks_contains_key ≡ true
    jwks_test_passes =
        let (key, drawn, is_issuer) = generate-IsIssuerOf j x random test_issuer_name issuer made in
        with_issuer_passes (λ i. is_only_key i (get_jwks j i).keys)
          (rw (ap Jwks.keys is_issuer.published, eq_refl issuer.kid) refl)

    -- The key that was generated is read back, as the issuer that was made of it.
    from_pem-eq-generate :
        (key : j.RsaPrivateKey) (pem : String)
        → j.generate_key random ≡ ok key
        → j.from_pkcs8_pem pem ≡ ok key
        → from_pem j x pem test_issuer_name ≡ ok issuer
    unfolding generate from_pem
    from_pem-eq-generate key pem drawn read = ground arith

    -- The keys are a pair, and the clock is not near its end and does not pass by a minute between
    -- signing and verifying.
    module _ (pair : IsKeyPair j issuer.encoding_key issuer.decoding_key)
        (in_range : now_secs issued + 3600 < 2 ^ 64)
        (soon : now_secs verified ≤ now_secs issued + 60) where
      -- A test on the claims of an access token, where it is signed.
      access_passes :
          (p : AccessTokenClaims → Bool) (groups scope : List String) (jti : String)
          (token : String)
          → issue_access_token j issuer issued "alice" "client1" groups scope jti (from_secs 3600)
            ≡ ok token
          → p (
              access_token_claims j issuer issued "alice" "client1" groups scope jti
                (from_secs 3600))
            ≡ true
          → with_issuer (on_access (on_ok p) groups scope jti (from_secs 3600)) ≡ true
      unfolding access_token_claims
      access_passes p groups scope jti token signed holds =
          with_issuer_passes (on_access (on_ok p) groups scope jti (from_secs 3600)) (
            rw
              (
                signed,
                verify_access_token-issue_access_token j issuer pair issued verified "alice"
                    "client1" groups scope jti (from_secs 3600) token signed (ground arith),
              )
              holds)

      access_test_passes :
          (token : String)
          → issue_access_token j issuer issued "alice" "client1"
              ("users" ∷ [])
              ("openid" ∷ [])
              "jti-123"
              (from_secs 3600)
            ≡ ok token
          → test_issue_and_verify_access_token ≡ true
      unfolding access_token_claims
      access_test_passes token signed =
          access_passes is_access_claims ("users" ∷ []) ("openid" ∷ []) "jti-123" token signed
            (rw (issuer_named, eq_refl test_issuer_name) refl)

      -- A token of one second is refused more than five seconds after it ends.
      expired_test_passes :
          (token : String)
          → ChecksExpiry j issuer.decoding_key
          → ((c : AccessTokenClaims) (v : Validation)
              → j.decode_access verified token issuer.decoding_key v ≡ ok c
              → c ≡ access_token_claims j issuer issued "alice" "client1" [] [] "jti" (from_secs 1))
          → issue_access_token j issuer issued "alice" "client1" [] [] "jti" (from_secs 1)
            ≡ ok token
          → now_secs issued + 7 ≤ now_secs verified
          → test_expired_token_fails_verification ≡ true
      unfolding access_token_claims verify_access_token
      expired_test_passes token checks reads signed late =
          with_issuer_passes (on_access (on_err (λ e. true)) [] [] "jti" (from_secs 1)) (
            rw signed
              (elim (Result-cases (
                j.decode_access verified token issuer.decoding_key
                  (validation_for j issuer issuer.issuer))) [
                    | inr (e, p) ↦ rw p refl
                    | inl (c, p) ↦
                        let exp =
                          ap AccessTokenClaims.exp
                            (reads c (validation_for j issuer issuer.issuer) p) in
                        let bound =
                          checks verified token (validation_for j issuer issuer.issuer) c p in
                        absurd (ground arith)
                  ]))

      -- The exported key is read back, as an issuer whose keys are a pair.
      pem_test_passes :
          (key : j.RsaPrivateKey) (pem token : String)
          → j.generate_key random ≡ ok key
          → j.to_pkcs8_pem key ≡ ok pem
          → j.from_pkcs8_pem pem ≡ ok key
          → issue_access_token j issuer issued "alice" "client1" [] [] "jti" (from_secs 60)
            ≡ ok token
          → test_from_pem_round_trip ≡ true
      unfolding access_token_claims
      pem_test_passes key pem token drawn exported read signed =
          let loaded = from_pem-eq-generate key pem drawn read in
          rw
            (
              drawn,
              exported,
              loaded,
              signed,
              verify_access_token-issue_access_token j issuer pair issued verified "alice" "client1"
                  [] [] "jti" (from_secs 60) token signed (ground arith),
            )
            refl
