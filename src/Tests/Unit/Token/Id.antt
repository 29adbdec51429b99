-- ===== src/Tests/Unit/Token/Id.antt =====
-- The tests of src/oidc/token.rs on identity tokens.
use mathlib.Core.List.{Memᴰ}
use openid_tls_connector.Common.{
  ◌+◌, ◌≤◌, ◌<◌, ◌^◌, String, ◌≡◌, refl, ap, Bool, true, not, ◌&&◌, List, [], ◌∷◌, Option, none,
  some, Result, ok, arith, ◌==◌, eq_refl, eq_iff, Result-cases, inl, inr,
}
use openid_tls_connector.External.{Bytes, Codec}
use openid_tls_connector.Code.Timestamp.{SystemTime, Duration}
use openid_tls_connector.Storage.{is_some}
use openid_tls_connector.Token.{
  JwtLib, validation_for, JwtIssuer, JwtError, IdTokenClaims, Validation, generate, issue_id_token,
  verify_id_token, id_token_claims, now_secs, as_secs,
}
use openid_tls_connector.Token.RoundTrip.{IsKeyPair, verify_id_token-issue_id_token}
use openid_tls_connector.Server.{from_secs}
use openid_tls_connector.Tests.Unit.{texts_eq, on_some, on_ok, on_err}
use openid_tls_connector.Tests.Unit.Token.{
  test_issuer_name, with_issuer, with_issuer_passes, issuer_named,
}

only {ℓ} : {A : Type ℓ} {a b : A} → Memᴰ a (b ∷ []) → a ≡ b
only (Memᴰ.head h) = h
only (Memᴰ.tail m) = elim m [ ]

module _ (j : JwtLib) (x : Codec) (random : Bytes) (issued verified : SystemTime) where
  abbrev on_id :
      (Result JwtError IdTokenClaims → Bool)
      → String
      → String
      → List String
      → Option String
      → Duration
      → String
      → JwtIssuer j
      → Bool
  on_id p subject audience groups nonce ttl expected issuer =
      on_ok (λ token. p (verify_id_token j issuer verified token expected))
        (issue_id_token j issuer issued subject audience groups nonce ttl)

  abbrev is_id_claims : IdTokenClaims → Bool
  is_id_claims claims =
      claims.sub == "alice"
      && claims.aud == "client1"
      && claims.iss == test_issuer_name
      && on_some (λ n. n == "nonce123") claims.nonce
      && on_some (λ gs. texts_eq gs ("users" ∷ [])) claims.groups

  abbrev test_issue_and_verify_id_token : Bool
  test_issue_and_verify_id_token = with_issuer j x random issued verified (
      on_id (on_ok is_id_claims) "alice" "client1" ("users" ∷ []) (some "nonce123") (from_secs 3600)
        "client1")

  abbrev has_no_nonce : IdTokenClaims → Bool
  has_no_nonce claims = not (is_some claims.nonce)

  abbrev test_id_token_without_nonce : Bool
  test_id_token_without_nonce =
      with_issuer j x random issued verified
        (on_id (on_ok has_no_nonce) "bob" "spa" [] none (from_secs 60) "spa")

  abbrev test_id_token_wrong_audience_rejected : Bool
  test_id_token_wrong_audience_rejected =
      with_issuer j x random issued verified
        (on_id (on_err (λ e. true)) "bob" "spa" [] none (from_secs 60) "other-client")

  -- What the tests take for granted, as those of access tokens do.
  module _ (issuer : JwtIssuer j) (made : generate j x random test_issuer_name ≡ ok issuer)
      (pair : IsKeyPair j issuer.encoding_key issuer.decoding_key)
      (in_range : now_secs issued + 3600 < 2 ^ 64)
      (soon : now_secs verified ≤ now_secs issued + 60) where
    id_passes :
        (p : IdTokenClaims → Bool) (subject audience : String) (groups : List String)
        (nonce : Option String) (ttl : Duration) (token : String)
        → 60 ≤ as_secs ttl
        → as_secs ttl ≤ 3600
        → issue_id_token j issuer issued subject audience groups nonce ttl ≡ ok token
        → p (id_token_claims j issuer issued subject audience groups nonce ttl) ≡ true
        → with_issuer j x random issued verified
            (on_id (on_ok p) subject audience groups nonce ttl audience)
          ≡ true
    unfolding id_token_claims
    id_passes p subject audience groups nonce ttl token h k signed holds =
        with_issuer_passes j x random issued verified issuer made
          (on_id (on_ok p) subject audience groups nonce ttl audience)
          (rw
            (
              signed,
              verify_id_token-issue_id_token j issuer pair issued verified subject audience groups
                  nonce ttl token signed (ground arith),
            )
            holds)

    id_tests_pass :
        (token token' : String)
        → issue_id_token j issuer issued "alice" "client1"
            ("users" ∷ [])
            (some "nonce123")
            (from_secs 3600)
          ≡ ok token
        → issue_id_token j issuer issued "bob" "spa" [] none (from_secs 60) ≡ ok token'
        → (test_issue_and_verify_id_token ≡ true) × (test_id_token_without_nonce ≡ true)
    unfolding id_token_claims
    id_tests_pass token token' signed signed' = (
      id_passes is_id_claims "alice" "client1" ("users" ∷ []) (some "nonce123") (from_secs 3600)
          token (ground arith) (ground arith) signed
          (rw (issuer_named j x random issued verified issuer made, eq_refl test_issuer_name) refl),
      id_passes has_no_nonce "bob" "spa" [] none (from_secs 60) token' (ground arith) (ground arith)
          signed' refl,
    )

    -- Another audience is not the token's.
    wrong_audience_test_passes :
        (token : String)
        → ((c : IdTokenClaims) (v : Validation)
            → j.decode_id verified token issuer.decoding_key v ≡ ok c
            → Memᴰ c.aud v.audiences
              × (c ≡ id_token_claims j issuer issued "bob" "spa" [] none (from_secs 60)))
        → issue_id_token j issuer issued "bob" "spa" [] none (from_secs 60) ≡ ok token
        → test_id_token_wrong_audience_rejected ≡ true
    unfolding id_token_claims verify_id_token
    wrong_audience_test_passes token checks signed =
        with_issuer_passes j x random issued verified issuer made
          (on_id (on_err (λ e. true)) "bob" "spa" [] none (from_secs 60) "other-client")
          (rw signed
            (elim (Result-cases (
              j.decode_id verified token issuer.decoding_key
                (validation_for j issuer "other-client"))) [
                  | inr (e, p) ↦ rw p refl
                  | inl (c, p) ↦
                      let (mem, same) = checks c (validation_for j issuer "other-client") p in
                      let other : c.aud ≡ "other-client" = only mem in
                      let own : c.aud ≡ "spa" = ap IdTokenClaims.aud same in
                      absurd (ground (arith, other, own, eq_iff "other-client" "spa"))
                ]))
