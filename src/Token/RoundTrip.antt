-- ===== src/Token/RoundTrip.antt =====
-- The tokens that an issuer signs are the ones that it verifies.
use mathlib.Core.List.{Memᴰ}
use openid_tls_connector.Common.{◌+◌, ◌≤◌, ◌≡◌, refl, String, List, Option, ok, map_err-eq-ok}
use openid_tls_connector.Code.Timestamp.{SystemTime, Duration}
use openid_tls_connector.Token.{
  JwtLib, JwtIssuer, Header, Validation, now_secs, IdTokenClaims, AccessTokenClaims,
  id_token_claims, access_token_claims, issue_id_token, issue_access_token, verify_access_token,
  verify_id_token, validation_for, rs256_header, jwt,
}

module _ (j : JwtLib) where
  -- What `jsonwebtoken` documents of a pair of keys: a token that one of them signed is decoded by
  -- the other, to its claims, where the algorithm, the issuer and the audience are among those asked
  -- for and the expiry is not past by more than the leeway.
  pub record IsKeyPair (ek : j.EncodingKey) (dk : j.DecodingKey) : Type 0 where
    pub decode_id-encode_id :
        (h : Header) (c : IdTokenClaims) (token : String) (clock : SystemTime) (v : Validation)
        → j.encode_id h c ek ≡ ok token
        → h.alg ≡ v.alg
        → Memᴰ c.iss v.issuers
        → Memᴰ c.aud v.audiences
        → now_secs clock ≤ c.exp + v.leeway
        → j.decode_id clock token dk v ≡ ok c
    pub decode_access-encode_access :
        (h : Header) (c : AccessTokenClaims) (token : String) (clock : SystemTime) (v : Validation)
        → j.encode_access h c ek ≡ ok token
        → h.alg ≡ v.alg
        → Memᴰ c.iss v.issuers
        → Memᴰ c.aud v.audiences
        → now_secs clock ≤ c.exp + v.leeway
        → j.decode_access clock token dk v ≡ ok c

  -- An access token is verified as its claims, by the issuer that signed it, until five seconds
  -- past its expiry.
  pub verify_access_token-issue_access_token :
      (i : JwtIssuer j)
      → IsKeyPair i.encoding_key i.decoding_key
      → (at later : SystemTime) (subject client_id : String) (groups scope : List String)
        (jti : String) (ttl : Duration) (token : String)
      → issue_access_token j i at subject client_id groups scope jti ttl ≡ ok token
      → now_secs later ≤ (access_token_claims j i at subject client_id groups scope jti ttl).exp + 5
      → verify_access_token j i later token
        ≡ ok (access_token_claims j i at subject client_id groups scope jti ttl)
  unfolding issue_access_token verify_access_token access_token_claims
  verify_access_token-issue_access_token i keys at later subject client_id groups scope jti ttl
        token issued soon =
      let claims = access_token_claims j i at subject client_id groups scope jti ttl in
      rw (
        keys.decode_access-encode_access (rs256_header j i) claims token later
          (validation_for j i i.issuer)
          (map_err-eq-ok jwt (j.encode_access (rs256_header j i) claims i.encoding_key) issued) refl
          (Memᴰ.head refl) (Memᴰ.head refl) soon)

  -- An identity token is verified as its claims, for the client that it was issued to, until five
  -- seconds past its expiry.
  pub verify_id_token-issue_id_token :
      (i : JwtIssuer j)
      → IsKeyPair i.encoding_key i.decoding_key
      → (at later : SystemTime) (subject audience : String) (groups : List String)
        (nonce : Option String) (ttl : Duration) (token : String)
      → issue_id_token j i at subject audience groups nonce ttl ≡ ok token
      → now_secs later ≤ (id_token_claims j i at subject audience groups nonce ttl).exp + 5
      → verify_id_token j i later token audience
        ≡ ok (id_token_claims j i at subject audience groups nonce ttl)
  unfolding issue_id_token verify_id_token id_token_claims
  verify_id_token-issue_id_token i keys at later subject audience groups nonce ttl token issued
        soon =
      let claims = id_token_claims j i at subject audience groups nonce ttl in
      rw (
        keys.decode_id-encode_id (rs256_header j i) claims token later (validation_for j i audience)
          (map_err-eq-ok jwt (j.encode_id (rs256_header j i) claims i.encoding_key) issued) refl
          (Memᴰ.head refl) (Memᴰ.head refl) soon)
