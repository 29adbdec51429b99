-- ===== src/Tests/Laws.antt =====
-- The laws that the simple libraries keep.
use openid_tls_connector.Common.{
  String, ◌≡◌, refl, ap, List, [], ◌∷◌, Option, none, some, ok, true, ◌==◌, arith, eq_iff,
}
use openid_tls_connector.Code.Timestamp.{SystemTime}
use openid_tls_connector.Token.{Validation, IdTokenClaims, AccessTokenClaims}
use openid_tls_connector.Token.RoundTrip.{IsKeyPair}
use openid_tls_connector.Service.Expiry.{ChecksExpiry, DecodesSigned}
use openid_tls_connector.Tests.Samples.{
  access_claims, id_claims, jwt_lib, is_nil, is_text, is_absent, has_no_groups, same_access,
  same_id,
}

pub is_nil_sound : (ss : List String) → is_nil ss ≡ true → ss ≡ []
is_nil_sound [] h = refl
is_nil_sound (s ∷ ss) h = cc

pub same_text : (a b : String) → a == b ≡ true → a ≡ b
same_text a b h = (eq_iff a b).0 h

access_claims_unique :
    (c : AccessTokenClaims) → same_access c access_claims ≡ true → access_claims ≡ c
access_claims_unique c h =
    let iss : c.iss ≡ access_claims.iss = ground (arith, same_text c.iss access_claims.iss) in
    let sub : c.sub ≡ access_claims.sub = ground (arith, same_text c.sub access_claims.sub) in
    let aud : c.aud ≡ access_claims.aud = ground (arith, same_text c.aud access_claims.aud) in
    let exp : c.exp ≡ access_claims.exp = ground arith in
    let iat : c.iat ≡ access_claims.iat = ground arith in
    let jti : c.jti ≡ access_claims.jti = ground (arith, same_text c.jti access_claims.jti) in
    let id : c.client_id ≡ access_claims.client_id =
      ground (arith, same_text c.client_id access_claims.client_id) in
    let scope : c.scope ≡ [] = ground (arith, is_nil_sound c.scope) in
    let groups : c.groups ≡ [] = ground (arith, is_nil_sound c.groups) in cc

pub is_text_sound : (t : String) (o : Option String) → is_text t o ≡ true → o ≡ some t
is_text_sound t none h = cc
is_text_sound t (some s) h = ap some (same_text s t h)

has_no_groups_sound : (o : Option (List String)) → has_no_groups o ≡ true → o ≡ some []
has_no_groups_sound none h = cc
has_no_groups_sound (some []) h = refl
has_no_groups_sound (some (g ∷ gs)) h = cc

pub is_absent_sound : (o : Option String) → is_absent o ≡ true → o ≡ none
is_absent_sound none h = refl
is_absent_sound (some s) h = cc

id_claims_unique : (c : IdTokenClaims) → same_id c id_claims ≡ true → id_claims ≡ c
id_claims_unique c h =
    let iss : c.iss ≡ id_claims.iss = ground (arith, same_text c.iss id_claims.iss) in
    let sub : c.sub ≡ id_claims.sub = ground (arith, same_text c.sub id_claims.sub) in
    let aud : c.aud ≡ id_claims.aud = ground (arith, same_text c.aud id_claims.aud) in
    let exp : c.exp ≡ id_claims.exp = ground arith in
    let iat : c.iat ≡ id_claims.iat = ground arith in
    let nonce : c.nonce ≡ none = ground (arith, is_absent_sound c.nonce) in
    let groups : c.groups ≡ some [] = ground (arith, has_no_groups_sound c.groups) in cc

-- The one token of each kind is decoded to its claims.
pub keys-IsKeyPair : IsKeyPair jwt_lib tt tt
keys-IsKeyPair = record {
  decode_id-encode_id = λ h c token clock v e _ _ _ _. ap ok (id_claims_unique c (ground arith));
  decode_access-encode_access = λ h c token clock v e _ _ _ soon.
      let same = access_claims_unique c (ground arith) in
      ground (arith, same, eq_iff token "access");
}

pub decode_access-access_claims :
    (clock : SystemTime) (token : String) (v : Validation) (c : AccessTokenClaims)
    → jwt_lib.decode_access clock token tt v ≡ ok c
    → access_claims ≡ c
decode_access-access_claims clock token v c h = ground arith

-- The one text that is decoded.
pub decode_access-access :
    (clock : SystemTime) (token : String) (v : Validation) (c : AccessTokenClaims)
    → jwt_lib.decode_access clock token tt v ≡ ok c
    → token ≡ "access"
decode_access-access clock token v c h = ground (arith, eq_iff token "access")

pub jwt_lib-DecodesSigned : DecodesSigned jwt_lib tt tt
jwt_lib-DecodesSigned h c c' token clock v e d =
    let same : access_claims ≡ c = access_claims_unique c (ground arith) in ground arith

pub jwt_lib-ChecksExpiry : ChecksExpiry jwt_lib tt
jwt_lib-ChecksExpiry clock token v c h = ground arith
