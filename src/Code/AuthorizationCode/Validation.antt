-- ===== src/Code/AuthorizationCode/Validation.antt =====
-- Which token requests a code accepts.
use openid_tls_connector.Common.{
  String, ◌≡◌, refl, sym, ap, ◌∙◌, ◌↔◌, true, Option, none, some, ok, arith, eq_iff,
}
use openid_tls_connector.Common.Text.{as_bytes}
use openid_tls_connector.External.{Codec}
use openid_tls_connector.Code.Pkce.{CodeChallengeMethod, plain, s256, verify_pkce}
use openid_tls_connector.Code.AuthorizationCode.{
  AuthorizationCode, check_pkce, validate_token_request,
}

-- The challenge that a verifier answers: itself, or the unpadded base64 of its SHA-256.
abbrev pub challenge_of : Codec → CodeChallengeMethod → String → String
challenge_of x plain v = v
challenge_of x s256 v = x.base64_url_no_pad_encode (x.sha256 (as_bytes v))

-- What RFC 7636 asks of the verifier: nothing without a challenge, else that it answers it.
abbrev pub AnswersChallenge : Codec → CodeChallengeMethod → Option String → Option String → Type 0
AnswersChallenge x method none verifier = Unit
AnswersChallenge x method (some c) verifier =
    (v : String) × (verifier ≡ some v) × (c ≡ challenge_of x method v)

pub verify_pkce_iff :
    (x : Codec) (m : CodeChallengeMethod) (c v : String)
    → (verify_pkce x m c v ≡ true) ↔ (c ≡ challenge_of x m v)
unfolding verify_pkce
verify_pkce_iff x plain c v = eq_iff c v
verify_pkce_iff x s256 c v = eq_iff c (challenge_of x s256 v)

check_pkce_iff :
    (x : Codec) (m : CodeChallengeMethod) (challenge verifier : Option String)
    → (check_pkce x m challenge verifier ≡ ok tt) ↔ AnswersChallenge x m challenge verifier
unfolding check_pkce
check_pkce_iff x m none verifier = (λ _. tt, λ _. refl)
check_pkce_iff x m (some c) none = (λ h. cc, λ (v, e, _). cc)
check_pkce_iff x m (some c) (some v) = (
  λ h. (v, refl, (verify_pkce_iff x m c v).0 (ground arith)),
  λ (w, e, k).
      let same : v ≡ w = cc in
      rw ((verify_pkce_iff x m c v).1 (k ∙ ap (challenge_of x m) (sym same))),
)

-- A code accepts a token request exactly when the client and the redirect URI are those of the code
-- and the verifier answers the code's challenge, if it has one.
pub validate_token_request_iff :
    (x : Codec) (code : AuthorizationCode) (client_id redirect_uri : String)
    (code_verifier : Option String)
    → (validate_token_request x code client_id redirect_uri code_verifier ≡ ok tt) ↔ (
        (code.client_id ≡ client_id)
        × (code.redirect_uri ≡ redirect_uri)
        × AnswersChallenge x code.code_challenge_method code.code_challenge code_verifier)
unfolding validate_token_request
validate_token_request_iff x code client_id redirect_uri code_verifier =
    let pkce = check_pkce_iff x code.code_challenge_method code.code_challenge code_verifier in
    let client = eq_iff code.client_id client_id in
    let uri = eq_iff code.redirect_uri redirect_uri in
    (
      λ h. (
        ground (arith, client),
        ground (arith, client, uri),
        pkce.0 (ground (arith, client, uri)),
      ),
      λ (p, q, r). ground (arith, client, uri, pkce.1 r),
    )
