-- ===== src/Code/Pkce.antt =====
-- src/oidc/code/pkce.rs: proof keys for code exchange.
use openid_tls_connector.Common.{String, Bool, ◌==◌}
use openid_tls_connector.Common.Text.{as_bytes}
use openid_tls_connector.External.{Codec}

pub data CodeChallengeMethod : Type 0 where
  plain s256 : CodeChallengeMethod

-- `Display`
unfoldable pub method_text : CodeChallengeMethod → String
method_text plain = "plain"
method_text s256 = "S256"

unfoldable pub verify_pkce : Codec → CodeChallengeMethod → String → String → Bool
verify_pkce x plain code_challenge code_verifier = code_challenge == code_verifier
verify_pkce x s256 code_challenge code_verifier =
    let digest = x.sha256 (as_bytes code_verifier) in
    let should_equal_code_challenge = x.base64_url_no_pad_encode digest in
    code_challenge == should_equal_code_challenge
