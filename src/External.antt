-- ===== src/External.antt =====
-- The libraries that the code calls for encodings and digests: `base64`, `sha2` and `blake3`. They
-- are parameters. A failure is the text of the library's error.
use openid_tls_connector.Common.{ℕ, String, List, Result}

abbrev pub Bytes : Type 0
Bytes = List ℕ

pub record Codec : Type 0 where
  -- `URL_SAFE`, `URL_SAFE_NO_PAD` and `STANDARD` of `base64::engine::general_purpose`.
  pub base64_url_encode : Bytes → String
  pub base64_url_decode : String → Result String Bytes
  pub base64_url_no_pad_encode : Bytes → String
  pub base64_standard_decode : String → Result String Bytes
  pub sha256 : Bytes → Bytes
  pub blake3_hash : Bytes → Bytes
  pub blake3_keyed_hash : Bytes → Bytes → Bytes
