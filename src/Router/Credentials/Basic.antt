-- ===== src/Router/Credentials/Basic.antt =====
-- The credentials of a Basic header, and how a token request is made of header and body.
use Prim.Native.Char.{Char}
use Prim.Native.String
use text.Mathlib.TextLemmas.{cons-append}
use openid_tls_connector.Common.{
  String, ◌≡◌, refl, ap, ◌∙◌, ◌↔◌, ◌⊎◌, inl, inr, Option, none, some, ok, arith, Result-cases,
  Option-cases,
}
use openid_tls_connector.Common.Text.{strip_prefix, trim}
use openid_tls_connector.Common.Text.Splits.{IsWithout, strip_prefix_iff, split_once_iff}
use openid_tls_connector.External.{Bytes, Codec}
use openid_tls_connector.Router.{Headers}
use openid_tls_connector.Router.Credentials.{basic_credentials, basic_payload, parse_basic_auth}

abbrev colon : Char
colon = ":"

abbrev lower_b : Char
lower_b = "b"

other_case : (p : String) → strip_prefix "Basic " (String.◌++◌ "basic " p) ≡ none
unfolding strip_prefix
other_case p = ap (strip_prefix "Basic ") (cons-append lower_b "asic " p)

module _ (x : Codec) (from_utf8 : Bytes → Option String) where
  -- The header is Basic, and its trimmed payload is the base64 of the identifier, a colon, and the
  -- secret; the identifier has no colon, the secret may.
  pub record IsBasic (headers : Headers) (id secret : String) : Type 0 where
    pub header : String
    pub payload : String
    pub bytes : Bytes
    pub present : headers "authorization" ≡ some header
    pub scheme : (header ≡ String.◌++◌ "Basic " payload) ⊎ (header ≡ String.◌++◌ "basic " payload)
    pub decoded : x.base64_standard_decode (trim payload) ≡ ok bytes
    pub text : from_utf8 bytes ≡ some (String.◌++◌ id (String.◌∷◌ colon secret))
    pub no_colon : IsWithout b':' id

  basic_credentials_iff :
      (encoded id secret : String)
      → (basic_credentials x from_utf8 encoded ≡ some (id, secret)) ↔ (
          (bytes : Bytes) × (x.base64_standard_decode encoded ≡ ok bytes)
          × (from_utf8 bytes ≡ some (String.◌++◌ id (String.◌∷◌ colon secret)))
          × IsWithout b':' id)
  unfolding basic_credentials
  basic_credentials_iff encoded id secret = (
    λ h. elim (Result-cases (x.base64_standard_decode encoded)) [
      | inr (e, p) ↦ absurd (ground arith)
      | inl (bytes, p) ↦ elim (Option-cases (from_utf8 bytes)) [
        | inl q ↦ absurd (ground arith)
        | inr (s, q) ↦
            let (shape, w) = (split_once_iff colon s id secret).0 (ground arith) in
            (bytes, p, q ∙ ap some shape, w)
      ]
    ],
    λ (bytes, p, q, w). ground (
      arith,
      (split_once_iff colon (String.◌++◌ id (String.◌∷◌ colon secret)) id secret).1 (refl, w),
    ),
  )

  basic_payload_iff :
      (header encoded : String)
      → (basic_payload x from_utf8 header ≡ some encoded) ↔ (
          (payload : String) × ((header ≡ String.◌++◌ "Basic " payload)
            ⊎ (header ≡ String.◌++◌ "basic " payload))
          × (trim payload ≡ encoded))
  unfolding basic_payload
  basic_payload_iff header encoded = (
    λ h. elim (Option-cases (strip_prefix "Basic " header)) [
      | inr (p, e) ↦ (p, inl ((strip_prefix_iff "Basic " header p).0 e), ground arith)
      | inl e ↦ elim (Option-cases (strip_prefix "basic " header)) [
        | inr (p, f) ↦ (p, inr ((strip_prefix_iff "basic " header p).0 f), ground arith)
        | inl f ↦ absurd (ground arith)
      ]
    ],
    λ (p, scheme, e). elim scheme [
      | inl s ↦ ground (arith, (strip_prefix_iff "Basic " header p).1 s)
      | inr s ↦
          let other : strip_prefix "Basic " header ≡ none = rw s (other_case p) in
          ground (arith, (strip_prefix_iff "basic " header p).1 s)
    ],
  )

  parsed-IsBasic :
      (headers : Headers) (id secret : String)
      → parse_basic_auth x from_utf8 headers ≡ (some id, some secret)
      → IsBasic headers id secret
  unfolding parse_basic_auth
  parsed-IsBasic headers id secret h = elim (Option-cases (headers "authorization")) [
    | inl p ↦ absurd (ground arith)
    | inr (header, p) ↦ elim (Option-cases (basic_payload x from_utf8 header)) [
      | inl q ↦ absurd (ground arith)
      | inr (encoded, q) ↦ elim (Option-cases (basic_credentials x from_utf8 encoded)) [
        | inl r ↦ absurd (ground arith)
        | inr ((i, s), r) ↦
            let (payload, scheme, trimmed) = (basic_payload_iff header encoded).0 q in
            let (bytes, decoded, text, no_colon) =
              (basic_credentials_iff encoded id secret).0 (ground arith) in
            record {
              header = header;
              payload = payload;
              bytes = bytes;
              present = p;
              scheme = scheme;
              decoded = ground arith;
              text = text;
              no_colon = no_colon;
            }
      ]
    ]
  ]

  IsBasic-parsed :
      (headers : Headers) (id secret : String)
      → IsBasic headers id secret
      → parse_basic_auth x from_utf8 headers ≡ (some id, some secret)
  unfolding parse_basic_auth
  IsBasic-parsed headers id secret b = ground (
    arith,
    (basic_payload_iff b.header (trim b.payload)).1 (b.payload, b.scheme, refl),
    (basic_credentials_iff (trim b.payload) id secret).1 (b.bytes, b.decoded, b.text, b.no_colon),
  )

  all_or_none :
      (headers : Headers)
      → (parse_basic_auth x from_utf8 headers ≡ (none, none))
        ⊎ ((i s : String) × (parse_basic_auth x from_utf8 headers ≡ (some i, some s)))
  unfolding parse_basic_auth
  all_or_none headers = elim (Option-cases (headers "authorization")) [
    | inl p ↦ inl (ground arith)
    | inr (header, p) ↦ elim (Option-cases (basic_payload x from_utf8 header)) [
      | inl q ↦ inl (ground arith)
      | inr (encoded, q) ↦ elim (Option-cases (basic_credentials x from_utf8 encoded)) [
        | inl r ↦ inl (ground arith)
        | inr ((i, s), r) ↦ inr (i, s, ground arith)
      ]
    ]
  ]

  -- The header gives both parts of the credentials or none: both exactly when it is Basic, its trimmed
  -- payload is base64 of UTF-8, and the text has a colon; the identifier ends at the first one, and
  -- the secret is all that follows.
  pub parse_basic_auth_iff :
      (headers : Headers) (id secret : String)
      → ((parse_basic_auth x from_utf8 headers ≡ (some id, some secret))
          ↔ IsBasic headers id secret)
        × ((parse_basic_auth x from_utf8 headers ≡ (none, none))
            ⊎ ((i s : String) × (parse_basic_auth x from_utf8 headers ≡ (some i, some s))))
  unfolding parse_basic_auth
  parse_basic_auth_iff headers id secret =
      ((parsed-IsBasic headers id secret, IsBasic-parsed headers id secret), all_or_none headers)
