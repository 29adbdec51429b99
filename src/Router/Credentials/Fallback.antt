-- ===== src/Router/Credentials/Fallback.antt =====
-- What `/token` does where the header gives no credentials.
use Prim.Native.String.{◌++◌}
use openid_tls_connector.Common.{
  String, ◌≡◌, sym, ◌∙◌, ◌⊎◌, inl, inr, Option, none, some, err, arith, ◌==◌, Option-cases,
  Bool-cases,
}
use openid_tls_connector.External.{Bytes, Codec}
use openid_tls_connector.Code.Signature.{Cbor}
use openid_tls_connector.Storage.{TokenStore}
use openid_tls_connector.Token.{JwtLib}
use openid_tls_connector.Protocol.{Readings, error}
use openid_tls_connector.Protocol.Errors.{invalid_request, grant_type_from_str}
use openid_tls_connector.Router.{AppState, TokenParams, Headers}
use openid_tls_connector.Router.Credentials.{parse_basic_auth, token_request, token_handler}
use openid_tls_connector.Router.Credentials.Basic.{IsBasic, parse_basic_auth_iff}

module _ (x : Codec) (from_utf8 : Bytes → Option String) where
  -- The header has no well-formed Basic credentials: it is missing, of another scheme, or its payload
  -- is not the base64 of a text with a colon.
  abbrev pub HasNoCredentials : Headers → Type 0
  HasNoCredentials headers = (id secret : String) → ¬ IsBasic x from_utf8 headers id secret

  missing-HasNoCredentials :
      (headers : Headers) → headers "authorization" ≡ none → HasNoCredentials headers
  missing-HasNoCredentials headers h id secret b = cc (sym h ∙ b.present)

  parse_basic_auth-none :
      (headers : Headers)
      → HasNoCredentials headers
      → parse_basic_auth x from_utf8 headers ≡ (none, none)
  parse_basic_auth-none headers bare = elim (parse_basic_auth_iff x from_utf8 headers "" "").1 [
    | inl e ↦ e
    | inr (i, s, e) ↦ absurd (bare i s ((parse_basic_auth_iff x from_utf8 headers i s).0.0 e))
  ]

  module _ (cbor : Cbor) {j : JwtLib} {S : Type 0} (t : TokenStore S) (state : AppState j)
      (env : Readings) (params : TokenParams) (s : S) where
    without_id :
        (headers : Headers)
        → parse_basic_auth x from_utf8 headers ≡ (none, none)
        → params.client_id ≡ none
        → (m : String) × (token_handler x from_utf8 cbor t state headers env params s
            ≡ (s, err (error (invalid_request m))))
    unfolding token_handler token_request grant_type_from_str
    without_id headers h n = elim (Bool-cases (params.grant_type == "authorization_code")) [
      | inl e ↦ ("Missing client_id", ground arith)
      | inr e ↦ ("Unsupported grant_type: " ++ params.grant_type, ground arith)
    ]

    -- A header without well-formed Basic credentials, also a malformed Basic header, changes nothing:
    -- `/token` gives the answer, and leaves the store, that it does without the header; and without
    -- an identifier in the body this is `invalid_request` and the store as it was.
    pub token_handler_fallback :
        (headers missing : Headers)
        → HasNoCredentials headers
        → missing "authorization" ≡ none
        → (token_handler x from_utf8 cbor t state headers env params s
            ≡ token_handler x from_utf8 cbor t state missing env params s)
          × (((id : String) × (params.client_id ≡ some id))
              ⊎ ((m : String) × (token_handler x from_utf8 cbor t state headers env params s
                    ≡ (s, err (error (invalid_request m))))))
    unfolding token_handler token_request
    token_handler_fallback headers missing bare h =
        let first = parse_basic_auth-none headers bare in
        let second = parse_basic_auth-none missing (missing-HasNoCredentials missing h) in
        (
          ground arith,
          elim (Option-cases params.client_id) [
            | inl n ↦ inr (without_id headers first n)
            | inr i ↦ inl i
          ],
        )
