-- ===== src/Router/Credentials/Requests.antt =====
-- The request that `/token` makes of its header and body.
use openid_tls_connector.Common.{
  String, ◌≡◌, ◌↔◌, ◌⊎◌, inl, inr, Option, none, some, ok, arith, Option-cases, eq_iff, Bool-cases,
  ◌==◌,
}
use openid_tls_connector.External.{Bytes, Codec}
use openid_tls_connector.Protocol.{AccessTokenRequest}
use openid_tls_connector.Protocol.Errors.{grant_type_from_str}
use openid_tls_connector.Router.{TokenParams, Headers}
use openid_tls_connector.Router.Credentials.{parse_basic_auth, token_request}
use openid_tls_connector.Router.Credentials.Basic.{IsBasic, parse_basic_auth_iff}

module _ (x : Codec) (from_utf8 : Bytes → Option String) where
  -- The header gives no credentials: it is missing, of another scheme, or malformed.
  abbrev pub HasNoBasic : Headers → Type 0
  HasNoBasic headers = parse_basic_auth x from_utf8 headers ≡ (none, none)

  -- Whose identifier and secret the request has: those of the header, which leave the body's aside,
  -- or those of the body, where the header gives none.
  abbrev pub HasCredentials : Headers → TokenParams → AccessTokenRequest → Type 0
  HasCredentials headers params req =
      ((secret : String) × IsBasic x from_utf8 headers req.client_id secret
        × (req.client_secret ≡ some secret))
      ⊎ (HasNoBasic headers
          × (params.client_id ≡ some req.client_id)
          × (req.client_secret ≡ params.client_secret))

  pub record IsRequestOf (headers : Headers) (params : TokenParams) (req : AccessTokenRequest)
      : Type 0 where
    pub grant : params.grant_type ≡ "authorization_code"
    pub credentials : HasCredentials headers params req
    pub code : req.code ≡ params.code
    pub redirect_uri : req.redirect_uri ≡ params.redirect_uri
    pub code_verifier : req.code_verifier ≡ params.code_verifier

  module _ (headers : Headers) (params : TokenParams) (req : AccessTokenRequest) where
    made-IsRequestOf :
        token_request x from_utf8 headers params ≡ ok req → IsRequestOf headers params req
    unfolding token_request grant_type_from_str
    made-IsRequestOf h = elim (Bool-cases (params.grant_type == "authorization_code")) [
      | inr e ↦ absurd (ground arith)
      | inl e ↦
          let named = (eq_iff params.grant_type "authorization_code").0 e in
          elim (parse_basic_auth_iff x from_utf8 headers "" "").1 [
            | inl q ↦ elim (Option-cases params.client_id) [
              | inl r ↦ absurd (ground arith)
              | inr (i, r) ↦ record {
                grant = named;
                credentials = inr (q, ground arith, ground arith);
                code = ground arith;
                redirect_uri = ground arith;
                code_verifier = ground arith;
              }
            ]
            | inr (i, s, q) ↦ record {
              grant = named;
              credentials =
                  let same : i ≡ req.client_id = ground arith in
                  inl (
                    s,
                    (parse_basic_auth_iff x from_utf8 headers req.client_id s).0.0 (rw (← same) q),
                    ground arith,
                  );
              code = ground arith;
              redirect_uri = ground arith;
              code_verifier = ground arith;
            }
          ]
    ]

    IsRequestOf-made :
        IsRequestOf headers params req → token_request x from_utf8 headers params ≡ ok req
    unfolding token_request grant_type_from_str
    IsRequestOf-made m =
        let named = (eq_iff params.grant_type "authorization_code").1 m.grant in
        elim m.credentials [
          | inl (s, b, p) ↦
              let basic = (parse_basic_auth_iff x from_utf8 headers req.client_id s).0.1 b in
              ground arith
          | inr (q, i, p) ↦ ground arith
        ]

  -- A token request is made of header and body exactly when the grant type is "authorization_code" and
  -- the header or the body has an identifier: the identifier and the secret are those of a well-formed
  -- Basic header, whatever the body has, and else the body's.
  pub token_request_iff :
      (headers : Headers) (params : TokenParams) (req : AccessTokenRequest)
      → (token_request x from_utf8 headers params ≡ ok req) ↔ IsRequestOf headers params req
  token_request_iff headers params req =
      (made-IsRequestOf headers params req, IsRequestOf-made headers params req)
