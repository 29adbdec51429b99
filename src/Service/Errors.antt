-- ===== src/Service/Errors.antt =====
-- The errors that `/token` and `/authorize` can end with; those of `/authorize` are looked at in
-- Errors/Authorize.
pub mod Authorize
use Prim.Native.String.{◌++◌}
use openid_tls_connector.Common.{
  ◌==◌, ℕ, String, ◌≡◌, refl, inl, inr, Bool, true, false, List, Option, none, some, Result, ok,
  err, arith, Result-cases, Bool-cases, Option-cases, >>=-eq-err, map_err, ok_or, ◌>>=◌,
}
use openid_tls_connector.External.{Bytes, Codec}
use openid_tls_connector.Url.{UrlLib}
use openid_tls_connector.Client.{find_by_id, validate_redirect_uri, validate_client_secret}
use openid_tls_connector.Code.Timestamp.{SystemTime}
use openid_tls_connector.Code.AuthorizationCode.{validate_token_request, TokenRequestError}
use openid_tls_connector.Code.Signature.{
  Cbor, decode_and_verify, AuthorizationCodeVerificationError, invalid_timestamp, invalid_signature,
  invalid_base64_encoding, invalid_signed_data_container_encoding, sign_and_encode,
}
use openid_tls_connector.Storage.{TokenStore}
use openid_tls_connector.Token.{JwtLib}
use openid_tls_connector.Users
use openid_tls_connector.Users.{User, UserError, resolve}
use openid_tls_connector.Protocol.{
  AccessTokenRequest, TokenIssueContext, OidcAuthCodePkceFlow, AuthorizationRequest, Readings,
  Failure, error, panic, code_for, authorization_request, check_request,
}
use openid_tls_connector.Protocol.Errors.{
  OidcError, invalid_request, unauthorized_client, access_denied, unsupported_response_type,
  invalid_scope, invalid_grant, invalid_client, server_error, temporarily_unavailable,
  map_code_verification_error, map_token_request_error, response_type_from_str, grant_type_from_str,
}
use openid_tls_connector.Protocol.Effect.{
  Effect, refused, replayed, failed, access_token_request-Effect,
}
use openid_tls_connector.Protocol.Refusals.{AuthResult-cases}
use openid_tls_connector.Router.{AppState, AuthorizeParams, TokenParams, Headers, token_context}
use openid_tls_connector.Router.Authorize.{
  parse_method, checked, resolved, redirect_location, authorize_handler,
}
use openid_tls_connector.Router.Credentials.{
  or_else, parse_basic_auth, token_request, token_handler,
}

-- The errors of `/token`.
abbrev pub IsTokenError : OidcError → Type 0
IsTokenError (invalid_request m) = Unit
IsTokenError (invalid_grant m) = Unit
IsTokenError (invalid_client m) = Unit
IsTokenError (server_error m) = Unit
IsTokenError (unauthorized_client m) = ⊥
IsTokenError (access_denied m) = ⊥
IsTokenError (unsupported_response_type m) = ⊥
IsTokenError (invalid_scope m) = ⊥
IsTokenError (temporarily_unavailable m) = ⊥

-- The errors of `/authorize`.
abbrev pub IsAuthorizeError : OidcError → Type 0
IsAuthorizeError (invalid_request m) = Unit
IsAuthorizeError (unsupported_response_type m) = Unit
IsAuthorizeError (unauthorized_client m) = Unit
IsAuthorizeError (access_denied m) = Unit
IsAuthorizeError (server_error m) = Unit
IsAuthorizeError (invalid_grant m) = ⊥
IsAuthorizeError (invalid_client m) = ⊥
IsAuthorizeError (invalid_scope m) = ⊥
IsAuthorizeError (temporarily_unavailable m) = ⊥

code_error : (e : AuthorizationCodeVerificationError) → IsTokenError (map_code_verification_error e)
unfolding map_code_verification_error
code_error (invalid_timestamp t) = tt
code_error invalid_signature = tt
code_error (invalid_base64_encoding t) = tt
code_error (invalid_signed_data_container_encoding t) = tt

request_error : (e : TokenRequestError) → IsTokenError (map_token_request_error e)
unfolding map_token_request_error
request_error e = tt

-- An error that is one of them is one however it is named.
along : {d e : OidcError} → d ≡ e → IsTokenError d → IsTokenError e
along p h = rw (← p) h

grant_error : (s : String) (d : OidcError) → grant_type_from_str s ≡ err d → IsTokenError d
unfolding grant_type_from_str
grant_error s d h = elim (Bool-cases (s == "authorization_code")) [
  | inl e ↦ absurd (ground arith)
  | inr e ↦ along {d = invalid_request ("Unsupported grant_type: " ++ s)} (ground arith) tt
]

module _ (x : Codec) (cbor : Cbor) {j : JwtLib} (flow : OidcAuthCodePkceFlow)
    (ctx : TokenIssueContext j) (now : SystemTime) (req : AccessTokenRequest) where
  check_request-IsTokenError :
      (e : OidcError) → check_request x cbor j flow ctx now req ≡ err e → IsTokenError e
  unfolding check_request
  check_request-IsTokenError e h =
      elim (Result-cases (decode_and_verify x cbor now req.code flow.hmac_key flow.code_max_age)) [
        | inr (d, stopped) ↦ along (ground arith) (code_error d)
        | inl (c, decoded) ↦
            elim (Result-cases
              (validate_token_request x c req.client_id req.redirect_uri req.code_verifier)) [
                | inr (d, stopped) ↦ along (ground arith) (request_error d)
                | inl (_, valid) ↦
                    elim (Bool-cases
                      (validate_redirect_uri ctx.clients req.client_id req.redirect_uri)) [
                        | inr unlisted ↦
                            along {d = invalid_grant "Invalid redirect_uri for this client"}
                              (ground arith) tt
                        | inl listed ↦
                            elim (AuthResult-cases (
                              validate_client_secret ctx.clients req.client_id req.client_secret)) [
                                | inl a ↦ absurd (ground arith)
                                | inr d ↦
                                    along {d = invalid_client "Client authentication failed"}
                                      (ground arith) tt
                              ]
                      ]
              ]
      ]

module _ (x : Codec) (from_utf8 : Bytes → Option String) (cbor : Cbor) {j : JwtLib} {S : Type 0}
    (t : TokenStore S) (state : AppState j) (headers : Headers) (env : Readings) (s : S) where
  Effect-IsTokenError :
      (req : AccessTokenRequest) {s' : S} {e : OidcError}
      → Effect x cbor j t state.flow (token_context state) env req s s' (err (error e))
      → IsTokenError e
  Effect-IsTokenError req (refused e c) =
      check_request-IsTokenError x cbor state.flow (token_context state) env.at_verify req e c
  Effect-IsTokenError req (replayed code c b) = tt
  Effect-IsTokenError req (failed code f c b (inl p)) = absurd (ground arith)
  Effect-IsTokenError req (failed code f c b (inr (m, p))) =
      along {d = server_error m} (ground arith) tt

  made :
      (params : TokenParams) (d : OidcError)
      → token_request x from_utf8 headers params ≡ err d
      → IsTokenError d
  unfolding token_request
  made params d h = elim (>>=-eq-err (grant_type_from_str params.grant_type) _ h) [
    | inl p ↦ grant_error params.grant_type d p
    | inr (g, p, h1) ↦
        elim (Option-cases (or_else (parse_basic_auth x from_utf8 headers).0 params.client_id)) [
          | inl q ↦ along {d = invalid_request "Missing client_id"} (ground arith) tt
          | inr (i, q) ↦ absurd (ground arith)
        ]
  ]

  -- `/token` ends in no other error.
  pub token_handler-IsTokenError :
      (params : TokenParams) (s' : S) (e : OidcError)
      → token_handler x from_utf8 cbor t state headers env params s ≡ (s', err (error e))
      → IsTokenError e
  unfolding token_handler
  token_handler-IsTokenError params s' e h =
      elim (Result-cases (token_request x from_utf8 headers params)) [
        | inr (d, p) ↦ along (ground arith) (made params d p)
        | inl (req, p) ↦ Effect-IsTokenError req (
            access_token_request-Effect x cbor j t state.flow (token_context state) env req s s'
              (err (error e)) (ground arith))
      ]
