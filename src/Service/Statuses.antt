-- ===== src/Service/Statuses.antt =====
-- The statuses of the answers.
use mathlib.Core.List.{Memᴰ}
use openid_tls_connector.Common.{
  ℕ, String, ◌≡◌, ◌≢◌, refl, ap, inl, inr, List, [], ◌∷◌, Option, Result, ok, err, arith,
  Result-cases, Option-cases,
}
use openid_tls_connector.Common.Text.{strip_prefix}
use openid_tls_connector.External.{Bytes, Codec}
use openid_tls_connector.Url.{UrlLib}
use openid_tls_connector.Code.Signature.{Cbor}
use openid_tls_connector.Code.Timestamp.{SystemTime}
use openid_tls_connector.Storage.{TokenStore}
use openid_tls_connector.Token.{JwtLib, verify_access_token}
use openid_tls_connector.Protocol.{Failure, error, panic, Readings, TokenResponse}
use openid_tls_connector.Protocol.Errors.{
  OidcError, invalid_request, unauthorized_client, access_denied, unsupported_response_type,
  invalid_scope, invalid_grant, invalid_client, server_error, temporarily_unavailable, error_code,
}
use openid_tls_connector.Router.{
  AppState, AuthorizeParams, TokenParams, ErrorResponse, Headers, into_response, status_for_error,
}
use openid_tls_connector.Router.Authorize.{authorize_handler}
use openid_tls_connector.Router.Credentials.{token_handler}
use openid_tls_connector.Router.Bearer.{
  UserInfo, userinfo_handler, verify_bearer_token, unauthenticated_error,
}
use openid_tls_connector.Service.{
  Request, get_discovery, get_jwks, get_authorize, post_token, get_userinfo, Response, failure,
  redirect, tokens, response_of, userinfo_response, handle,
}
use openid_tls_connector.Service.Errors.{IsTokenError, IsAuthorizeError, token_handler-IsTokenError}
use openid_tls_connector.Service.Errors.Authorize.{authorize_handler-IsAuthorizeError}

-- The statuses and the codes of the errors that each endpoint answers with.
abbrev pub failures_of : Request → List (ℕ × String)
failures_of get_discovery = []
failures_of get_jwks = []
failures_of (get_authorize headers at_code at_sign params) =
    (400, "invalid_request")
    ∷ (400, "unsupported_response_type")
    ∷ (400, "unauthorized_client")
    ∷ (403, "access_denied")
    ∷ (500, "server_error")
    ∷ []
failures_of (post_token headers env params) =
    (400, "invalid_request")
    ∷ (400, "invalid_grant")
    ∷ (401, "invalid_client")
    ∷ (500, "server_error")
    ∷ []
failures_of (get_userinfo headers now) = (401, "invalid_token") ∷ []

-- The status and the code of an answer.
abbrev pub summary : ℕ × ErrorResponse → ℕ × String
summary r = (r.0, r.1.error)

token_summary :
    (headers : Headers) (env : Readings) (params : TokenParams) (e : OidcError)
    → IsTokenError e
    → Memᴰ (summary (into_response e)) (failures_of (post_token headers env params))
unfolding into_response status_for_error error_code
token_summary headers env params (invalid_request m) k = Memᴰ.head refl
token_summary headers env params (invalid_grant m) k = Memᴰ.tail (Memᴰ.head refl)
token_summary headers env params (invalid_client m) k = Memᴰ.tail (Memᴰ.tail (Memᴰ.head refl))
token_summary headers env params (server_error m) k =
    Memᴰ.tail (Memᴰ.tail (Memᴰ.tail (Memᴰ.head refl)))
token_summary headers env params (unauthorized_client m) k = elim k [ ]
token_summary headers env params (access_denied m) k = elim k [ ]
token_summary headers env params (unsupported_response_type m) k = elim k [ ]
token_summary headers env params (invalid_scope m) k = elim k [ ]
token_summary headers env params (temporarily_unavailable m) k = elim k [ ]

authorize_summary :
    (headers : Headers) (at_code at_sign : SystemTime) (params : AuthorizeParams) (e : OidcError)
    → IsAuthorizeError e
    → Memᴰ (summary (into_response e)) (failures_of (get_authorize headers at_code at_sign params))
unfolding into_response status_for_error error_code
authorize_summary headers a b params (invalid_request m) k = Memᴰ.head refl
authorize_summary headers a b params (unsupported_response_type m) k = Memᴰ.tail (Memᴰ.head refl)
authorize_summary headers a b params (unauthorized_client m) k =
    Memᴰ.tail (Memᴰ.tail (Memᴰ.head refl))
authorize_summary headers a b params (access_denied m) k =
    Memᴰ.tail (Memᴰ.tail (Memᴰ.tail (Memᴰ.head refl)))
authorize_summary headers a b params (server_error m) k =
    Memᴰ.tail (Memᴰ.tail (Memᴰ.tail (Memᴰ.tail (Memᴰ.head refl))))
authorize_summary headers a b params (invalid_grant m) k = elim k [ ]
authorize_summary headers a b params (invalid_client m) k = elim k [ ]
authorize_summary headers a b params (invalid_scope m) k = elim k [ ]
authorize_summary headers a b params (temporarily_unavailable m) k = elim k [ ]

module _ {j : JwtLib} {S : Type 0} (t : TokenStore S) (state : AppState j) (now : SystemTime)
    (headers : Headers) where
  userinfo_failure :
      (s : S) (r : ℕ × ErrorResponse)
      → userinfo_handler t state now headers s ≡ err r
      → summary r ≡ (401, "invalid_token")
  unfolding userinfo_handler verify_bearer_token unauthenticated_error
  userinfo_failure s r h = elim (Option-cases (headers "authorization")) [
    | inl e ↦ ground arith
    | inr (header, e) ↦ elim (Option-cases (strip_prefix "Bearer " header)) [
      | inl p ↦ ground arith
      | inr (bearer, p) ↦ elim (Result-cases (verify_access_token j state.jwt_issuer now bearer)) [
        | inr (f, q) ↦ ground arith
        | inl (c, q) ↦ elim (Option-cases (t.lookup s c.jti)) [
          | inl v ↦ ground arith
          | inr (found, v) ↦ absurd (ground arith)
        ]
      ]
    ]
  ]

-- How the failures of a result become answers.
response_of-failure {ℓ} :
    {A : Type ℓ} (f : A → Response) (r : Result Failure A) (body : ℕ × ErrorResponse)
    → ((a : A) → f a ≢ failure body)
    → response_of f r ≡ failure body
    → (e : OidcError) × (r ≡ err (error e)) × (into_response e ≡ body)
response_of-failure f (ok a) body apart h = absurd (apart a h)
response_of-failure f (err (error e)) body apart h = (e, refl, cc)
response_of-failure f (err panic) body apart h = cc

userinfo_response-failure :
    (r : Result (ℕ × ErrorResponse) UserInfo) (body : ℕ × ErrorResponse)
    → userinfo_response r ≡ failure body
    → r ≡ err body
userinfo_response-failure (ok i) body h = cc
userinfo_response-failure (err e) body h = cc

module _ (x : Codec) (cbor : Cbor) (u : UrlLib) (table : ℕ → List ℕ)
    (from_utf8 : Bytes → Option String) {j : JwtLib} {S : Type 0} (t : TokenStore S)
    (state : AppState j) where
  -- The handler of each endpoint, once it is called, fails with the statuses and error codes of its
  -- own list only: `/authorize` with 400, 403 and 500, also without the header of the certificate,
  -- `/token` with 400, with 401 for `invalid_client` alone, and with 500, `/userinfo` with 401 and
  -- `invalid_token`; the handlers of the discovery document and the keys never fail.
  pub handle_failures :
      (q : Request) (s : S) (body : ℕ × ErrorResponse)
      → (handle x cbor u table from_utf8 t state q s).1 ≡ failure body
      → Memᴰ (summary body) (failures_of q)
  unfolding handle
  handle_failures get_discovery s body h = cc
  handle_failures get_jwks s body h = cc
  handle_failures (get_authorize headers at_code at_sign params) s body h =
      let (e, failed, answer) =
        response_of-failure redirect
          (authorize_handler x cbor u table state headers at_code at_sign params) body (λ a p. cc)
          h in
      rw (← answer) (
        authorize_summary headers at_code at_sign params e (
          authorize_handler-IsAuthorizeError x cbor u table state headers at_code at_sign params e
            failed))
  handle_failures (post_token headers env params) s body h =
      let (e, failed, answer) =
        response_of-failure tokens (token_handler x from_utf8 cbor t state headers env params s).1
          body (λ a p. cc) h in
      let whole : token_handler x from_utf8 cbor t state headers env params s
          ≡ ((token_handler x from_utf8 cbor t state headers env params s).0, err (error e)) =
        ap
          (λ (r : Result Failure TokenResponse).
            ((token_handler x from_utf8 cbor t state headers env params s).0, r))
          failed in
      rw (← answer) (
        token_summary headers env params e
          (token_handler-IsTokenError x from_utf8 cbor t state headers env s params _ e whole))
  handle_failures (get_userinfo headers now) s body h =
      Memᴰ.head (userinfo_failure t state now headers s body (userinfo_response-failure _ body h))
