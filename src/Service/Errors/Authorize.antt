-- ===== src/Service/Errors/Authorize.antt =====
-- The errors that `/authorize` ends with.
use Prim.Native.String.{◌++◌}
use openid_tls_connector.Common.{
  ◌==◌, ℕ, String, ◌≡◌, refl, inl, inr, Bool, true, false, List, Option, none, some, Result, ok,
  err, arith, Result-cases, Bool-cases, Option-cases, map_err, ok_or, ◌>>=◌,
}
use openid_tls_connector.External.{Codec}
use openid_tls_connector.Url.{UrlLib}
use openid_tls_connector.Client.{find_by_id, validate_redirect_uri}
use openid_tls_connector.Code.Timestamp.{SystemTime}
use openid_tls_connector.Code.Signature.{Cbor, sign_and_encode}
use openid_tls_connector.Token.{JwtLib}
use openid_tls_connector.Users
use openid_tls_connector.Users.{User, UserError, resolve}
use openid_tls_connector.Protocol.{
  AuthorizationRequest, Failure, error, panic, code_for, authorization_request,
}
use openid_tls_connector.Protocol.Errors.{
  OidcError, invalid_request, access_denied, unsupported_response_type, server_error,
  response_type_from_str,
}
use openid_tls_connector.Router.{AppState, AuthorizeParams, Headers}
use openid_tls_connector.Router.Authorize.{
  parse_method, checked, resolved, redirect_location, authorize_handler,
}
use openid_tls_connector.Service.Errors.{IsAuthorizeError}

along_authorize : {d e : OidcError} → d ≡ e → IsAuthorizeError d → IsAuthorizeError e
along_authorize p h = rw (← p) h

response_error :
    (s : String) (d : OidcError) → response_type_from_str s ≡ err d → IsAuthorizeError d
unfolding response_type_from_str
response_error s d h = elim (Bool-cases (s == "code")) [
  | inl e ↦ absurd (ground arith)
  | inr e ↦
      along_authorize {d = unsupported_response_type ("Unsupported response_type: " ++ s)}
        (ground arith) tt
]

method_error : (o : Option String) (d : OidcError) → parse_method o ≡ err d → IsAuthorizeError d
unfolding parse_method
method_error none d h = cc
method_error (some m) d h = elim (Bool-cases (m == "S256")) [
  | inl e ↦ absurd (ground arith)
  | inr e ↦ elim (Bool-cases (m == "plain")) [
    | inl f ↦ absurd (ground arith)
    | inr f ↦
        along_authorize {d = invalid_request ("Unsupported code_challenge_method: " ++ m)}
          (ground arith) tt
  ]
]

-- A failure that is an error of `/authorize`, or a panic.
abbrev IsAuthorizeFailure : Failure → Type 0
IsAuthorizeFailure (error e) = IsAuthorizeError e
IsAuthorizeFailure panic = Unit

mapped :
    {A : Type 0} (r : Result OidcError A) (f : Failure)
    → ((d : OidcError) → r ≡ err d → IsAuthorizeError d)
    → map_err error r ≡ err f
    → IsAuthorizeFailure f
mapped (ok a) f each h = cc
mapped (err d) f each h = let same : error d ≡ f = cc in rw (← same) (each d refl)

ok_or-eq-err {ℓ κ} :
    {E : Type ℓ} {A : Type κ} (o : Option A) (e : E) {d : E} → ok_or o e ≡ err d → e ≡ d
ok_or-eq-err none e h = cc
ok_or-eq-err (some a) e h = cc

ok_or-fails :
    {A : Type 0} (o : Option A) (d f : Failure)
    → IsAuthorizeFailure d
    → ok_or o d ≡ err f
    → IsAuthorizeFailure f
ok_or-fails o d f known h = rw (← (ok_or-eq-err o d h)) known

checked-fails :
    (b : Bool) (d f : Failure) → IsAuthorizeFailure d → checked b d ≡ err f → IsAuthorizeFailure f
checked-fails true d f known h = cc
checked-fails false d f known h = let same : d ≡ f = cc in rw (← same) known

resolved-fails :
    (o : Option (Result UserError User)) (f : Failure) → resolved o ≡ err f → IsAuthorizeFailure f
unfolding resolved
resolved-fails none f h = let same : panic ≡ f = cc in rw (← same) tt
resolved-fails (some (ok v)) f h = cc
resolved-fails (some (err e)) f h =
    let same : error (access_denied ("Failed to resolve user: " ++ Users.error_text e)) ≡ f = cc in
    rw (← same) tt

-- A chain fails in its first step or after it.
bind-fails :
    {A B : Type 0} (m : Result Failure A) (rest : A → Result Failure B) (f : Failure)
    → (m >>= rest) ≡ err f
    → (m ≡ err f → IsAuthorizeFailure f)
    → ((a : A) → rest a ≡ err f → IsAuthorizeFailure f)
    → IsAuthorizeFailure f
bind-fails (ok a) rest f h first after = after a h
bind-fails (err g) rest f h first after = first (cc)

module _ (x : Codec) (cbor : Cbor) (u : UrlLib) (table : ℕ → List ℕ) {j : JwtLib}
    (state : AppState j) (headers : Headers) (at_code at_sign : SystemTime)
    (params : AuthorizeParams) where
  location-fails :
      (encoded : String) (f : Failure)
      → redirect_location u params encoded ≡ err f
      → IsAuthorizeFailure f
  unfolding redirect_location
  location-fails encoded f h = elim (Result-cases (u.parse params.redirect_uri)) [
    | inr (e, p) ↦
        let same : error (server_error ("Invalid redirect_uri: " ++ e)) ≡ f = ground arith in
        rw (← same) tt
    | inl (uri, p) ↦ elim (Option-cases params.state) [
      | inl q ↦ absurd (ground arith)
      | inr (st, q) ↦ absurd (ground arith)
    ]
  ]

  signing-fails :
      (req : AuthorizationRequest) (f : Failure)
      → authorization_request x cbor state.flow at_code at_sign req ≡ err f
      → IsAuthorizeFailure f
  unfolding authorization_request
  signing-fails req f h =
      elim (Option-cases
        (sign_and_encode x cbor at_sign (code_for at_code req) state.flow.hmac_key)) [
          | inl e ↦ let same : panic ≡ f = ground arith in rw (← same) tt
          | inr (s, e) ↦ absurd (ground arith)
        ]

  authorize_handler-fails :
      (f : Failure)
      → authorize_handler x cbor u table state headers at_code at_sign params ≡ err f
      → IsAuthorizeFailure f
  unfolding authorize_handler
  authorize_handler-fails f h =
      bind-fails (map_err error (response_type_from_str params.response_type)) _ f h
        (mapped _ f (response_error params.response_type))
        λ _ h1.
          bind-fails (map_err error (parse_method params.code_challenge_method)) _ f h1
            (mapped _ f (method_error params.code_challenge_method))
            λ method h2.
              bind-fails (ok_or (find_by_id state.clients params.client_id) _) _ f h2
                (ok_or-fails _ _ f tt)
                λ client h3.
                  bind-fails
                    (checked
                      (validate_redirect_uri state.clients params.client_id params.redirect_uri) _)
                    _ f h3 (checked-fails _ _ f tt)
                    λ _ h4.
                      bind-fails (ok_or (headers state.user_header) _) _ f h4 (ok_or-fails _ _ f tt)
                        λ header h5.
                          bind-fails (resolved (resolve table state.user_manager header)) _ f h5
                            (resolved-fails _ f)
                            λ user h6.
                              bind-fails (authorization_request x cbor state.flow at_code at_sign _)
                                _ f h6 (signing-fails _ f) λ signed h7. location-fails signed.1 f h7

  -- `/authorize` ends in no other error.
  pub authorize_handler-IsAuthorizeError :
      (e : OidcError)
      → authorize_handler x cbor u table state headers at_code at_sign params ≡ err (error e)
      → IsAuthorizeError e
  authorize_handler-IsAuthorizeError e h = authorize_handler-fails (error e) h
