-- ===== src/Tests/Handlers.antt =====
-- Runs of the HTTP handlers.
use mathlib.Core.List.{Memᴰ}
use openid_tls_connector.Common.{
  ℕ, String, ◌⊎◌, ◌≡◌, refl, inl, inr, List, [], ◌∷◌, none, some, ok, err, arith, ◌==◌,
  if◌then◌else◌,
}
use openid_tls_connector.Common.Text.{split_once, strip_prefix, trim}
use openid_tls_connector.Client.{find_by_id}
use openid_tls_connector.Code.Pkce.{plain}
use openid_tls_connector.Code.Signature.{sign_and_encode}
use openid_tls_connector.Code.Timestamp
use openid_tls_connector.Storage.{in_memory}
use openid_tls_connector.Storage.InMemory.{is_consumed, in_memory-Contract}
use openid_tls_connector.Token.{
  now_secs, from_pem, issue_id_token, verify_id_token, id_token_claims,
}
use openid_tls_connector.Token.Published.{MakesPairs, SignedUnder, claims_of, from_pem_signs}
use openid_tls_connector.Protocol.{check_request, code_for, error}
use openid_tls_connector.Protocol.Errors.{invalid_request}
use openid_tls_connector.Protocol.Jti.{random_jti}
use openid_tls_connector.Router.{AuthorizeParams, TokenParams, Headers, token_context}
use openid_tls_connector.Router.Authorize.{authorize_handler}
use openid_tls_connector.Router.Authorize.Accepted.{IsAccepted, authorize_handler_iff}
use openid_tls_connector.Router.Authorize.Redemption.{redemption_iff}
use openid_tls_connector.Router.Bearer.{userinfo_handler, unauthenticated_error}
use openid_tls_connector.Router.Bearer.Lifecycle.{granted_userinfo}
use openid_tls_connector.Router.Credentials.{
  basic_payload, basic_credentials, parse_basic_auth, token_request, token_handler,
}
use openid_tls_connector.Router.Credentials.Basic.{IsBasic, parse_basic_auth_iff}
use openid_tls_connector.Router.Credentials.Requests.{token_request_iff}
use openid_tls_connector.Router.Credentials.Fallback.{HasNoCredentials, token_handler_fallback}
use openid_tls_connector.Users.{
  User, resolve, extract_dn_attribute, find_attribute, to_uppercase, resolve_groups,
}
use openid_tls_connector.Users.Split.{parts}
use openid_tls_connector.Users.Refine.{split_rdns_lem}
use openid_tls_connector.Code.AuthorizationCode.{AuthorizationCode}
use openid_tls_connector.Tests.Samples.{
  codec, cbor, url_lib, jwt_lib, jwt_issuer, from_utf8, state, app, empty_store, readings, now,
  issued_at, sample_code, access_claims, id_claims, jti,
}
use openid_tls_connector.Tests.Samples
use openid_tls_connector.Tests.Laws.{keys-IsKeyPair}
use openid_tls_connector.Tests.Codes.{code-ReadsBack}
use openid_tls_connector.Tests.Flow.{after, grant_runs, response}

jwt_lib-MakesPairs : MakesPairs jwt_lib
jwt_lib-MakesPairs key der pem ek d p e = keys-IsKeyPair

from_pem_signs_example :
    (verify_id_token jwt_lib jwt_issuer now "id" "app"
      ≡ ok (claims_of jwt_lib "https://id" now "ann" "app" [] none state.id_token_ttl))
    × (key : List ℕ) × (jwt_lib.from_pkcs8_pem "pem" ≡ ok key)
    × SignedUnder jwt_lib codec jwt_issuer key
        (claims_of jwt_lib "https://id" now "ann" "app" [] none state.id_token_ttl)
        "id"
unfolding from_pem issue_id_token id_token_claims now_secs
from_pem_signs_example =
    from_pem_signs jwt_lib jwt_lib-MakesPairs codec "pem" "https://id" jwt_issuer refl now now "ann"
      "app" [] none state.id_token_ttl "id" refl (omega arith)

abbrev pub basic_headers : Headers
basic_headers name = if name == "authorization" then some "Basic YXBwOnM6MQ==" else none

abbrev pub token_params : TokenParams
token_params = record {
  grant_type = "authorization_code";
  code = "signed";
  redirect_uri = "https://app/cb";
  code_verifier = some "verifier";
  client_id = none;
  client_secret = none;
}

pub basic_runs : parse_basic_auth codec from_utf8 basic_headers ≡ (some "app", some "s:1")
unfolding parse_basic_auth strip_prefix trim split_once basic_payload basic_credentials
basic_runs = refl

parse_basic_auth_iff_example : IsBasic codec from_utf8 basic_headers "app" "s:1"
parse_basic_auth_iff_example =
    (parse_basic_auth_iff codec from_utf8 basic_headers "app" "s:1").0.0 basic_runs

token_request_iff_example :
    token_request codec from_utf8 basic_headers token_params ≡ ok Samples.request
token_request_iff_example =
    (token_request_iff codec from_utf8 basic_headers token_params Samples.request).1 (record {
      grant = refl;
      credentials = inl ("s:1", parse_basic_auth_iff_example, refl);
      code = refl;
      redirect_uri = refl;
      code_verifier = refl;
    })

abbrev pub cert_headers : Headers
cert_headers name = if name == "X-Client-Cert-Subject" then some "CN=ann" else none

-- A Basic header whose payload is not base64.
abbrev malformed : Headers
malformed name = if name == "authorization" then some "Basic !" else none

malformed_bare : HasNoCredentials codec from_utf8 malformed
unfolding parse_basic_auth strip_prefix trim basic_payload basic_credentials
malformed_bare id secret b = cc ((parse_basic_auth_iff codec from_utf8 malformed id secret).0.1 b)

token_handler_fallback_example :
    (token_handler codec from_utf8 cbor in_memory state malformed readings token_params empty_store
      ≡ token_handler codec from_utf8 cbor in_memory state cert_headers readings token_params
          empty_store)
    × (((id : String) × (token_params.client_id ≡ some id))
        ⊎ ((m : String) × (token_handler codec from_utf8 cbor in_memory state malformed readings
                token_params empty_store
              ≡ (empty_store, err (error (invalid_request m))))))
token_handler_fallback_example =
    token_handler_fallback codec from_utf8 cbor in_memory state readings token_params empty_store
      malformed cert_headers malformed_bare refl

abbrev pub identity : ℕ → List ℕ
identity n = n ∷ []

abbrev pub authorize_params : AuthorizeParams
authorize_params = record {
  response_type = "code";
  client_id = "app";
  redirect_uri = "https://app/cb";
  scope = none;
  state = some "xyz";
  code_challenge = some "verifier";
  code_challenge_method = none;
  nonce = none;
}

abbrev pub ann : User
ann = record { subject = "ann"; raw_dn = "CN=ann" }

pub ann_resolved : resolve identity state.user_manager "CN=ann" ≡ some (ok ann)
unfolding resolve extract_dn_attribute find_attribute trim split_once parts to_uppercase
ann_resolved = rw (resolve, extract_dn_attribute, split_rdns_lem "CN=ann")

unfoldable pub accepted :
    IsAccepted codec cbor url_lib identity state cert_headers issued_at issued_at authorize_params
      "https://app/cb"
unfolding find_by_id sign_and_encode Timestamp.new code_for resolve_groups
accepted = record {
  asks_code = refl;
  method = plain;
  names_method = refl;
  client = app;
  registered = refl;
  listed = Memᴰ.head refl;
  header_value = "CN=ann";
  present = refl;
  user = ann;
  identified = ann_resolved;
  encoded = "signed";
  signed = refl;
  uri = "https://app/cb";
  parsed = refl;
  redirected = refl;
}

authorize_handler_iff_example :
    authorize_handler codec cbor url_lib identity state cert_headers issued_at issued_at
      authorize_params
    ≡ ok "https://app/cb"
authorize_handler_iff_example =
    (authorize_handler_iff codec cbor url_lib identity state cert_headers issued_at issued_at
        authorize_params "https://app/cb").1
      accepted

redemption_iff_example :
    check_request codec cbor jwt_lib state.flow (token_context state) now Samples.request
    ≡ ok sample_code
unfolding accepted code_for resolve_groups
redemption_iff_example =
    (redemption_iff codec cbor url_lib identity state cert_headers issued_at issued_at
        authorize_params "https://app/cb" accepted code-ReadsBack now Samples.request refl
        sample_code).1
      (
        refl,
        record {
          not_early = omega arith;
          not_late = omega arith;
          same_client = refl;
          same_uri = refl;
          answered = ("verifier", refl, refl);
          authenticated = inr ("s:1", refl, refl);
        },
      )

abbrev pub bearer_headers : Headers
bearer_headers name = if name == "authorization" then some "Bearer access" else none

granted_userinfo_example :
    (code : AuthorizationCode) × (check_request codec cbor jwt_lib state.flow
        (token_context state)
        now
        Samples.request
      ≡ ok code)
    × (userinfo_handler in_memory state now bearer_headers after
        ≡ ok (record {
          sub = code.subject;
          groups = code.groups;
          scope = code.scope;
          client_id = "app";
        }))
    × (userinfo_handler in_memory state now bearer_headers
          (in_memory.revoke after (random_jti readings.random)).0
        ≡ err (unauthenticated_error "Token has been revoked or is unknown"))
unfolding now_secs
granted_userinfo_example =
    granted_userinfo codec cbor in_memory is_consumed in_memory-Contract state keys-IsKeyPair
      readings Samples.request empty_store after response grant_runs now bearer_headers refl
      (omega arith)
