-- ===== src/Router/Authorize/Accepted.antt =====
-- When `/authorize` redirects with a code, and where to.
use mathlib.Core.List.{Memᴰ}
use openid_tls_connector.Common.{
  ℕ, String, ◌≡◌, ◌↔◌, inl, inr, List, some, ok, ◌>>=◌, map_err, ok_or, >>=-eq-ok, map_err-eq-ok,
  arith, Option-cases,
}
use openid_tls_connector.External.{Codec}
use openid_tls_connector.Url.{UrlLib}
use openid_tls_connector.Client.{ClientConfig, find_by_id, validate_redirect_uri}
use openid_tls_connector.Client.Registry.{validate_redirect_uri_iff}
use openid_tls_connector.Code.Pkce.{CodeChallengeMethod}
use openid_tls_connector.Code.Timestamp.{SystemTime}
use openid_tls_connector.Code.Signature.{Cbor, sign_and_encode}
use openid_tls_connector.Token.{JwtLib}
use openid_tls_connector.Users.{User, resolve, resolve_groups}
use openid_tls_connector.Protocol.{AuthorizationRequest, error, code_for, authorization_request}
use openid_tls_connector.Protocol.Errors.{response_type_from_str}
use openid_tls_connector.Router.{AppState, AuthorizeParams, Headers}
use openid_tls_connector.Router.Authorize.{
  parse_method, scope_list, checked, resolved, redirect_location, authorize_handler,
}
use openid_tls_connector.Router.Authorize.Steps.{
  NamesMethod, location_for, parse_method_iff, response_type_iff, ok_or-eq-ok, checked-true, unique,
  only_code, resolved-eq-ok, redirect_location_iff,
}

module _ (x : Codec) (cbor : Cbor) (u : UrlLib) (table : ℕ → List ℕ) {j : JwtLib} where
  -- What the handler asks the flow for.
  abbrev pub request_for :
      AppState j
      → AuthorizeParams
      → CodeChallengeMethod
      → ClientConfig
      → User
      → AuthorizationRequest
  request_for state params method client user = record {
    client_id = params.client_id;
    redirect_uri = params.redirect_uri;
    code_challenge = params.code_challenge;
    code_challenge_method = method;
    subject = user.subject;
    nonce = params.nonce;
    groups = resolve_groups client.groups state.default_groups;
    scope = scope_list params.scope;
  }

  -- A request that is answered with a code: it asks for one, names a known method or none, comes from
  -- a registered client that lists the redirect URI, and its header names a user. The location holds
  -- the signed code for just this request.
  pub record IsAccepted (state : AppState j) (headers : Headers) (at_code at_sign : SystemTime)
      (params : AuthorizeParams) (location : String) : Type 0 where
    pub asks_code : params.response_type ≡ "code"
    pub method : CodeChallengeMethod
    pub names_method : NamesMethod params.code_challenge_method method
    pub client : ClientConfig
    pub registered : find_by_id state.clients params.client_id ≡ some client
    pub listed : Memᴰ params.redirect_uri client.redirect_uris
    pub header_value : String
    pub present : headers state.user_header ≡ some header_value
    pub user : User
    pub identified : resolve table state.user_manager header_value ≡ some (ok user)
    pub encoded : String
    pub signed :
        sign_and_encode x cbor at_sign
          (code_for at_code (request_for state params method client user))
          state.flow.hmac_key
        ≡ some encoded
    pub uri : u.Url
    pub parsed : u.parse params.redirect_uri ≡ ok uri
    pub redirected : location ≡ location_for u uri encoded params.state

  module _ (state : AppState j) (headers : Headers) (at_code at_sign : SystemTime)
      (params : AuthorizeParams) (location : String) where
    abbrev Finish : (request : AuthorizationRequest) → Type 0
    Finish request =
        (encoded : String) × (sign_and_encode x cbor at_sign (code_for at_code request)
            state.flow.hmac_key
          ≡ some encoded)
        × (redirect_location u params encoded ≡ ok location)

    -- The handler after the user is known.
    answered_parts :
        (request : AuthorizationRequest)
        → (authorization_request x cbor state.flow at_code at_sign request >>= λ signed.
            redirect_location u params signed.1)
          ≡ ok location
        → Finish request
    unfolding authorization_request
    answered_parts request h =
        elim (Option-cases
          (sign_and_encode x cbor at_sign (code_for at_code request) state.flow.hmac_key)) [
            | inl e ↦ absurd (ground arith)
            | inr (encoded, e) ↦ (encoded, e, ground arith)
          ]

    accepted-IsAccepted :
        authorize_handler x cbor u table state headers at_code at_sign params ≡ ok location
        → IsAccepted state headers at_code at_sign params location
    unfolding authorize_handler
    accepted-IsAccepted h =
        let (_, type, h1) =
          >>=-eq-ok (map_err error (response_type_from_str params.response_type)) _ h in
        let (method, named, h2) =
          >>=-eq-ok (map_err error (parse_method params.code_challenge_method)) _ h1 in
        let (client, found, h3) =
          >>=-eq-ok (ok_or (find_by_id state.clients params.client_id) _) _ h2 in
        let (_, uri_ok, h4) =
          >>=-eq-ok
            (checked (validate_redirect_uri state.clients params.client_id params.redirect_uri) _) _
            h3 in
        let (header_value, present, h5) = >>=-eq-ok (ok_or (headers state.user_header) _) _ h4 in
        let (user, identified, h6) =
          >>=-eq-ok (resolved (resolve table state.user_manager header_value)) _ h5 in
        let (encoded, signed, h7) =
          answered_parts (request_for state params method client user) h6 in
        let (uri, parsed, redirected) = (redirect_location_iff u params encoded location).0 h7 in
        let (listing, again, listed) =
          (validate_redirect_uri_iff state.clients params.client_id params.redirect_uri).0
            (checked-true _ _ uri_ok) in
        let registered = ok_or-eq-ok (find_by_id state.clients params.client_id) _ found in
        let same : client ≡ listing = unique registered again in
        record {
          asks_code =
              (response_type_iff params.response_type).0
                (only_code _ _ (map_err-eq-ok error _ type));
          method = method;
          names_method =
              (parse_method_iff params.code_challenge_method method).0
                (map_err-eq-ok error (parse_method params.code_challenge_method) named);
          client = client;
          registered = registered;
          listed = rw same listed;
          header_value = header_value;
          present = ok_or-eq-ok _ _ present;
          user = user;
          identified = resolved-eq-ok _ identified;
          encoded = encoded;
          signed = signed;
          uri = uri;
          parsed = parsed;
          redirected = redirected;
        }

    answered_of_parts :
        (request : AuthorizationRequest)
        → Finish request
        → (authorization_request x cbor state.flow at_code at_sign request >>= λ signed.
            redirect_location u params signed.1)
          ≡ ok location
    unfolding authorization_request
    answered_of_parts request (encoded, signed, redirected) =
        rw (authorization_request, signed) redirected

    IsAccepted-accepted :
        IsAccepted state headers at_code at_sign params location
        → authorize_handler x cbor u table state headers at_code at_sign params ≡ ok location
    unfolding authorize_handler resolved
    IsAccepted-accepted a =
        rw
          (
            (response_type_iff params.response_type).1 a.asks_code,
            (parse_method_iff params.code_challenge_method a.method).1 a.names_method,
            a.registered,
            (validate_redirect_uri_iff state.clients params.client_id params.redirect_uri).1
                (a.client, a.registered, a.listed),
            a.present,
            a.identified,
            resolved,
          )
          (answered_of_parts (request_for state params a.method a.client a.user) (
            a.encoded,
            a.signed,
            (redirect_location_iff u params a.encoded location).1 (a.uri, a.parsed, a.redirected),
          ))

-- `/authorize` redirects to a location exactly when the request asks for a code, its method of PKCE
-- is "S256", "plain" or missing, also where it has no challenge, its client is registered and lists the redirect URI, the configured
-- header is there and names a user, the code for just this request can be signed, the redirect URI
-- parses, and the location is that URI with the signed code, and the state if there is one, in its
-- query.
pub authorize_handler_iff :
    (x : Codec) (cbor : Cbor) (u : UrlLib) (table : ℕ → List ℕ) {j : JwtLib} (state : AppState j)
    (headers : Headers) (at_code at_sign : SystemTime) (params : AuthorizeParams)
    (location : String)
    → (authorize_handler x cbor u table state headers at_code at_sign params ≡ ok location)
      ↔ IsAccepted x cbor u table state headers at_code at_sign params location
authorize_handler_iff x cbor u table state headers at_code at_sign params location = (
  accepted-IsAccepted x cbor u table state headers at_code at_sign params location,
  IsAccepted-accepted x cbor u table state headers at_code at_sign params location,
)
