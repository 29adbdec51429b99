-- ===== src/Tests/Service.antt =====
-- A history of the service: a login, its tokens, and what is then told of the user.
use mathlib.Core.List.{Memᴰ}
use openid_tls_connector.Common.{
  map_err-eq-ok, ◌≤◌, sym, ◌∙◌, String, ℕ, ◌+◌, ◌*◌, ◌^◌, ◌≡◌, refl, ap, inr, true, List, [], ◌∷◌,
  none, some, ok, Result, arith,
}
use openid_tls_connector.Common.Assoc
use openid_tls_connector.Common.Text.{split_once, strip_prefix, trim}
use openid_tls_connector.Token.{validation_for, jwt, add_u64, as_secs, verify_access_token}
use openid_tls_connector.Router.Credentials.{
  basic_payload, basic_credentials, parse_basic_auth, token_request, token_handler,
}
use openid_tls_connector.Protocol.Errors.{grant_type_from_str}
use openid_tls_connector.Code.Pkce.{CodeChallengeMethod, plain, s256}
use openid_tls_connector.Code.AuthorizationCode.{AuthorizationCode}
use openid_tls_connector.Code.Signature.{SignedAuthorizationCode}
use openid_tls_connector.Storage
use openid_tls_connector.Storage.{
  TokenRecord, InMemoryTokenStore, in_memory, consume_code, issue, lookup,
}
use openid_tls_connector.Storage.InMemory.{is_consumed, in_memory-Contract}
use openid_tls_connector.Users.{resolve, resolve_groups}
use openid_tls_connector.Router.Bearer.{
  UserInfo, userinfo_handler, verify_bearer_token, unauthenticated_error,
}
use openid_tls_connector.Router.Authorize.{scope_list}
use openid_tls_connector.Protocol.{
  code_for, TokenResponse, Failure, access_token_request, code_replay_key, add_duration,
}
use openid_tls_connector.Router.{ErrorResponse}
use openid_tls_connector.Service.Statuses.{summary, failures_of, handle_failures}
use openid_tls_connector.Router.Authorize.Redemption.{Redeems}
use openid_tls_connector.Router.Authorize.Login.{Signs, login_completes}
use openid_tls_connector.Protocol.Jti.{random_jti}
use openid_tls_connector.Common.Text.{join}
use openid_tls_connector.Token.{
  now_secs, access_token_claims, id_token_claims, issue_access_token, issue_id_token,
}
use openid_tls_connector.Tests.Laws.{
  decode_access-access, jwt_lib-DecodesSigned, jwt_lib-ChecksExpiry, is_nil_sound, is_text_sound,
  is_absent_sound, same_text,
}
use openid_tls_connector.Tests.Codes.{code-ReadsBack}
use openid_tls_connector.Service.Abstract.{handle-in_memory}
use openid_tls_connector.Service.Expiry.{UnforgedBearer, FreshIdentifiers, Origin, userinfo_expires}
use openid_tls_connector.Storage.Abstract.{abstract_store, empty_view, seen}
use openid_tls_connector.Tests.Flow.{after, response, grant_runs}
use openid_tls_connector.Service.{
  Request, get_authorize, post_token, get_userinfo, info, handle, serve_all,
}
use openid_tls_connector.Service.Authenticity.{Login, Unforged, ReadsContainers, userinfo_authentic}
use openid_tls_connector.Tests.Samples.{
  access_claims, id_claims, codec, cbor, url_lib, jwt_lib, from_utf8, flow, context, state, app,
  empty_store, readings, now, issued_at, sample_code,
}
use openid_tls_connector.Tests.Samples
use openid_tls_connector.Tests.Handlers.{
  basic_headers, token_params, identity, cert_headers, authorize_params, accepted, bearer_headers,
}

is_plain_sound : (m : CodeChallengeMethod) → Samples.is_plain m ≡ true → m ≡ plain
is_plain_sound plain h = refl
is_plain_sound s256 h = cc

same_code_sound : (c : AuthorizationCode) → Samples.same_code c ≡ true → sample_code ≡ c
same_code_sound c h =
    let client : c.client_id ≡ "app" = ground (arith, same_text c.client_id "app") in
    let uri : c.redirect_uri ≡ "https://app/cb" =
      ground (arith, same_text c.redirect_uri "https://app/cb") in
    let challenge : c.code_challenge ≡ some "verifier" =
      ground (arith, is_text_sound "verifier" c.code_challenge) in
    let method : c.code_challenge_method ≡ plain =
      ground (arith, is_plain_sound c.code_challenge_method) in
    let time : c.timestamp ≡ issued_at = ground arith in
    let subject : c.subject ≡ "ann" = ground (arith, same_text c.subject "ann") in
    let nonce : c.nonce ≡ none = ground (arith, is_absent_sound c.nonce) in
    let groups : c.groups ≡ [] = ground (arith, is_nil_sound c.groups) in
    let scope : c.scope ≡ [] = ground (arith, is_nil_sound c.scope) in cc

pub cbor-ReadsContainers : ReadsContainers codec cbor url_lib identity from_utf8 state
cbor-ReadsContainers c bytes h =
    let code : sample_code ≡ c.content = ground (arith, same_code_sound c.content) in
    let time : c.timestamp ≡ issued_at = ground arith in cc

abbrev pub visits : List Request
visits =
    get_authorize cert_headers issued_at issued_at authorize_params
    ∷ post_token basic_headers readings token_params
    ∷ []

abbrev pub login : Login codec cbor url_lib identity from_utf8 state visits
login = record {
  headers = cert_headers;
  at_code = issued_at;
  at_sign = issued_at;
  params = authorize_params;
  location = "https://app/cb";
  asked = Memᴰ.head refl;
  accepted = accepted;
}

pub content_read :
    (v : SignedAuthorizationCode)
    → cbor.read_signed (1 ∷ []) ≡ ok v
    → some (2 ∷ []) ≡ some v.content
content_read v r = cc

pub visits-Unforged : Unforged codec cbor url_lib identity from_utf8 state visits visits
unfolding accepted code_for resolve_groups
visits-Unforged = (λ serialized signed_code d r a. (login, content_read signed_code r), tt)

abbrev pub told : UserInfo
told = record { sub = "ann"; groups = []; scope = []; client_id = "app" }

pub granted_runs :
    token_handler codec from_utf8 cbor in_memory state basic_headers readings token_params
      empty_store
    ≡ (after, ok response)
unfolding token_handler token_request parse_basic_auth strip_prefix trim split_once basic_payload
    basic_credentials grant_type_from_str
granted_runs = grant_runs

pub visits_run :
    serve_all codec cbor url_lib identity from_utf8 in_memory state visits empty_store ≡ after
unfolding serve_all handle
visits_run = ap (λ (r : InMemoryTokenStore × Result Failure TokenResponse). r.0) granted_runs

pub told_runs :
    (handle codec cbor url_lib identity from_utf8 in_memory state
      (get_userinfo bearer_headers now)
      after).1
    ≡ info told
unfolding handle userinfo_handler verify_bearer_token verify_access_token lookup Assoc.lookup
    strip_prefix now_secs
told_runs = refl

userinfo_authentic_example :
    (l : Login codec cbor url_lib identity from_utf8 state visits) × (resolve identity
        state.user_manager l.accepted.header_value
      ≡ some (ok l.accepted.user))
    × (told.sub ≡ l.accepted.user.subject)
    × (told.client_id ≡ l.params.client_id)
    × (told.groups ≡ resolve_groups l.accepted.client.groups state.default_groups)
    × (told.scope ≡ scope_list l.params.scope)
unfolding Assoc.lookup lookup
userinfo_authentic_example =
    userinfo_authentic codec cbor url_lib identity from_utf8 state in_memory is_consumed
      in_memory-Contract cbor-ReadsContainers visits visits-Unforged empty_store (λ jti. refl)
      bearer_headers now told (rw visits_run told_runs)

-- The tokens of the login.
login-Signs :
    Signs codec cbor url_lib identity state cert_headers issued_at issued_at authorize_params
      "https://app/cb" accepted readings Samples.request "id" "access"
      (now + 3600 * 10 ^ 9)
unfolding accepted code_for resolve_groups issue_id_token id_token_claims issue_access_token
    access_token_claims now_secs random_jti add_duration
login-Signs = record { id_signed = refl; access_signed = refl; expiry = refl }

login-Redeems :
    Redeems codec cbor url_lib identity state cert_headers issued_at issued_at authorize_params
      "https://app/cb" accepted now Samples.request
unfolding accepted
login-Redeems = record {
  not_early = omega arith;
  not_late = omega arith;
  same_client = refl;
  same_uri = refl;
  answered = ("verifier", refl, refl);
  authenticated = inr ("s:1", refl, refl);
}

login_completes_example :
    access_token_request codec cbor jwt_lib in_memory flow context readings Samples.request
      empty_store
    ≡ (after, ok response)
unfolding accepted code_for resolve_groups code_replay_key consume_code issue random_jti join
    Assoc.lookup Assoc.insert
login_completes_example =
    login_completes codec cbor url_lib identity state cert_headers issued_at issued_at
      authorize_params "https://app/cb" accepted in_memory is_consumed in_memory-Contract
      code-ReadsBack readings Samples.request refl login-Redeems empty_store refl "id" "access"
      (now + 3600 * 10 ^ 9) login-Signs

-- A bearer that the store does not know.
abbrev unknown : ℕ × ErrorResponse
unknown = unauthenticated_error "Token has been revoked or is unknown"

handle_failures_example : Memᴰ (summary unknown) (failures_of (get_userinfo bearer_headers now))
unfolding handle userinfo_handler verify_bearer_token verify_access_token lookup Assoc.lookup
    strip_prefix now_secs
handle_failures_example =
    handle_failures codec cbor url_lib identity from_utf8 in_memory state
      (get_userinfo bearer_headers now) empty_store unknown refl

handle-in_memory_example :
    seen in_memory is_consumed (
      handle codec cbor url_lib identity from_utf8 in_memory state
        (get_userinfo bearer_headers now)
        (serve_all codec cbor url_lib identity from_utf8 in_memory state visits Storage.new))
    ≡ handle codec cbor url_lib identity from_utf8 abstract_store state
        (get_userinfo bearer_headers now)
        (serve_all codec cbor url_lib identity from_utf8 abstract_store state visits empty_view)
handle-in_memory_example =
    handle-in_memory codec cbor url_lib identity from_utf8 state visits
      (get_userinfo bearer_headers now)

-- The one token that verifies is the one that was signed.
visits-UnforgedBearer : UnforgedBearer state visits bearer_headers now
unfolding verify_access_token issue_access_token access_token_claims random_jti now_secs
visits-UnforgedBearer token claims bears h =
    let text : token ≡ "access" =
      decode_access-access now token
        (validation_for jwt_lib state.jwt_issuer state.jwt_issuer.issuer) claims
        (map_err-eq-ok jwt _ h) in
    record {
      headers = basic_headers;
      env = readings;
      params = token_params;
      asked = Memᴰ.tail (Memᴰ.head refl);
      subject = "ann";
      client_id = "app";
      groups = [];
      scope = [];
      signed = ap ok (sym text);
    }

visits-FreshIdentifiers : FreshIdentifiers visits
visits-FreshIdentifiers headers headers' env env' params params' (Memᴰ.tail (Memᴰ.head e))
      (Memᴰ.tail (Memᴰ.head e')) h =
    e ∙ sym e'
visits-FreshIdentifiers headers headers' env env' params params' (Memᴰ.head e) m h = cc
visits-FreshIdentifiers headers headers' env env' params params' (Memᴰ.tail (Memᴰ.head e))
      (Memᴰ.head e') h =
    cc
visits-FreshIdentifiers headers headers' env env' params params' (Memᴰ.tail (Memᴰ.head e))
      (Memᴰ.tail (Memᴰ.tail m)) h =
    elim m [ ]
visits-FreshIdentifiers headers headers' env env' params params' (Memᴰ.tail (Memᴰ.tail m)) m' h =
    elim m [ ]

userinfo_expires_example :
    (jti : String) × (found : TokenRecord) × (o : Origin codec cbor url_lib identity from_utf8 state
      visits jti found)
    × (told ≡ record {
      sub = found.subject;
      groups = found.groups;
      scope = found.scope;
      client_id = found.client_id;
    })
    × (now_secs now ≤ add_u64 (now_secs o.env.at_access_token) (as_secs state.access_token_ttl) + 5)
unfolding lookup Assoc.lookup
userinfo_expires_example =
    userinfo_expires codec cbor url_lib identity from_utf8 state in_memory is_consumed
      in_memory-Contract jwt_lib-ChecksExpiry jwt_lib-DecodesSigned visits visits-FreshIdentifiers
      empty_store (λ jti. refl) bearer_headers now visits-UnforgedBearer told
      (rw visits_run told_runs)
