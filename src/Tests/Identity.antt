-- ===== src/Tests/Identity.antt =====
-- The identity token of a login.
use mathlib.Core.List.{Memᴰ}
use openid_tls_connector.Common.{◌≡◌, refl, ap, List, [], ◌∷◌, some, ok, Result, arith}
use openid_tls_connector.Token.{verify_id_token}
use openid_tls_connector.Storage.{InMemoryTokenStore, in_memory}
use openid_tls_connector.Users.{resolve, resolve_groups}
use openid_tls_connector.Protocol.{code_for, AccessTokenRequest, TokenResponse, Failure}
use openid_tls_connector.Router.Authorize.Redemption.{Redeems}
use openid_tls_connector.Service.Identity.{token_authentic}
use openid_tls_connector.Router.Credentials.Requests.{IsRequestOf}
use openid_tls_connector.Router.Authorize.Identity
use openid_tls_connector.Router.Authorize.Identity.{login_identity}
use openid_tls_connector.Token.{now_secs}
use openid_tls_connector.Tests.Laws.{keys-IsKeyPair}
use openid_tls_connector.Tests.Codes.{code-ReadsBack}
use openid_tls_connector.Tests.Flow.{after, response, grant_runs}
use openid_tls_connector.Service.{Request, get_authorize, post_token, tokens, response_of, handle}
use openid_tls_connector.Service.Authenticity.{Login, Unforged}
use openid_tls_connector.Tests.Samples.{
  access_claims, id_claims, codec, cbor, url_lib, jwt_lib, from_utf8, flow, context, state, app,
  empty_store, readings, now, issued_at, sample_code,
}
use openid_tls_connector.Tests.Samples
use openid_tls_connector.Tests.Handlers.{
  basic_headers, token_params, identity, cert_headers, authorize_params, accepted,
}
use openid_tls_connector.Tests.Service.{content_read, granted_runs, cbor-ReadsContainers}

login_identity_example :
    Redeems codec cbor url_lib identity state cert_headers issued_at issued_at authorize_params
      "https://app/cb" accepted now Samples.request
    × (verify_id_token jwt_lib state.jwt_issuer now "id" "app" ≡ ok id_claims)
unfolding accepted code_for resolve_groups now_secs
login_identity_example =
    login_identity codec cbor url_lib identity state cert_headers issued_at issued_at
      authorize_params "https://app/cb" accepted in_memory keys-IsKeyPair code-ReadsBack readings
      Samples.request refl empty_store after response grant_runs now (omega arith)

-- The login alone, before its token request.
abbrev asked : List Request
asked = get_authorize cert_headers issued_at issued_at authorize_params ∷ []

abbrev first_login : Login codec cbor url_lib identity from_utf8 state asked
first_login = record {
  headers = cert_headers;
  at_code = issued_at;
  at_sign = issued_at;
  params = authorize_params;
  location = "https://app/cb";
  asked = Memᴰ.head refl;
  accepted = accepted;
}

asked-Unforged :
    Unforged codec cbor url_lib identity from_utf8 state asked
      (post_token basic_headers readings token_params ∷ [])
unfolding accepted code_for resolve_groups
asked-Unforged = (λ serialized signed_code d r a. (first_login, content_read signed_code r), tt)

answer_runs :
    (handle codec cbor url_lib identity from_utf8 in_memory state
      (post_token basic_headers readings token_params)
      empty_store).1
    ≡ tokens response
unfolding handle
answer_runs =
    ap (λ (r : InMemoryTokenStore × Result Failure TokenResponse). response_of tokens r.1)
      granted_runs

token_authentic_example :
    (l : Login codec cbor url_lib identity from_utf8 state asked) × (req : AccessTokenRequest)
    × IsRequestOf codec from_utf8 basic_headers token_params req
    × Redeems codec cbor url_lib identity state l.headers l.at_code l.at_sign l.params l.location
        l.accepted now req
    × (resolve identity state.user_manager l.accepted.header_value ≡ some (ok l.accepted.user))
    × (verify_id_token jwt_lib state.jwt_issuer now "id" l.params.client_id
        ≡ ok (
            Identity.identity codec cbor url_lib identity state l.headers l.at_code l.at_sign
              l.params l.location l.accepted readings))
unfolding now_secs
token_authentic_example =
    token_authentic codec cbor url_lib identity from_utf8 state in_memory keys-IsKeyPair
      cbor-ReadsContainers asked basic_headers readings token_params asked-Unforged empty_store
      response answer_runs now (omega arith)
