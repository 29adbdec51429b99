-- ===== src/Tests/Flow.antt =====
-- Runs of the authorization code flow on the in-memory store.
use openid_tls_connector.External.{Bytes}
use openid_tls_connector.Protocol.Jti.Distinct.{free_bits, random_jti_iff}
use openid_tls_connector.Common.{
  ℕ, ◌<◌, ◌↔◌, All, get_or, arith, Bool, true, ltb, ◌&&◌, String, ◌+◌, ◌*◌, ◌^◌, ◌≡◌, refl, List,
  [], ◌∷◌, some, ok, err,
}
use openid_tls_connector.Common.Assoc
use openid_tls_connector.Client.{find_by_id}
use openid_tls_connector.Storage.{InMemoryTokenStore, in_memory, issue, consume_code}
use openid_tls_connector.Storage.InMemory.{is_consumed, in_memory-Contract}
use openid_tls_connector.Token.{
  issue_id_token, id_token_claims, issue_access_token, access_token_claims, now_secs,
}
use openid_tls_connector.Code.Pkce.{verify_pkce}
use openid_tls_connector.Code.Timestamp
use openid_tls_connector.Code.AuthorizationCode.{validate_token_request}
use openid_tls_connector.Code.Signature.{decode_and_verify}
use openid_tls_connector.Client.{validate_redirect_uri, validate_client_secret, constant_time_eq}
use openid_tls_connector.Common.Text.{as_bytes, utf8, join}
use openid_tls_connector.Protocol.{
  TokenResponse, AccessTokenRequest, error, check_request, issue_tokens, redeem,
  access_token_request, code_replay_key, add_duration,
}
use openid_tls_connector.Protocol.Errors.{invalid_client}
use openid_tls_connector.Protocol.Jti.{random_jti}
use openid_tls_connector.Protocol.Success.{IsGranted, access_token_request_iff}
use openid_tls_connector.Protocol.Checks.{IsAuthorized, check_request_iff}
use openid_tls_connector.Code.AuthorizationCode.{AuthorizationCode}
use openid_tls_connector.Protocol.Refusals.{IsDenied, invalid_client_iff}
use openid_tls_connector.Protocol.Replay.{
  serve, Call, request, revocation, run, refusal, replay_refused, failure_keeps,
}
use openid_tls_connector.Tests.Samples.{
  codec, cbor, jwt_lib, flow, context, readings, empty_store, now, sample_code,
}
use openid_tls_connector.Tests.Samples

pub check_passes :
    check_request codec cbor jwt_lib flow context now Samples.request ≡ ok sample_code
unfolding check_request decode_and_verify Timestamp.extract validate_token_request verify_pkce
    validate_redirect_uri validate_client_secret find_by_id constant_time_eq as_bytes utf8
check_passes = refl

jti_runs : random_jti readings.random ≡ Samples.jti
unfolding random_jti
jti_runs = refl

-- Random bytes that differ from the others in the bits of the version and the variant alone.
abbrev others : Bytes
others = 0 ∷ 0 ∷ 0 ∷ 0 ∷ 0 ∷ 0 ∷ 0xf0 ∷ 0 ∷ 0xc0 ∷ 0 ∷ 0 ∷ 0 ∷ 0 ∷ 0 ∷ 0 ∷ 0 ∷ []

-- The check that every byte is small.
abbrev small : Bytes → Bool
small [] = true
small (b ∷ bs) = ltb b 256 && small bs

small_sound : (bs : Bytes) → small bs ≡ true → All (λ v. v < 256) bs
small_sound [] h = tt
small_sound (b ∷ bs) h = (ground arith, small_sound bs (ground arith))

zeros-All : All (λ v. v < 256) readings.random
zeros-All = small_sound readings.random refl

others-All : All (λ v. v < 256) others
others-All = small_sound others refl

random_jti_iff_example : (random_jti readings.random ≡ random_jti others) ↔ (
    (p : ℕ) → p < 16 → free_bits p (get_or readings.random p 0) ≡ free_bits p (get_or others p 0))
random_jti_iff_example = random_jti_iff readings.random others refl refl zeros-All others-All

abbrev pub response : TokenResponse
response = record {
  access_token = "access";
  token_type = "Bearer";
  expires_in = 3600;
  id_token = "id";
  scope = some "";
}

-- The store after the request: the token's record, and the consumed code.
abbrev pub after : InMemoryTokenStore
after = record {
  records =
      (
        Samples.jti,
        record {
          subject = "ann";
          client_id = "app";
          scope = [];
          groups = [];
          expires_at = now + 3600 * 10 ^ 9;
          jti = Samples.jti;
        },
      )
      ∷ [];
  consumed_codes = ("digest", tt) ∷ [];
}

pub grant_runs :
    access_token_request codec cbor jwt_lib in_memory flow context readings Samples.request
      empty_store
    ≡ (after, ok response)
unfolding access_token_request check_request decode_and_verify Timestamp.extract
    validate_token_request verify_pkce validate_redirect_uri validate_client_secret find_by_id
    constant_time_eq as_bytes utf8 redeem issue_tokens random_jti issue_id_token id_token_claims
    issue_access_token access_token_claims now_secs add_duration code_replay_key join issue
    consume_code Assoc.lookup Assoc.insert
grant_runs = refl

access_token_request_iff_example :
    IsGranted codec cbor jwt_lib in_memory flow context readings Samples.request empty_store after
      response
access_token_request_iff_example =
    (access_token_request_iff codec cbor jwt_lib in_memory flow context readings Samples.request
        empty_store after response).0
      grant_runs

check_request_iff_example :
    IsAuthorized codec cbor jwt_lib flow context now Samples.request sample_code
check_request_iff_example =
    (check_request_iff codec cbor jwt_lib flow context now Samples.request sample_code).0
      check_passes

-- The request, twice, with a revocation between.
abbrev history :
    List (Call codec cbor jwt_lib in_memory is_consumed in_memory-Contract flow context)
history =
    request readings Samples.request
    ∷ revocation Samples.jti
    ∷ request readings Samples.request
    ∷ []

replay_refused_example :
    (serve codec cbor jwt_lib in_memory is_consumed in_memory-Contract flow context readings
      Samples.request
      (run codec cbor jwt_lib in_memory is_consumed in_memory-Contract flow context history
        after)).1
    ≡ refusal codec cbor jwt_lib in_memory is_consumed in_memory-Contract flow context
        (check_request codec cbor jwt_lib flow context now Samples.request)
replay_refused_example =
    replay_refused codec cbor jwt_lib in_memory is_consumed in_memory-Contract flow context readings
      Samples.request empty_store after response grant_runs history readings Samples.request refl

-- The same request with another secret.
abbrev wrong_secret : AccessTokenRequest
wrong_secret = record Samples.request { client_secret = some "guess" }

refused_runs :
    access_token_request codec cbor jwt_lib in_memory flow context readings wrong_secret after
    ≡ (after, err (error (invalid_client "Client authentication failed")))
unfolding access_token_request check_request decode_and_verify Timestamp.extract
    validate_token_request verify_pkce validate_redirect_uri validate_client_secret find_by_id
    constant_time_eq as_bytes utf8
refused_runs = refl

failure_keeps_example :
    (in_memory.lookup after Samples.jti ≡ in_memory.lookup after Samples.jti)
    × (is_consumed after "another" ≡ is_consumed after "another")
unfolding code_replay_key
failure_keeps_example =
    failure_keeps codec cbor jwt_lib in_memory is_consumed in_memory-Contract flow context readings
      wrong_secret after after (error (invalid_client "Client authentication failed")) refused_runs
      Samples.jti "another" (λ e. cc)

abbrev denial : String
denial = "Client authentication failed"

denied_runs :
    check_request codec cbor jwt_lib flow context now wrong_secret
    ≡ err (invalid_client "Client authentication failed")
unfolding check_request decode_and_verify Timestamp.extract validate_token_request verify_pkce
    validate_redirect_uri validate_client_secret find_by_id constant_time_eq as_bytes utf8
denied_runs = refl

invalid_client_iff_example :
    (denial ≡ denial)
    × (code : AuthorizationCode) × IsDenied codec cbor jwt_lib flow context now wrong_secret code
invalid_client_iff_example =
    (invalid_client_iff codec cbor jwt_lib flow context now wrong_secret denial).0 denied_runs
