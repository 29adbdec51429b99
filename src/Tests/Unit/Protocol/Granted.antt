-- ===== src/Tests/Unit/Protocol/Granted.antt =====
-- The tests of src/oidc/protocol.rs that are granted tokens, where the issuer's library signs.
use openid_tls_connector.Common.{
  String, ◌+◌, ◌≤◌, ◌<◌, ◌^◌, ◌≡◌, refl, ap, ◌∙◌, true, not, ◌&&◌, [], ◌∷◌, none, some, ok, arith,
  eq_iff, eq_refl,
}
use openid_tls_connector.Common.Assoc
use openid_tls_connector.External.{Bytes, Codec}
use openid_tls_connector.Code.Timestamp.{SystemTime}
use openid_tls_connector.Code.Signature.{Cbor}
use openid_tls_connector.Storage.{InMemoryTokenStore, in_memory, consume_code}
use openid_tls_connector.Storage
use openid_tls_connector.Token.{
  JwtLib, JwtIssuer, generate, id_token_claims, access_token_claims, now_secs,
}
use openid_tls_connector.Token.RoundTrip.{
  IsKeyPair, verify_access_token-issue_access_token, verify_id_token-issue_id_token,
}
use openid_tls_connector.Protocol.{
  TokenIssueContext, TokenResponse, Readings, time_limit, code_replay_key, check_request,
}
use openid_tls_connector.Protocol.Jti.{random_jti}
use openid_tls_connector.Protocol.Granted.{Signs, Granted, request-Granted}
use openid_tls_connector.Protocol.Replay.{replay_refused, run}
use openid_tls_connector.Storage.InMemory.{is_consumed, in_memory-Contract}
use openid_tls_connector.Server.{from_secs}
use openid_tls_connector.Client
use openid_tls_connector.Client.{
  ClientRegistry, find_by_id, validate_redirect_uri, validate_client_secret, constant_time_eq,
}
use openid_tls_connector.Common.Text.{as_bytes, utf8}
use openid_tls_connector.Code.Pkce.{verify_pkce}
use openid_tls_connector.Code.AuthorizationCode.{validate_token_request}
use openid_tls_connector.Protocol.{AuthorizationRequest, code_for}
use openid_tls_connector.Code.Signature.RoundTrip.{ReadsBack}
use openid_tls_connector.Tests.Unit.{on_ok, on_err}
use openid_tls_connector.Tests.Unit.Protocol.{
  test_client_id, test_key, test_flow, two_clients, test_clients, test_ctx, s256_challenge,
  users_code, confidential_code, asked_token, is_invalid_grant, is_empty, on_code, redeem_at,
  is_granted_at, test_access_token_request_succeeds, test_access_token_request_replay_rejected,
  test_confidential_client_with_correct_secret_succeeds,
}
use openid_tls_connector.Tests.Unit.Protocol.Passes.{
  Opens, on_code_passes, with_ctx_passes, redeemed_passes,
}

module _ (x : Codec) (cbor : Cbor) (j : JwtLib) (random : Bytes) (made signed : SystemTime)
    (issuer : JwtIssuer j) (generated : generate j x random "https://test.example.com" ≡ ok issuer)
    (signs : Signs j issuer) (env : Readings) (in_order : signed ≤ env.at_verify)
    (in_time : env.at_verify < signed + from_secs 300)
    (in_range : env.at_expiry + from_secs 3600 < time_limit) where
  abbrev Readable : AuthorizationRequest → Type 0
  Readable asked = ReadsBack x cbor test_key signed (code_for made asked)

  abbrev ctx : TokenIssueContext j
  ctx = test_ctx (record { clients = two_clients }) issuer

  made_clients : test_clients ≡ ok (record { clients = two_clients })
  unfolding Client.new
  made_clients = refl

  -- A code that its client redeems with its verifier, while it is fresh, passes the checks.
  users_code_passes :
      (verifier encoded : String) (now : SystemTime)
      → signed ≤ now
      → now < signed + from_secs 300
      → Opens x cbor j random made signed issuer generated (users_code x verifier) encoded
      → check_request x cbor j test_flow ctx now (asked_token test_client_id none verifier encoded)
        ≡ ok (code_for made (users_code x verifier))
  unfolding check_request validate_token_request verify_pkce validate_redirect_uri
      validate_client_secret find_by_id code_for
  users_code_passes verifier encoded now h k opens =
      ground (arith, opens now (from_secs 300), eq_refl (s256_challenge x verifier))

  confidential_code_passes :
      (encoded : String)
      → Opens x cbor j random made signed issuer generated (confidential_code x) encoded
      → check_request x cbor j test_flow ctx env.at_verify
          (asked_token "confidential" (some "s3cr3t") "v" encoded)
        ≡ ok (code_for made (confidential_code x))
  unfolding check_request validate_token_request verify_pkce validate_redirect_uri
      validate_client_secret find_by_id code_for constant_time_eq as_bytes utf8
  confidential_code_passes encoded opens =
      ground (arith, opens env.at_verify (from_secs 300), eq_refl (s256_challenge x "v"))

  -- A new store has no consumed code.
  consume-new : (k : String) → (consume_code Storage.new k).1 ≡ true
  unfolding consume_code Storage.new Assoc.lookup
  consume-new k = refl

  secret_test_passes :
      Readable (confidential_code x)
      → test_confidential_client_with_correct_secret_succeeds x cbor j random made signed env ≡ true
  secret_test_passes back =
      redeemed_passes x cbor j random made signed issuer generated (from_secs 300)
        (confidential_code x) env (asked_token "confidential" (some "s3cr3t") "v")
        (record { clients = two_clients })
        (λ ctx. on_ok λ (response : TokenResponse). not (is_empty response.access_token))
        made_clients back
        λ encoded opens.
          let granted =
            request-Granted x cbor j in_memory ctx test_flow env
              (asked_token "confidential" (some "s3cr3t") "v" encoded)
              (code_for made (confidential_code x)) Storage.new signs in_range
              (confidential_code_passes encoded opens) (consume-new (code_replay_key x encoded)) in
          ap
            (λ (s, r). on_ok (λ (response : TokenResponse). not (is_empty response.access_token)) r)
            granted.answered
          ∙ ground (arith, granted.has_access, eq_iff granted.response.access_token "")

  users_code-Granted :
      (verifier encoded : String)
      → Opens x cbor j random made signed issuer generated (users_code x verifier) encoded
      → Granted x cbor j in_memory ctx test_flow env
          (asked_token test_client_id none verifier encoded)
          (code_for made (users_code x verifier))
          Storage.new
  users_code-Granted verifier encoded opens =
      request-Granted x cbor j in_memory ctx test_flow env
        (asked_token test_client_id none verifier encoded) (code_for made (users_code x verifier))
        Storage.new signs in_range
        (users_code_passes verifier encoded env.at_verify in_order in_time opens)
        (consume-new (code_replay_key x encoded))

  -- The first of two requests is granted, and the second is told that the code has been used.
  replay_test_passes :
      (env' : Readings)
      → signed ≤ env'.at_verify
      → env'.at_verify < signed + from_secs 300
      → Readable (users_code x "v")
      → test_access_token_request_replay_rejected x cbor j random made signed env env' ≡ true
  unfolding run
  replay_test_passes env' h k back =
      with_ctx_passes x cbor j random made signed issuer generated
        (record { clients = two_clients })
        (λ ctx. on_code x cbor j random made signed test_flow (users_code x "v") λ encoded.
          let req = asked_token test_client_id none "v" encoded in
          let (s, first) =
            redeem_at x cbor j random made signed test_flow ctx env req Storage.new in
          on_ok (λ (response : TokenResponse). true) first
          && on_err is_invalid_grant
              (redeem_at x cbor j random made signed test_flow ctx env' req s).1)
        made_clients
        (on_code_passes x cbor j random made signed issuer generated (from_secs 300)
          (users_code x "v") _ back
          λ encoded opens.
            let req = asked_token test_client_id none "v" encoded in
            let granted = users_code-Granted "v" encoded opens in
            let refused =
              replay_refused x cbor j in_memory is_consumed in_memory-Contract test_flow ctx env req
                Storage.new granted.after granted.response granted.answered [] env' req refl in
            ground (
              arith,
              granted.answered,
              refused,
              users_code_passes "v" encoded env'.at_verify h k opens,
            ))

  -- Each token is verified at a time when it has not expired.
  success_test_passes :
      (verified verified' : SystemTime)
      → IsKeyPair j issuer.encoding_key issuer.decoding_key
      → now_secs env.at_id_token + 3600 < 2 ^ 64
      → now_secs env.at_access_token + 3600 < 2 ^ 64
      → now_secs verified ≤ now_secs env.at_id_token + 3600
      → now_secs verified' ≤ now_secs env.at_access_token + 3600
      → Readable (users_code x "my-verifier")
      → test_access_token_request_succeeds x cbor j random made signed env verified verified' ≡ true
  unfolding id_token_claims access_token_claims code_for
  success_test_passes verified verified' pair h k h' k' back =
      redeemed_passes x cbor j random made signed issuer generated (from_secs 300)
        (users_code x "my-verifier") env (asked_token test_client_id none "my-verifier")
        (record { clients = two_clients })
        (λ ctx. on_ok (is_granted_at x cbor j random made signed env verified verified' ctx))
        made_clients back
        λ encoded opens.
          let granted = users_code-Granted "my-verifier" encoded opens in
          let issued = granted.issued in
          let id =
            verify_id_token-issue_id_token j issuer pair env.at_id_token verified "alice"
              test_client_id ("users" ∷ []) (some "nonce-xyz") (from_secs 3600)
              granted.response.id_token issued.id_token (ground arith) in
          let access =
            verify_access_token-issue_access_token j issuer pair env.at_access_token verified'
              "alice" test_client_id ("users" ∷ []) ("openid" ∷ []) (random_jti env.random)
              (from_secs 3600) granted.response.access_token issued.access_token (ground arith) in
          ap
            (λ (s, r).
              on_ok (is_granted_at x cbor j random made signed env verified verified' ctx) r)
            granted.answered
          ∙ ground (
            arith,
            issued.token_type,
            issued.expires_in,
            granted.has_id,
            granted.has_access,
            id,
            access,
            eq_iff granted.response.token_type "Bearer",
            eq_iff granted.response.id_token "",
            eq_iff granted.response.access_token "",
          )
