-- ===== src/Tests/Unit/Storage.antt =====
-- The tests of src/oidc/storage.rs, at any time.
use openid_tls_connector.Common.{String, ◌+◌, ◌≡◌, refl, Bool, true, not, ◌&&◌, [], ◌∷◌, ◌==◌}
use openid_tls_connector.Common.Assoc
use openid_tls_connector.Code.Timestamp.{SystemTime}
use openid_tls_connector.Storage.{
  TokenRecord, InMemoryTokenStore, new, issue, lookup, revoke, consume_code, is_some,
}
use openid_tls_connector.Server.{from_secs}
use openid_tls_connector.Tests.Unit.{on_some}

module _ (now : SystemTime) where
  abbrev sample_record : String → TokenRecord
  sample_record jti = record {
    subject = "alice";
    client_id = "client1";
    scope = "openid" ∷ [];
    groups = "users" ∷ [];
    expires_at = now + from_secs 3600;
    jti = jti;
  }

  abbrev with_record : String → InMemoryTokenStore
  with_record jti =
      let r = sample_record jti in
      issue new r.jti r.subject r.client_id r.scope r.groups r.expires_at

  abbrev test_issue_and_lookup : Bool
  test_issue_and_lookup =
      on_some (λ found. found.subject == "alice" && found.client_id == "client1")
        (lookup (with_record "jti-1") "jti-1")

  abbrev test_revoke : Bool
  test_revoke =
      let (store, first) = revoke (with_record "jti-2") "jti-2" in
      first && not (is_some (lookup store "jti-2")) && not (revoke store "jti-2").1

  record_tests_pass : (test_issue_and_lookup ≡ true) × (test_revoke ≡ true)
  unfolding new issue lookup revoke Assoc.insert Assoc.lookup Assoc.remove
  record_tests_pass = (refl, refl)

abbrev test_lookup_missing : Bool
test_lookup_missing = not (is_some (lookup new "nope"))

abbrev test_consume_code_first_use_succeeds : Bool
test_consume_code_first_use_succeeds = (consume_code new "hash-abc").1

abbrev test_consume_code_replay_rejected : Bool
test_consume_code_replay_rejected =
    let (store, first) = consume_code new "hash-abc" in
    first && not (consume_code store "hash-abc").1

code_tests_pass :
    (test_lookup_missing ≡ true)
    × (test_consume_code_first_use_succeeds ≡ true)
    × (test_consume_code_replay_rejected ≡ true)
unfolding new lookup consume_code Assoc.insert Assoc.lookup
code_tests_pass = (refl, refl, refl)
