-- ===== src/Storage/InMemory.antt =====
-- The in-memory store keeps the trait's promises.
use openid_tls_connector.Common.{String, ◌≡◌, refl, Bool, true, arith, if◌then◌else◌, ◌==◌}
use openid_tls_connector.Common.Assoc
use openid_tls_connector.Storage.{
  InMemoryTokenStore, issue, lookup, revoke, consume_code, in_memory, is_some,
}
use openid_tls_connector.Storage.Contract.{Contract}

abbrev pub is_consumed : InMemoryTokenStore → String → Bool
is_consumed s k = is_some (Assoc.lookup k s.consumed_codes)

is_consumed-consume_code :
    (s : InMemoryTokenStore) (k j : String)
    → is_consumed (consume_code s k).0 j ≡ (if k == j then true else is_consumed s j)
unfolding consume_code
is_consumed-consume_code s k j = ground (arith, Assoc.lookup-insert k j tt s.consumed_codes)

-- A token that is issued is looked up as it was issued until it is revoked, and no other; revoking
-- answers whether there was one; consuming a code answers true at its first use and never again, and
-- touches no token.
pub in_memory-Contract : Contract in_memory is_consumed
unfolding issue lookup revoke consume_code
in_memory-Contract = record {
  lookup-issue =
      λ s jti subject client_id scope groups expires_at j. Assoc.lookup-insert jti j _ s.records;
  lookup-revoke = λ s jti j. Assoc.lookup-remove jti j s.records;
  lookup-consume_code = λ s k j. refl;
  revoked = λ s jti. refl;
  first_use = λ s k. refl;
  consumed-consume_code = is_consumed-consume_code;
  consumed-issue = λ s jti subject client_id scope groups expires_at j. refl;
  consumed-revoke = λ s jti j. refl;
}
