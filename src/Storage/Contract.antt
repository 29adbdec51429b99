-- ===== src/Storage/Contract.antt =====
-- What the `TokenStore` trait promises, for any store: the laws that the flow relies on.
use openid_tls_connector.Common.{
  String, ◌≡◌, Bool, true, not, List, none, some, ◌==◌, if◌then◌else◌,
}
use openid_tls_connector.Code.Timestamp.{SystemTime}
use openid_tls_connector.Storage.{TokenStore, is_some}

module _ {S : Type 0} (t : TokenStore S) (consumed : S → String → Bool) where
  -- `consumed` says of each code key whether it has been consumed.
  pub record Contract : Type 0 where
    pub lookup-issue :
        (s : S) (jti subject client_id : String) (scope groups : List String)
        (expires_at : SystemTime) (j : String)
        → t.lookup (t.issue s jti subject client_id scope groups expires_at) j ≡ (
            if jti == j
            then some (record {
              subject = subject;
              client_id = client_id;
              scope = scope;
              groups = groups;
              expires_at = expires_at;
              jti = jti;
            })
            else t.lookup s j)
    pub lookup-revoke :
        (s : S) (jti j : String)
        → t.lookup (t.revoke s jti).0 j ≡ (if jti == j then none else t.lookup s j)
    pub lookup-consume_code :
        (s : S) (k j : String) → t.lookup (t.consume_code s k).0 j ≡ t.lookup s j
    pub revoked : (s : S) (jti : String) → (t.revoke s jti).1 ≡ is_some (t.lookup s jti)
    pub first_use : (s : S) (k : String) → (t.consume_code s k).1 ≡ not (consumed s k)
    pub consumed-consume_code :
        (s : S) (k j : String)
        → consumed (t.consume_code s k).0 j ≡ (if k == j then true else consumed s j)
    pub consumed-issue :
        (s : S) (jti subject client_id : String) (scope groups : List String)
        (expires_at : SystemTime) (j : String)
        → consumed (t.issue s jti subject client_id scope groups expires_at) j ≡ consumed s j
    pub consumed-revoke : (s : S) (jti j : String) → consumed (t.revoke s jti).0 j ≡ consumed s j
