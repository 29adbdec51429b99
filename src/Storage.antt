-- ===== src/Storage.antt =====
-- src/oidc/storage.rs: the store of issued tokens and consumed codes. The trait is a record of
-- operations over a state; a call is atomic, and returns the new state with its answer.
pub mod Contract
pub mod InMemory
pub mod Abstract
use openid_tls_connector.Common.{String, Bool, true, false, not, List, [], Option, none, some}
use openid_tls_connector.Common.Assoc
use openid_tls_connector.Code.Timestamp.{SystemTime}

pub record TokenRecord : Type 0 where
  pub subject : String
  pub client_id : String
  pub scope : List String
  pub groups : List String
  pub expires_at : SystemTime
  pub jti : String

pub record TokenStore (S : Type 0) : Type 0 where
  -- jti, subject, client_id, scope, groups, expires_at
  pub issue : S → String → String → String → List String → List String → SystemTime → S
  pub lookup : S → String → Option TokenRecord
  pub revoke : S → String → S × Bool
  pub consume_code : S → String → S × Bool

pub record InMemoryTokenStore : Type 0 where
  pub records : List (String × TokenRecord)
  pub consumed_codes : List (String × Unit {0})

unfoldable pub new : InMemoryTokenStore
new = record { records = []; consumed_codes = [] }

abbrev pub is_some {ℓ} : {A : Type ℓ} → Option A → Bool
is_some none = false
is_some (some a) = true

unfoldable pub issue :
    InMemoryTokenStore
    → String
    → String
    → String
    → List String
    → List String
    → SystemTime
    → InMemoryTokenStore
issue s jti subject client_id scope groups expires_at =
    let entry : TokenRecord = record {
      subject = subject;
      client_id = client_id;
      scope = scope;
      groups = groups;
      expires_at = expires_at;
      jti = jti;
    } in
    record s { records = Assoc.insert jti entry s.records }

unfoldable pub lookup : InMemoryTokenStore → String → Option TokenRecord
lookup s jti = Assoc.lookup jti s.records

unfoldable pub revoke : InMemoryTokenStore → String → InMemoryTokenStore × Bool
revoke s jti =
    (record s { records = Assoc.remove jti s.records }, is_some (Assoc.lookup jti s.records))

-- `insert` answers the value that the key had: `none` for a first use.
unfoldable pub consume_code : InMemoryTokenStore → String → InMemoryTokenStore × Bool
consume_code s code_key = (
  record s { consumed_codes = Assoc.insert code_key tt s.consumed_codes },
  not (is_some (Assoc.lookup code_key s.consumed_codes)),
)

abbrev pub in_memory : TokenStore InMemoryTokenStore
in_memory = record { issue = issue; lookup = lookup; revoke = revoke; consume_code = consume_code }
