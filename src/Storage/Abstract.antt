-- ===== src/Storage/Abstract.antt =====
-- A store as its clients see it: which identifiers have a record, and which codes are consumed.
use mathlib.Core.Path.{fun_ext}
use openid_tls_connector.Common.{
  String, ◌≡◌, Bool, true, false, not, List, Option, none, some, ◌==◌, if◌then◌else◌,
}
use openid_tls_connector.Code.Timestamp.{SystemTime}
use openid_tls_connector.Storage.{TokenStore, TokenRecord, is_some}
use openid_tls_connector.Storage.Contract.{Contract}

pub record View : Type 0 where
  pub records : String → Option TokenRecord
  pub consumed : String → Bool

abbrev pub empty_view : View
empty_view = record { records = λ jti. none; consumed = λ k. false }

abbrev pub abstract_issue :
    View → String → String → String → List String → List String → SystemTime → View
abstract_issue v jti subject client_id scope groups expires_at = record v {
  records = λ j.
      if jti == j
      then some (record {
        subject = subject;
        client_id = client_id;
        scope = scope;
        groups = groups;
        expires_at = expires_at;
        jti = jti;
      })
      else v.records j;
}

-- The store of functions: the specification of the trait.
abbrev pub abstract_store : TokenStore View
abstract_store = record {
  issue = abstract_issue;
  lookup = λ v jti. v.records jti;
  revoke = λ v jti.
      (record v { records = λ j. if jti == j then none else v.records j }, is_some (v.records jti));
  consume_code = λ v k.
      (record v { consumed = λ j. if k == j then true else v.consumed j }, not (v.consumed k));
}

module _ {S : Type 0} (t : TokenStore S) (consumed : S → String → Bool) where
  abbrev pub view : S → View
  view s = record { records = t.lookup s; consumed = consumed s }

  -- A call's result, with the state as it is seen.
  abbrev pub seen {ℓ} : {A : Type ℓ} → S × A → View × A
  seen (s, a) = (view s, a)

  view_of :
      (s : S) (v : View)
      → ((j : String) → t.lookup s j ≡ v.records j)
      → ((k : String) → consumed s k ≡ v.consumed k)
      → view s ≡ v
  view_of s v same same' =
      let records : t.lookup s ≡ v.records = fun_ext same in
      let codes : consumed s ≡ v.consumed = fun_ext same' in cc

  module _ (contract : Contract t consumed) where
    pub view-issue :
        (s : S) (jti subject client_id : String) (scope groups : List String)
        (expires_at : SystemTime)
        → view (t.issue s jti subject client_id scope groups expires_at)
          ≡ abstract_issue (view s) jti subject client_id scope groups expires_at
    view-issue s jti subject client_id scope groups expires_at =
        view_of _ _ (contract.lookup-issue s jti subject client_id scope groups expires_at)
          (contract.consumed-issue s jti subject client_id scope groups expires_at)

    pub seen-revoke :
        (s : S) (jti : String) → seen (t.revoke s jti) ≡ abstract_store.revoke (view s) jti
    seen-revoke s jti =
        let state =
          view_of (t.revoke s jti).0 (abstract_store.revoke (view s) jti).0
            (contract.lookup-revoke s jti) (contract.consumed-revoke s jti) in
        let answer = contract.revoked s jti in cc

    pub seen-consume_code :
        (s : S) (k : String) → seen (t.consume_code s k) ≡ abstract_store.consume_code (view s) k
    seen-consume_code s k =
        let state =
          view_of (t.consume_code s k).0 (abstract_store.consume_code (view s) k).0
            (contract.lookup-consume_code s k) (contract.consumed-consume_code s k) in
        let answer = contract.first_use s k in cc
