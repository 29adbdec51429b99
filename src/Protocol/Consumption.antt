-- ===== src/Protocol/Consumption.antt =====
-- What each way of ending a request does to the consumed codes and the tokens of a store that keeps
-- the trait's promises.
use openid_tls_connector.Common.{
  String, ◌≡◌, refl, ◌∙◌, ◌≢◌, Bool, true, false, Result, ok, err, arith, ◌==◌, eq_iff, eq_refl,
  if◌then◌else◌,
}
use openid_tls_connector.External.{Codec}
use openid_tls_connector.Code.AuthorizationCode.{AuthorizationCode}
use openid_tls_connector.Code.Signature.{Cbor}
use openid_tls_connector.Storage.{TokenStore}
use openid_tls_connector.Storage.Contract.{Contract}
use openid_tls_connector.Token.{JwtLib}
use openid_tls_connector.Protocol.{
  AccessTokenRequest, TokenIssueContext, OidcAuthCodePkceFlow, TokenResponse, Readings, Failure,
  code_replay_key,
}
use openid_tls_connector.Protocol.Success.{AreIssued}
use openid_tls_connector.Protocol.Effect.{used, Effect, refused, replayed, failed, granted}

module _ (x : Codec) (cbor : Cbor) (j : JwtLib) {S : Type 0} (t : TokenStore S)
    (consumed : S → String → Bool) (contract : Contract t consumed) (flow : OidcAuthCodePkceFlow)
    (ctx : TokenIssueContext j) where
  module _ (env : Readings) (req : AccessTokenRequest) (s : S) where
    issued_consumed :
        {s' : S} {response : TokenResponse} {code : AuthorizationCode} (k : String)
        → AreIssued j t ctx env req code (used x cbor j t flow ctx env req s) s' response
        → consumed s' k ≡ (if code_replay_key x req.code == k then true else consumed s k)
    issued_consumed k a =
        rw a.stored (contract.consumed-issue _ _ _ _ _ _ _ k ∙ contract.consumed-consume_code s _ k)

    -- What has been consumed stays consumed.
    pub Effect-keeps :
        {s' : S} {r : Result Failure TokenResponse} (k : String)
        → Effect x cbor j t flow ctx env req s s' r
        → consumed s k ≡ true
        → consumed s' k ≡ true
    Effect-keeps k (refused e p) h = h
    Effect-keeps k (replayed code p q) h =
        ground (arith, contract.consumed-consume_code s (code_replay_key x req.code) k)
    Effect-keeps k (failed code f p q v) h =
        ground (arith, contract.consumed-consume_code s (code_replay_key x req.code) k)
    Effect-keeps k (granted code s' response p q a) h = ground (arith, issued_consumed k a)

    -- A grant finds the code's key unconsumed and leaves it consumed.
    pub Effect-grant :
        {s' : S} {response : TokenResponse}
        → Effect x cbor j t flow ctx env req s s' (ok response)
        → (consumed s (code_replay_key x req.code) ≡ false)
          × (consumed s' (code_replay_key x req.code) ≡ true)
    Effect-grant (granted code s' response p q a) =
        let key = code_replay_key x req.code in
        (
          ground (arith, contract.first_use s key),
          ground (arith, issued_consumed key a, eq_refl key),
        )

    consume_other :
        (k : String)
        → k ≢ code_replay_key x req.code
        → consumed (used x cbor j t flow ctx env req s) k ≡ consumed s k
    consume_other k other = ground (
      arith,
      contract.consumed-consume_code s (code_replay_key x req.code) k,
      eq_iff (code_replay_key x req.code) k,
    )

    -- A request that fails leaves every token as it was.
    pub Effect-failure :
        {s' : S} {f : Failure} (jti : String)
        → Effect x cbor j t flow ctx env req s s' (err f)
        → t.lookup s' jti ≡ t.lookup s jti
    Effect-failure jti (refused e p) = refl
    Effect-failure jti (replayed code p q) = contract.lookup-consume_code s _ jti
    Effect-failure jti (failed code f p q v) = contract.lookup-consume_code s _ jti

    pub Effect-other :
        {s' : S} {f : Failure} (k : String)
        → k ≢ code_replay_key x req.code
        → Effect x cbor j t flow ctx env req s s' (err f)
        → consumed s' k ≡ consumed s k
    Effect-other k other (refused e p) = refl
    Effect-other k other (replayed code p q) = consume_other k other
    Effect-other k other (failed code f p q v) = consume_other k other
