-- ===== src/Protocol/Concurrent/Order/Agreement.antt =====
-- The codes that are consumed, by threads and by the requests in order.
use openid_tls_connector.Common.{
  ℕ, String, ◌≡◌, refl, sym, ap, ◌∙◌, Bool, true, false, not, Result, ◌==◌, if◌then◌else◌,
}
use openid_tls_connector.External.{Codec}
use openid_tls_connector.Code.Signature.{Cbor}
use openid_tls_connector.Storage.{TokenStore}
use openid_tls_connector.Storage.Contract.{Contract}
use openid_tls_connector.Token.{JwtLib}
use openid_tls_connector.Protocol.{
  TokenIssueContext, OidcAuthCodePkceFlow, TokenResponse, Failure, code_replay_key,
}
use openid_tls_connector.Protocol.Concurrent.{Stage, Move, begin, refuse, lose, win, issue}
use openid_tls_connector.Protocol.Concurrent.Progress.{request_refuse, request_lose, request_win}
use openid_tls_connector.Protocol.Concurrent.Winner.{issue_tokens-consumed, consume_code-consumed}
use openid_tls_connector.Protocol.Concurrent.Order.{serve_in_turn, place}

-- Two stores agree on the codes that are consumed.
abbrev pub Agree : {S : Type 0} → (S → String → Bool) → S → S → Type 0
Agree consumed v w = (k : String) → consumed v k ≡ consumed w k

module _ (x : Codec) (cbor : Cbor) (j : JwtLib) {S : Type 0} (t : TokenStore S)
    (flow : OidcAuthCodePkceFlow) (ctx : TokenIssueContext j) (consumed : S → String → Bool)
    (contract : Contract t consumed) where
  -- A code is consumed on both stores with the same answer, and they agree afterwards.
  pub consume-Agree :
      (v w w' : S) (key : String) (b : Bool)
      → Agree consumed v w
      → t.consume_code w key ≡ (w', b)
      → (t.consume_code v key ≡ ((t.consume_code v key).0, b))
        × Agree consumed (t.consume_code v key).0 w'
  consume-Agree v w w' key b same e =
      let answer : (t.consume_code v key).1 ≡ b =
        contract.first_use v key
        ∙ ap not (same key)
        ∙ sym (contract.first_use w key)
        ∙ ap (λ (r : S × Bool). r.1) e in
      (
        ap (λ (a : Bool). ((t.consume_code v key).0, a)) answer,
        λ k.
            contract.consumed-consume_code v key k
            ∙ ap (λ (a : Bool). if key == k then true else a) (same k)
            ∙ sym (consume_code-consumed x cbor j t consumed contract flow ctx w w' key k b e),
      )

  pub Move-Agree :
      (i : ℕ) (v : S) {w w' : S} {p p' : Stage} (mv : Move x cbor j t flow ctx w p w' p')
      → Agree consumed v w
      → Agree consumed (serve_in_turn x cbor j t flow ctx (place x cbor j t flow ctx i mv) v) w'
  Move-Agree i v (begin env req) same k = same k
  Move-Agree i v (refuse env req e c) same k =
      ap (λ (r : S × Result Failure TokenResponse). consumed r.0 k)
        (request_refuse x cbor j t flow ctx env req v e c)
      ∙ same k
  Move-Agree i v {w} (lose env req code w' c e) same k =
      let (taken, after) = consume-Agree v w w' (code_replay_key x req.code) false same e in
      ap (λ (r : S × Result Failure TokenResponse). consumed r.0 k)
        (request_lose x cbor j t flow ctx env req v code _ c taken)
      ∙ after k
  Move-Agree i v {w} (win env req code w' c e) same k =
      let (taken, after) = consume-Agree v w w' (code_replay_key x req.code) true same e in
      ap (λ (r : S × Result Failure TokenResponse). consumed r.0 k)
        (request_win x cbor j t flow ctx env req v code _ c taken)
      ∙ issue_tokens-consumed x cbor j t consumed contract flow ctx env req code _ _ _ k refl
      ∙ after k
  Move-Agree i v {w} (issue env req code w' r e) same k =
      same k
      ∙ sym (issue_tokens-consumed x cbor j t consumed contract flow ctx env req code w w' r k e)
