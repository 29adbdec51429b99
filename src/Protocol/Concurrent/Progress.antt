-- ===== src/Protocol/Concurrent/Progress.antt =====
-- A thread that runs alone, and the sequential request.
use openid_tls_connector.Common.{
  ◌≡◌, refl, ap, ◌∙◌, ◌↔◌, inl, inr, Bool, true, false, Result, ok, err, arith, Result-cases,
  Bool-cases,
}
use openid_tls_connector.External.{Codec}
use openid_tls_connector.Code.AuthorizationCode.{AuthorizationCode}
use openid_tls_connector.Code.Signature.{Cbor}
use openid_tls_connector.Storage.{TokenStore}
use openid_tls_connector.Token.{JwtLib}
use openid_tls_connector.Protocol.{
  AccessTokenRequest, TokenIssueContext, OidcAuthCodePkceFlow, TokenResponse, Readings, Failure,
  error, code_replay_key, check_request, issue_tokens, redeem, access_token_request,
}
use openid_tls_connector.Protocol.Errors.{OidcError}
use openid_tls_connector.Protocol.Success.{grant_type-cases}
use openid_tls_connector.Protocol.Concurrent.{
  Stage, idle, begun, redeeming, finished, replayed, Move, begin, refuse, lose, win, issue,
}

module _ (x : Codec) (cbor : Cbor) (j : JwtLib) {S : Type 0} (t : TokenStore S)
    (flow : OidcAuthCodePkceFlow) (ctx : TokenIssueContext j) where
  -- Moves of one thread, with no step of another between them.
  pub data Alone (s : S) (p : Stage) : S → Stage → Type 0 where
    here : Alone s p s p
    next :
        {s' s'' : S} {p' p'' : Stage}
        → Alone s p s' p'
        → Move x cbor j t flow ctx s' p' s'' p''
        → Alone s p s'' p''

  module _ (env : Readings) (req : AccessTokenRequest) (s : S) where
    -- What is known of a thread that has run alone from the beginning of its request.
    abbrev Follows : S → Stage → Type 0
    Follows s' idle = ⊥
    Follows s' (begun env' req') = (s ≡ s') × (env ≡ env') × (req ≡ req')
    Follows s' (redeeming env' req' code) =
        (env ≡ env')
        × (req ≡ req')
        × (check_request x cbor j flow ctx env.at_verify req ≡ ok code)
        × (t.consume_code s (code_replay_key x req.code) ≡ (s', true))
    Follows s' (finished env' req' r) =
        (env ≡ env') × (req ≡ req') × (access_token_request x cbor j t flow ctx env req s ≡ (s', r))

    pub request_refuse :
        (e : OidcError)
        → check_request x cbor j flow ctx env.at_verify req ≡ err e
        → access_token_request x cbor j t flow ctx env req s ≡ (s, err (error e))
    unfolding access_token_request
    request_refuse e c = ground (arith, grant_type-cases req.grant_type)

    pub request_lose :
        (code : AuthorizationCode) (s' : S)
        → check_request x cbor j flow ctx env.at_verify req ≡ ok code
        → t.consume_code s (code_replay_key x req.code) ≡ (s', false)
        → access_token_request x cbor j t flow ctx env req s ≡ (s', replayed)
    unfolding access_token_request redeem
    request_lose code s' c e = ground (arith, grant_type-cases req.grant_type)

    pub request_win :
        (code : AuthorizationCode) (s' : S)
        → check_request x cbor j flow ctx env.at_verify req ≡ ok code
        → t.consume_code s (code_replay_key x req.code) ≡ (s', true)
        → access_token_request x cbor j t flow ctx env req s ≡ issue_tokens j t ctx env req code s'
    unfolding access_token_request redeem
    request_win code s' c e = ground (arith, grant_type-cases req.grant_type)

    Move-Follows :
        {s' s'' : S} {p' p'' : Stage}
        → Move x cbor j t flow ctx s' p' s'' p''
        → Follows s' p'
        → Follows s'' p''
    Move-Follows (begin env' req') f = elim f [ ]
    Move-Follows (refuse env' req' e c) (same, at_env, at_req) =
        let checked : check_request x cbor j flow ctx env.at_verify req ≡ err e = cc in
        (at_env, at_req, request_refuse e checked ∙ ap (λ r. (r, err (error e))) same)
    Move-Follows (lose env' req' code s'' c e) (same, at_env, at_req) =
        let checked : check_request x cbor j flow ctx env.at_verify req ≡ ok code = cc in
        let taken : t.consume_code s (code_replay_key x req.code) ≡ (s'', false) = cc in
        (at_env, at_req, request_lose code s'' checked taken)
    Move-Follows (win env' req' code s'' c e) (same, at_env, at_req) =
        let checked : check_request x cbor j flow ctx env.at_verify req ≡ ok code = cc in
        let taken : t.consume_code s (code_replay_key x req.code) ≡ (s'', true) = cc in
        (at_env, at_req, checked, taken)
    Move-Follows {s'} (issue env' req' code s'' r e) (at_env, at_req, c, taken) =
        let issued : issue_tokens j t ctx env req code s' ≡ (s'', r) = cc in
        (at_env, at_req, request_win code s' c taken ∙ issued)

    Alone-Follows : {s' : S} {p' : Stage} → Alone s (begun env req) s' p' → Follows s' p'
    Alone-Follows here = (refl, refl, refl)
    Alone-Follows (next a mv) = Move-Follows mv (Alone-Follows a)

    -- The thread's own moves to the end of its request.
    begun_finishes :
        (r : Result Failure TokenResponse) (s' : S)
        → access_token_request x cbor j t flow ctx env req s ≡ (s', r)
        → Alone s (begun env req) s' (finished env req r)
    begun_finishes r s' h =
        elim (Result-cases (check_request x cbor j flow ctx env.at_verify req)) [
          | inr (e, c) ↦ same_end (next here (refuse env req e c)) (request_refuse e c)
          | inl (code, c) ↦
              let after = (t.consume_code s (code_replay_key x req.code)).0 in
              elim (Bool-cases (t.consume_code s (code_replay_key x req.code)).1) [
                | inr b ↦
                    let taken : t.consume_code s (code_replay_key x req.code) ≡ (after, false) =
                      ap (λ (v : Bool). (after, v)) b in
                    same_end (next here (lose env req code after c taken))
                      (request_lose code after c taken)
                | inl b ↦
                    let taken : t.consume_code s (code_replay_key x req.code) ≡ (after, true) =
                      ap (λ (v : Bool). (after, v)) b in
                    same_end
                      (next (next here (win env req code after c taken))
                        (issue env req code _ _ refl))
                      (request_win code after c taken)
              ]
        ]
      where
        same_end :
            {s₁ : S} {r₁ : Result Failure TokenResponse}
            → Alone s (begun env req) s₁ (finished env req r₁)
            → access_token_request x cbor j t flow ctx env req s ≡ (s₁, r₁)
            → Alone s (begun env req) s' (finished env req r)
        same_end {s₁} {r₁} a e =
            let stores : s₁ ≡ s' = cc in let answers : r₁ ≡ r = cc in rw (← stores, ← answers) a

    -- A thread that begins a request and runs alone ends with an answer and a store exactly if these
    -- are the answer and the store of the sequential request.
    pub Alone-iff :
        (s' : S) (r : Result Failure TokenResponse)
        → Alone s (begun env req) s' (finished env req r)
          ↔ (access_token_request x cbor j t flow ctx env req s ≡ (s', r))
    Alone-iff s' r = (λ a. (Alone-Follows a).2, begun_finishes r s')
