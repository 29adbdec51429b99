-- ===== src/Protocol/Replay.antt =====
-- One-time use of codes, and what a request that fails leaves behind, on any store that keeps the
-- trait's promises.
use openid_tls_connector.Common.{
  ℕ, ◌+◌, ◌≤◌, String, ◌≡◌, refl, ap, ◌∙◌, ◌≢◌, inl, inr, Bool, true, false, ◌&&◌, List, [], ◌∷◌,
  Result, ok, err, arith, ◌==◌, eq_iff, if◌then◌else◌, Result-cases,
}
use openid_tls_connector.External.{Codec}
use openid_tls_connector.Code.AuthorizationCode.{AuthorizationCode}
use openid_tls_connector.Code.Signature.{Cbor}
use openid_tls_connector.Storage.{TokenStore}
use openid_tls_connector.Storage.Contract.{Contract}
use openid_tls_connector.Token.{JwtLib}
use openid_tls_connector.Protocol.{
  AccessTokenRequest, TokenIssueContext, OidcAuthCodePkceFlow, TokenResponse, Readings, Failure,
  error, code_replay_key, check_request, redeem, access_token_request,
}
use openid_tls_connector.Protocol.Errors.{OidcError, invalid_grant}
use openid_tls_connector.Protocol.Success.{grant_type-cases}
use openid_tls_connector.Protocol.Consumption.{
  Effect-keeps, Effect-grant, Effect-failure, Effect-other,
}
use openid_tls_connector.Protocol.Effect.{access_token_request-Effect}

module _ (x : Codec) (cbor : Cbor) (j : JwtLib) {S : Type 0} (t : TokenStore S)
    (consumed : S → String → Bool) (contract : Contract t consumed) (flow : OidcAuthCodePkceFlow)
    (ctx : TokenIssueContext j) where
  abbrev pub serve : Readings → AccessTokenRequest → S → S × Result Failure TokenResponse
  serve env req s = access_token_request x cbor j t flow ctx env req s

  -- A history of the store: token requests, each with its readings, and revocations.
  pub data Call : Type 0 where
    request : Readings → AccessTokenRequest → Call
    revocation : String → Call

  pub step : Call → S → S
  step (request env req) s = (serve env req s).0
  step (revocation jti) s = (t.revoke s jti).0

  abbrev is_grant : Result Failure TokenResponse → Bool
  is_grant (ok response) = true
  is_grant (err f) = false

  abbrev grants_now : String → Call → S → ℕ
  grants_now k (request env req) s =
      if code_replay_key x req.code == k && is_grant (serve env req s).1 then 1 else 0
  grants_now k (revocation jti) s = 0

  -- How many requests of the history were granted tokens for codes of the key.
  pub grants : String → List Call → S → ℕ
  grants k [] s = 0
  grants k (c ∷ cs) s = grants_now k c s + grants k cs (step c s)

  abbrev room : S → String → ℕ
  room s k = if consumed s k then 0 else 1

  serve-room :
      (k : String) (env : Readings) (req : AccessTokenRequest) (s s' : S)
      (r : Result Failure TokenResponse)
      → serve env req s ≡ (s', r)
      → (if code_replay_key x req.code == k && is_grant r then 1 else 0) + room s' k ≤ room s k
  serve-room k env req s s' (ok response) e =
      let effect = access_token_request-Effect x cbor j t flow ctx env req s s' (ok response) e in
      ground (
        arith,
        eq_iff (code_replay_key x req.code) k,
        Effect-grant x cbor j t consumed contract flow ctx env req s effect,
        Effect-keeps x cbor j t consumed contract flow ctx env req s k effect,
      )
  serve-room k env req s s' (err f) e =
      let effect = access_token_request-Effect x cbor j t flow ctx env req s s' (err f) e in
      ground (arith, Effect-keeps x cbor j t consumed contract flow ctx env req s k effect)

  step-room : (k : String) (c : Call) (s : S) → grants_now k c s + room (step c s) k ≤ room s k
  unfolding step
  step-room k (request env req) s = serve-room k env req s _ _ refl
  step-room k (revocation jti) s = ground (arith, contract.consumed-revoke s jti k)

  -- On a store that keeps the trait's promises: over any history of requests and revocations, at most
  -- one request is granted tokens for the codes of a key, and none if the key was consumed before.
  pub grants_bound :
      (k : String) (cs : List Call) (s : S) → grants k cs s ≤ (if consumed s k then 0 else 1)
  unfolding grants
  grants_bound k [] s = omega arith
  grants_bound k (c ∷ cs) s = omega (arith, step-room k c s, grants_bound k cs (step c s))

  unfoldable pub run : List Call → S → S
  run [] s = s
  run (c ∷ cs) s = run cs (step c s)

  step_keeps : (k : String) (c : Call) (s : S) → consumed s k ≡ true → consumed (step c s) k ≡ true
  unfolding step
  step_keeps k (request env req) s h =
      Effect-keeps x cbor j t consumed contract flow ctx env req s k
        (access_token_request-Effect x cbor j t flow ctx env req s _ _ refl) h
  step_keeps k (revocation jti) s h = contract.consumed-revoke s jti k ∙ h

  run_keeps :
      (k : String) (cs : List Call) (s : S) → consumed s k ≡ true → consumed (run cs s) k ≡ true
  unfolding run
  run_keeps k [] s h = h
  run_keeps k (c ∷ cs) s h = run_keeps k cs (step c s) (step_keeps k c s h)

  abbrev pub refusal : (r : Result OidcError AuthorizationCode) → Result Failure TokenResponse
  refusal (ok code) = err (error (invalid_grant "Authorization code has already been used"))
  refusal (err e) = err (error e)

  serve_consumed :
      (env : Readings) (req : AccessTokenRequest) (s : S)
      → consumed s (code_replay_key x req.code) ≡ true
      → (serve env req s).1 ≡ refusal (check_request x cbor j flow ctx env.at_verify req)
  unfolding access_token_request redeem
  serve_consumed env req s h =
      elim (Result-cases (check_request x cbor j flow ctx env.at_verify req)) [
        | inr (e, p) ↦ ground (arith, grant_type-cases req.grant_type)
        | inl (code, p) ↦ ground (
          arith,
          grant_type-cases req.grant_type,
          contract.first_use s (code_replay_key x req.code),
        )
      ]

  -- On a store that keeps the trait's promises: once a request was granted, then after any history a
  -- request with the same code, whatever else it holds, is refused: as a replay if it passes the checks, and else with the error of its checks.
  pub replay_refused :
      (env : Readings) (req : AccessTokenRequest) (s s' : S) (response : TokenResponse)
      → serve env req s ≡ (s', ok response)
      → (cs : List Call) (env' : Readings) (req' : AccessTokenRequest) → req'.code ≡ req.code
      → (serve env' req' (run cs s')).1
        ≡ refusal (check_request x cbor j flow ctx env'.at_verify req')
  replay_refused env req s s' response e cs env' req' same =
      let effect = access_token_request-Effect x cbor j t flow ctx env req s s' (ok response) e in
      let key = ap (code_replay_key x) same in
      serve_consumed env' req' (run cs s') (
        rw key (
          run_keeps (code_replay_key x req.code) cs s'
            (Effect-grant x cbor j t consumed contract flow ctx env req s effect).1))

  -- On a store that keeps the trait's promises: a request that fails, by an error or a panic, leaves
  -- every token's record as it was, and consumes no code but its own.
  pub failure_keeps :
      (env : Readings) (req : AccessTokenRequest) (s s' : S) (f : Failure)
      → serve env req s ≡ (s', err f)
      → (jti k : String) → k ≢ code_replay_key x req.code
      → (t.lookup s' jti ≡ t.lookup s jti) × (consumed s' k ≡ consumed s k)
  failure_keeps env req s s' f e jti k other =
      let effect = access_token_request-Effect x cbor j t flow ctx env req s s' (err f) e in
      (
        Effect-failure x cbor j t consumed contract flow ctx env req s jti effect,
        Effect-other x cbor j t consumed contract flow ctx env req s k other effect,
      )
