-- ===== src/Protocol/Concurrent.antt =====
-- src/oidc/protocol.rs under concurrency: token requests served by several threads over one
-- store, each thread serving one request. A thread holds no lock between its calls of the store,
-- so a step is what it does up to and with its next call; the calls themselves are atomic.
pub mod Winner
pub mod Progress
pub mod Records
pub mod Order
use openid_tls_connector.Common.{
  ℕ, ◌<◌, String, ◌≡◌, Bool, true, false, Result, ok, err, eqb, if◌then◌else◌,
}
use openid_tls_connector.External.{Codec}
use openid_tls_connector.Code.AuthorizationCode.{AuthorizationCode}
use openid_tls_connector.Code.Signature.{Cbor}
use openid_tls_connector.Storage.{TokenStore}
use openid_tls_connector.Token.{JwtLib}
use openid_tls_connector.Protocol.{
  AccessTokenRequest, TokenIssueContext, OidcAuthCodePkceFlow, TokenResponse, Readings, Failure,
  error, code_replay_key, check_request, issue_tokens,
}
use openid_tls_connector.Protocol.Errors.{OidcError, invalid_grant}

-- Where a thread stands in `access_token_request`.
pub data Stage : Type 0 where
  idle : Stage
  -- It has its request, and has not called the store.
  begun : Readings → AccessTokenRequest → Stage
  -- The store has let it consume the code.
  redeeming : Readings → AccessTokenRequest → AuthorizationCode → Stage
  finished : Readings → AccessTokenRequest → Result Failure TokenResponse → Stage

abbrev pub replayed : Result Failure TokenResponse
replayed = err (error (invalid_grant "Authorization code has already been used"))

pub record System (S : Type 0) : Type 0 where
  pub store : S
  pub stage : ℕ → Stage

abbrev pub update : (ℕ → Stage) → ℕ → Stage → ℕ → Stage
update f i p k = if eqb i k then p else f k

abbrev pub begin_with : {S : Type 0} → S → System S
begin_with s = record { store = s; stage = λ i. idle }

module _ (x : Codec) (cbor : Cbor) (j : JwtLib) {S : Type 0} (t : TokenStore S)
    (flow : OidcAuthCodePkceFlow) (ctx : TokenIssueContext j) where
  -- One step of one thread over the store `s`.
  pub data Move (s : S) : Stage → S → Stage → Type 0 where
    begin : (env : Readings) (req : AccessTokenRequest) → Move s idle s (begun env req)
    refuse :
        (env : Readings) (req : AccessTokenRequest) (e : OidcError)
        → check_request x cbor j flow ctx env.at_verify req ≡ err e
        → Move s (begun env req) s (finished env req (err (error e)))
    lose :
        (env : Readings) (req : AccessTokenRequest) (code : AuthorizationCode) (s' : S)
        → check_request x cbor j flow ctx env.at_verify req ≡ ok code
        → t.consume_code s (code_replay_key x req.code) ≡ (s', false)
        → Move s (begun env req) s' (finished env req replayed)
    win :
        (env : Readings) (req : AccessTokenRequest) (code : AuthorizationCode) (s' : S)
        → check_request x cbor j flow ctx env.at_verify req ≡ ok code
        → t.consume_code s (code_replay_key x req.code) ≡ (s', true)
        → Move s (begun env req) s' (redeeming env req code)
    -- The tokens are signed, and the record is added, or the server fails.
    issue :
        (env : Readings) (req : AccessTokenRequest) (code : AuthorizationCode) (s' : S)
        (r : Result Failure TokenResponse)
        → issue_tokens j t ctx env req code s ≡ (s', r)
        → Move s (redeeming env req code) s' (finished env req r)

  -- A step of some thread, or the revocation of a token.
  pub data Step (c : System S) : System S → Type 0 where
    turn :
        (i : ℕ) (s' : S) (p : Stage)
        → Move c.store (c.stage i) s' p
        → Step c (record { store = s'; stage = update c.stage i p })
    revoke : (jti : String) → Step c (record c { store = (t.revoke c.store jti).0 })

  -- What the threads can reach, in any order of their steps.
  pub data Reach (s : S) : System S → Type 0 where
    start : Reach s (begin_with s)
    later : {c c' : System S} → Reach s c → Step c c' → Reach s c'
