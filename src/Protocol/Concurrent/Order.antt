-- ===== src/Protocol/Concurrent/Order.antt =====
-- The requests of the threads in one order, in which they are served one after the other.
pub mod Linear
pub mod Agreement
use mathlib.Core.List.{append_assoc}
use openid_tls_connector.Common.{
  ◌≢◌, All, ℕ, String, ◌≡◌, refl, sym, ap, ◌∙◌, ◌⊎◌, inl, inr, Bool, true, false, not, List, [],
  ◌∷◌, ◌++◌, Result, ok, err, arith, ◌==◌, eqb, Bool-cases, Result-cases, if◌then◌else◌,
}
use openid_tls_connector.External.{Codec}
use openid_tls_connector.Code.AuthorizationCode.{AuthorizationCode}
use openid_tls_connector.Code.Signature.{Cbor}
use openid_tls_connector.Storage.{TokenStore}
use openid_tls_connector.Storage.Contract.{Contract}
use openid_tls_connector.Token.{JwtLib, issue_id_token, issue_access_token}
use openid_tls_connector.Protocol.{
  AccessTokenRequest, TokenIssueContext, OidcAuthCodePkceFlow, TokenResponse, Readings, Failure,
  code_replay_key, check_request, issue_tokens, access_token_request,
}
use openid_tls_connector.Protocol.Concurrent.{
  Stage, idle, begun, redeeming, finished, Move, begin, refuse, lose, win, issue, System, update,
  Step, turn, revoke, Reach, start, later,
}
use openid_tls_connector.Protocol.Concurrent.Progress.{request_refuse, request_lose, request_win}
use openid_tls_connector.Protocol.Concurrent.Winner.{issue_tokens-consumed, consume_code-consumed}

-- A thread's request, with the readings that it is served with.
abbrev pub Entry : Type 0
Entry = ℕ × Readings × AccessTokenRequest

-- No request of the thread is in the list.
abbrev pub Absent : List Entry → ℕ → Type 0
Absent es i = All (λ (e : Entry). i ≢ e.0) es

pub Absent-append : (es fs : List Entry) (i : ℕ) → Absent es i → Absent fs i → Absent (es ++ fs) i
Absent-append [] fs i h k = k
Absent-append (e ∷ es) fs i (ne, h) k = (ne, Absent-append es fs i h k)

module _ (x : Codec) (cbor : Cbor) (j : JwtLib) {S : Type 0} (t : TokenStore S)
    (flow : OidcAuthCodePkceFlow) (ctx : TokenIssueContext j) where
  -- The store after the requests, served one after the other.
  abbrev pub serve_in_turn : List Entry → S → S
  serve_in_turn [] s = s
  serve_in_turn ((i, env, req) ∷ es) s =
      serve_in_turn es (access_token_request x cbor j t flow ctx env req s).0

  -- A request takes its place when it is refused, or when the store answers on its code.
  abbrev pub place : ℕ → {s s' : S} {p p' : Stage} → Move x cbor j t flow ctx s p s' p' → List Entry
  place i (begin env req) = []
  place i (refuse env req e c) = (i, env, req) ∷ []
  place i (lose env req code s' c e) = (i, env, req) ∷ []
  place i (win env req code s' c e) = (i, env, req) ∷ []
  place i (issue env req code s' r e) = []

  abbrev pub place_of_step : {c c' : System S} → Step x cbor j t flow ctx c c' → List Entry
  place_of_step (turn i s' p mv) = place i mv
  place_of_step (revoke jti) = []

  -- The order of the requests of a run.
  abbrev pub order : {s : S} {c : System S} → Reach x cbor j t flow ctx s c → List Entry
  order start = []
  order (later r st) = order r ++ place_of_step st

  pub serve_in_turn-append :
      (es fs : List Entry) (s : S)
      → serve_in_turn (es ++ fs) s ≡ serve_in_turn fs (serve_in_turn es s)
  serve_in_turn-append [] fs s = refl
  serve_in_turn-append ((i, env, req) ∷ es) fs s = serve_in_turn-append es fs _

  -- The answer of the signing does not depend on the store.
  pub issue_tokens-answer :
      (env : Readings) (req : AccessTokenRequest) (code : AuthorizationCode) (s s' : S)
      → (issue_tokens j t ctx env req code s).1 ≡ (issue_tokens j t ctx env req code s').1
  unfolding issue_tokens
  issue_tokens-answer env req code s s' = ground arith

  pub place-Absent :
      (i l : ℕ)
      → l ≢ i
      → {w w' : S} {p p' : Stage} (mv : Move x cbor j t flow ctx w p w' p') → Absent (place i mv) l
  place-Absent i l ne (begin env req) = tt
  place-Absent i l ne (refuse env req e c) = (ne, tt)
  place-Absent i l ne (lose env req code w' c e) = (ne, tt)
  place-Absent i l ne (win env req code w' c e) = (ne, tt)
  place-Absent i l ne (issue env req code w' r e) = tt
