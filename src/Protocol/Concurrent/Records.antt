-- ===== src/Protocol/Concurrent/Records.antt =====
-- Where the token records come from, however the threads are interleaved.
use openid_tls_connector.Common.{
  ℕ, String, ◌≡◌, refl, sym, ap, ◌∙◌, ◌⊎◌, inl, inr, Bool, true, false, none, some, Result, ok, err,
  arith, ◌==◌, eq_iff, eqb, Bool-cases,
}
use openid_tls_connector.External.{Codec}
use openid_tls_connector.Code.AuthorizationCode.{AuthorizationCode}
use openid_tls_connector.Code.Signature.{Cbor}
use openid_tls_connector.Code.Timestamp.{SystemTime}
use openid_tls_connector.Storage.{TokenStore, TokenRecord}
use openid_tls_connector.Storage.Contract.{Contract}
use openid_tls_connector.Token.{JwtLib}
use openid_tls_connector.Protocol.{
  AccessTokenRequest, TokenIssueContext, OidcAuthCodePkceFlow, TokenResponse, Readings, Failure,
  code_replay_key, check_request, issue_tokens, add_duration,
}
use openid_tls_connector.Protocol.Checks.{IsAuthorized, check_request_iff}
use openid_tls_connector.Protocol.Jti.{random_jti}
use openid_tls_connector.Protocol.Success.{issue_tokens-AreIssued}
use openid_tls_connector.Protocol.Effect.{issue_tokens-eq-err}
use openid_tls_connector.Protocol.Concurrent.{
  Stage, idle, begun, redeeming, finished, Move, begin, refuse, lose, win, issue, System, update,
  Step, turn, revoke, Reach, start, later,
}
use openid_tls_connector.Protocol.Concurrent.Winner.{Won, one_winner}

module _ (x : Codec) (cbor : Cbor) (j : JwtLib) {S : Type 0} (t : TokenStore S)
    (consumed : S → String → Bool) (contract : Contract t consumed) (flow : OidcAuthCodePkceFlow)
    (ctx : TokenIssueContext j) where
  -- The record is the one of a request that was authorized for a code.
  pub record IsRecordOf (env : Readings) (req : AccessTokenRequest) (jti : String)
      (found : TokenRecord) : Type 0 where
    pub code : AuthorizationCode
    pub authorized : IsAuthorized x cbor j flow ctx env.at_verify req code
    pub identifier : jti ≡ random_jti env.random
    pub expires_at : SystemTime
    pub expiry : add_duration env.at_expiry ctx.access_token_ttl ≡ some expires_at
    pub content : found ≡ record {
      subject = code.subject;
      client_id = req.client_id;
      scope = code.scope;
      groups = code.groups;
      expires_at = expires_at;
      jti = jti;
    }

  -- The thread has issued the record.
  abbrev Gave : String → TokenRecord → Stage → Type 0
  Gave jti found (finished env req (ok response)) = IsRecordOf env req jti found
  Gave jti found _ = ⊥

  -- A thread whose code has been consumed for it has checked its request.
  abbrev IsChecked : Stage → Type 0
  IsChecked (redeeming env req code) = check_request x cbor j flow ctx env.at_verify req ≡ ok code
  IsChecked _ = Unit

  Move-IsChecked : {s s' : S} {p p' : Stage} → Move x cbor j t flow ctx s p s' p' → IsChecked p'
  Move-IsChecked (begin env req) = tt
  Move-IsChecked (refuse env req e c) = tt
  Move-IsChecked (lose env req code s' c e) = tt
  Move-IsChecked (win env req code s' c e) = c
  Move-IsChecked (issue env req code s' r e) = tt

  consume_code-lookup :
      (s s' : S) (key jti : String) (b : Bool)
      → t.consume_code s key ≡ (s', b)
      → t.lookup s' jti ≡ t.lookup s jti
  consume_code-lookup s s' key jti b e =
      sym (ap (λ (r : S × Bool). t.lookup r.0 jti) e) ∙ contract.lookup-consume_code s key jti

  issue_tokens-Gave :
      (env : Readings) (req : AccessTokenRequest) (code : AuthorizationCode) (s s' : S)
      (r : Result Failure TokenResponse) (jti : String) (found : TokenRecord)
      → check_request x cbor j flow ctx env.at_verify req ≡ ok code
      → issue_tokens j t ctx env req code s ≡ (s', r)
      → t.lookup s' jti ≡ some found
      → Gave jti found (finished env req r) ⊎ (t.lookup s jti ≡ some found)
  issue_tokens-Gave env req code s s' (err f) jti found c e h = inr (
      ap (λ v. t.lookup v jti) (sym (issue_tokens-eq-err x cbor j t flow ctx env req s code f e).0)
      ∙ h)
  issue_tokens-Gave env req code s s' (ok response) jti found c e h =
      let issued = issue_tokens-AreIssued j t ctx env req code s s' response e in
      let after =
        ap (λ v. t.lookup v jti) issued.stored ∙ contract.lookup-issue _ _ _ _ _ _ _ jti in
      elim (Bool-cases (random_jti env.random == jti)) [
        | inr other ↦ inr (ground arith)
        | inl here ↦
            let same : random_jti env.random ≡ jti = (eq_iff (random_jti env.random) jti).0 here in
            inl (record {
              code = code;
              authorized = (check_request_iff x cbor j flow ctx env.at_verify req code).0 c;
              identifier = sym same;
              expires_at = issued.expires_at;
              expiry = issued.expiry;
              content = ground arith;
            })
      ]

  -- A record that is there after a move was there before, or is what the thread has issued.
  Move-Gave :
      {s s' : S} {p p' : Stage} (jti : String) (found : TokenRecord)
      → Move x cbor j t flow ctx s p s' p'
      → IsChecked p
      → t.lookup s' jti ≡ some found
      → Gave jti found p' ⊎ (t.lookup s jti ≡ some found)
  Move-Gave jti found (begin env req) ch h = inr h
  Move-Gave jti found (refuse env req e c) ch h = inr h
  Move-Gave {s} jti found (lose env req code s' c e) ch h =
      inr (sym (consume_code-lookup s s' (code_replay_key x req.code) jti false e) ∙ h)
  Move-Gave {s} jti found (win env req code s' c e) ch h =
      inr (sym (consume_code-lookup s s' (code_replay_key x req.code) jti true e) ∙ h)
  Move-Gave {s} jti found (issue env req code s' r e) ch h =
      issue_tokens-Gave env req code s s' r jti found ch e h

  -- A thread that has issued a record makes no move.
  Move-ended :
      {s s' : S} {p p' : Stage} (jti : String) (found : TokenRecord)
      → Move x cbor j t flow ctx s p s' p'
      → Gave jti found p
      → ⊥
  Move-ended jti found (begin env req) g = g
  Move-ended jti found (refuse env req e c) g = g
  Move-ended jti found (lose env req code s' c e) g = g
  Move-ended jti found (win env req code s' c e) g = g
  Move-ended jti found (issue env req code s' r e) g = g

  Gave-finished :
      (jti : String) (found : TokenRecord) (p : Stage)
      → Gave jti found p
      → (env : Readings) × (req : AccessTokenRequest) × (response : TokenResponse) × (p
          ≡ finished env req (ok response))
        × IsRecordOf env req jti found
  Gave-finished jti found idle g = elim g [ ]
  Gave-finished jti found (begun env req) g = elim g [ ]
  Gave-finished jti found (redeeming env req code) g = elim g [ ]
  Gave-finished jti found (finished env req (err f)) g = elim g [ ]
  Gave-finished jti found (finished env req (ok response)) g = (env, req, response, refl, g)

  record Traced (s : S) (c : System S) : Type 0 where
    pub checked : (i : ℕ) → IsChecked (c.stage i)
    pub traced :
        (jti : String) (found : TokenRecord)
        → t.lookup c.store jti ≡ some found
        → ((i : ℕ) × Gave jti found (c.stage i)) ⊎ (t.lookup s jti ≡ some found)

  module _ (s : S) (c : System S) (k : Traced s c) (i : ℕ) (s' : S) (p : Stage)
      (mv : Move x cbor j t flow ctx c.store (c.stage i) s' p) where
    turn-IsChecked : (l : ℕ) → IsChecked (update c.stage i p l)
    turn-IsChecked l = elim (Bool-cases (eqb i l)) [
      | inl e ↦ rw e (Move-IsChecked mv)
      | inr e ↦ rw e (k.checked l)
    ]

    -- Who issued a record before the turn is another thread, and stands where it stood.
    turn-Gave :
        (jti : String) (found : TokenRecord) (l : ℕ)
        → Gave jti found (c.stage l)
        → Gave jti found (update c.stage i p l)
    turn-Gave jti found l g = elim (Bool-cases (eqb i l)) [
      | inl e ↦ let same : l ≡ i = ground arith in absurd (Move-ended jti found mv (rw same at g))
      | inr e ↦ rw e g
    ]

    turn-Traced : Traced s (record { store = s'; stage = update c.stage i p })
    turn-Traced = record {
      checked = turn-IsChecked;
      traced = λ jti found h. elim (Move-Gave jti found mv (k.checked i) h) [
        | inl now ↦ let same : eqb i i ≡ true = ground arith in inl (i, rw same now)
        | inr before ↦ elim (k.traced jti found before) [
          | inl (l, g) ↦ inl (l, turn-Gave jti found l g)
          | inr first ↦ inr first
        ]
      ];
    }

  Step-Traced : (s : S) {c c' : System S} → Step x cbor j t flow ctx c c' → Traced s c → Traced s c'
  Step-Traced s {c} (turn i s' p mv) k = turn-Traced s c k i s' p mv
  Step-Traced s {c} (revoke revoked) k = record {
    checked = k.checked;
    traced = λ jti found h.
        k.traced jti found (ground (arith, contract.lookup-revoke c.store revoked jti));
  }

  Reach-Traced : {s : S} {c : System S} → Reach x cbor j t flow ctx s c → Traced s c
  Reach-Traced start = record { checked = λ i. tt; traced = λ jti found h. inr h }
  Reach-Traced {s} (later r st) = Step-Traced s st (Reach-Traced r)

  -- On a store that keeps the trait's promises, in every state that any number of threads reach in
  -- any interleaving of their steps, with revocations between: a token record that was not there at
  -- the start is the record of a request that one thread has answered with tokens; the request was
  -- authorized for a code, whose subject, groups and scope the record has, the code's key is
  -- consumed, and no other thread was, or is to be, granted tokens for it.
  pub record_origin :
      (s : S) (c : System S)
      → Reach x cbor j t flow ctx s c
      → (jti : String) (found : TokenRecord) → t.lookup s jti ≡ none
      → t.lookup c.store jti ≡ some found
      → (i : ℕ) × (env : Readings) × (req : AccessTokenRequest) × (response : TokenResponse)
        × (c.stage i ≡ finished env req (ok response))
        × IsRecordOf env req jti found
        × (consumed c.store (code_replay_key x req.code) ≡ true)
        × ((l : ℕ)
            → Won x cbor j t consumed contract flow ctx (c.stage l) (code_replay_key x req.code)
            → i ≡ l)
  record_origin s c r jti found absent h = elim ((Reach-Traced r).traced jti found h) [
    | inr first ↦ absurd (ground (arith, absent, first))
    | inl (i, g) ↦
        let (env, req, response, at_end, of) = Gave-finished jti found (c.stage i) g in
        let key = code_replay_key x req.code in
        let won : Won x cbor j t consumed contract flow ctx (c.stage i) key = rw at_end refl in
        (
          i,
          env,
          req,
          response,
          at_end,
          of,
          (one_winner x cbor j t consumed contract flow ctx s c r i i key won won).1,
          λ l w. (one_winner x cbor j t consumed contract flow ctx s c r i l key won w).0,
        )
  ]
