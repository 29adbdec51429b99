-- ===== src/Protocol/Concurrent/Order/Linear.antt =====
-- Every thread is answered as it is in the order of the requests.
use mathlib.Core.List.{append_assoc}
use openid_tls_connector.Common.{
  ◌≢◌, ℕ, String, ◌≡◌, refl, sym, ap, ◌∙◌, inl, inr, Bool, true, false, not, List, [], ◌∷◌, ◌++◌,
  Result, ok, arith, eqb, Bool-cases,
}
use openid_tls_connector.External.{Codec}
use openid_tls_connector.Code.AuthorizationCode.{AuthorizationCode}
use openid_tls_connector.Code.Signature.{Cbor}
use openid_tls_connector.Storage.{TokenStore}
use openid_tls_connector.Storage.Contract.{Contract}
use openid_tls_connector.Token.{JwtLib}
use openid_tls_connector.Protocol.{
  AccessTokenRequest, TokenIssueContext, OidcAuthCodePkceFlow, TokenResponse, Readings, Failure,
  code_replay_key, check_request, access_token_request,
}
use openid_tls_connector.Protocol.Concurrent.{
  Stage, idle, begun, redeeming, finished, Move, begin, refuse, lose, win, issue, System, Step,
  turn, revoke, Reach, start, later,
}
use openid_tls_connector.Protocol.Concurrent.Progress.{request_refuse, request_lose, request_win}
use openid_tls_connector.Protocol.Concurrent.Order.{
  Entry, serve_in_turn, place, place_of_step, order, Absent, Absent-append, serve_in_turn-append,
  issue_tokens-answer, place-Absent,
}
use openid_tls_connector.Protocol.Concurrent.Order.Agreement.{Agree, consume-Agree, Move-Agree}

module _ (x : Codec) (cbor : Cbor) (j : JwtLib) {S : Type 0} (t : TokenStore S)
    (flow : OidcAuthCodePkceFlow) (ctx : TokenIssueContext j) where
  module _ (consumed : S → String → Bool) (contract : Contract t consumed) (s : S) where
    -- The thread's request has its one place in an order, and its answer, as far as it has come,
    -- is what it is answered there.
    record IsPlaced (es : List Entry) (i : ℕ) (env : Readings) (req : AccessTokenRequest)
        (Answered : S → Type 0) : Type 0 where
      pub before : List Entry
      pub after : List Entry
      pub here : es ≡ before ++ (i, env, req) ∷ after
      pub once : Absent before i × Absent after i
      pub answered : Answered (serve_in_turn x cbor j t flow ctx before s)

    abbrev Wins : Readings → AccessTokenRequest → AuthorizationCode → S → Type 0
    Wins env req code v =
        (check_request x cbor j flow ctx env.at_verify req ≡ ok code)
        × (consumed v (code_replay_key x req.code) ≡ false)

    abbrev Gets : Readings → AccessTokenRequest → Result Failure TokenResponse → S → Type 0
    Gets env req r v = (access_token_request x cbor j t flow ctx env req v).1 ≡ r

    abbrev Placed : List Entry → ℕ → Stage → Type 0
    Placed es i idle = Absent es i
    Placed es i (begun env req) = Absent es i
    Placed es i (redeeming env req code) = IsPlaced es i env req (Wins env req code)
    Placed es i (finished env req r) = IsPlaced es i env req (Gets env req r)

    IsPlaced-append :
        (es fs : List Entry) (i : ℕ) (env : Readings) (req : AccessTokenRequest)
        (Answered : S → Type 0)
        → Absent fs i
        → IsPlaced es i env req Answered
        → IsPlaced (es ++ fs) i env req Answered
    IsPlaced-append es fs i env req Answered others p = record {
      before = p.before;
      after = p.after ++ fs;
      here = ap (λ v. v ++ fs) p.here ∙ append_assoc p.before ((i, env, req) ∷ p.after) fs;
      once = (p.once.0, Absent-append p.after fs i p.once.1 others);
      answered = p.answered;
    }

    Placed-append :
        (es fs : List Entry) (i : ℕ) (p : Stage)
        → Absent fs i
        → Placed es i p
        → Placed (es ++ fs) i p
    Placed-append es fs i idle others h = Absent-append es fs i h others
    Placed-append es fs i (begun env req) others h = Absent-append es fs i h others
    Placed-append es fs i (redeeming env req code) others h =
        IsPlaced-append es fs i env req (Wins env req code) others h
    Placed-append es fs i (finished env req r) others h =
        IsPlaced-append es fs i env req (Gets env req r) others h

    last_place :
        (es : List Entry) (i : ℕ) (env : Readings) (req : AccessTokenRequest)
        (Answered : S → Type 0)
        → Absent es i
        → Answered (serve_in_turn x cbor j t flow ctx es s)
        → IsPlaced (es ++ (i, env, req) ∷ []) i env req Answered
    last_place es i env req Answered others h = record {
      before = es;
      after = [];
      here = refl;
      once = (others, tt);
      answered = h;
    }

    Move-Placed :
        (es : List Entry) (i : ℕ) {w w' : S} {p p' : Stage}
        (mv : Move x cbor j t flow ctx w p w' p')
        → Agree consumed (serve_in_turn x cbor j t flow ctx es s) w
        → Placed es i p
        → Placed (es ++ place x cbor j t flow ctx i mv) i p'
    Move-Placed es i (begin env req) same h = Absent-append es [] i h tt
    Move-Placed es i (refuse env req e c) same h = last_place es i env req _ h (
        ap (λ (r : S × Result Failure TokenResponse). r.1)
          (request_refuse x cbor j t flow ctx env req _ e c))
    Move-Placed es i {w} (lose env req code w' c e) same h =
        let taken =
          (consume-Agree x cbor j t flow ctx consumed contract _ w w' (code_replay_key x req.code)
            false same e).0 in
        last_place es i env req _ h (
          ap (λ (r : S × Result Failure TokenResponse). r.1)
            (request_lose x cbor j t flow ctx env req _ code _ c taken))
    Move-Placed es i {w} (win env req code w' c e) same h =
        last_place es i env req (Wins env req code) h (
          c,
          same (code_replay_key x req.code)
              ∙ ground (arith, contract.first_use w (code_replay_key x req.code), e),
        )
    Move-Placed es i {w} (issue env req code w' r e) same h =
        let v = serve_in_turn x cbor j t flow ctx h.before s in
        let key = code_replay_key x req.code in
        let taken : t.consume_code v key ≡ ((t.consume_code v key).0, true) =
          ap (λ (a : Bool). ((t.consume_code v key).0, a))
            (contract.first_use v key ∙ ap not h.answered.1) in
        IsPlaced-append es [] i env req (Gets env req r) tt (record {
          before = h.before;
          after = h.after;
          here = h.here;
          once = h.once;
          answered =
              ap (λ (a : S × Result Failure TokenResponse). a.1)
                (request_win x cbor j t flow ctx env req v code _ h.answered.0 taken)
              ∙ issue_tokens-answer x cbor j t flow ctx env req code _ w
              ∙ ap (λ (a : S × Result Failure TokenResponse). a.1) e;
        })

    record Ordered (es : List Entry) (c : System S) : Type 0 where
      pub agree : Agree consumed (serve_in_turn x cbor j t flow ctx es s) c.store
      pub placed : (i : ℕ) → Placed es i (c.stage i)

    Step-Ordered :
        (es : List Entry) {c c' : System S} (st : Step x cbor j t flow ctx c c')
        → Ordered es c
        → Ordered (es ++ place_of_step x cbor j t flow ctx st) c'
    Step-Ordered es {c} (turn i s' p mv) o = record {
      agree = λ k.
          ap (λ v. consumed v k)
            (serve_in_turn-append x cbor j t flow ctx es (place x cbor j t flow ctx i mv) s)
          ∙ Move-Agree x cbor j t flow ctx consumed contract i
              (serve_in_turn x cbor j t flow ctx es s) mv o.agree k;
      placed = λ l. elim (Bool-cases (eqb i l)) [
        | inl e ↦
            let same : i ≡ l = ground arith in
            let self : eqb i i ≡ true = ground arith in
            rw (← same, self) (Move-Placed es i mv o.agree (o.placed i))
        | inr e ↦
            let other : l ≢ i = ground arith in
            rw e (
              Placed-append es (place x cbor j t flow ctx i mv) l (c.stage l)
                (place-Absent x cbor j t flow ctx i l other mv) (o.placed l))
      ];
    }
    Step-Ordered es {c} (revoke jti) o = record {
      agree = λ k.
          ap (λ v. consumed v k) (serve_in_turn-append x cbor j t flow ctx es [] s)
          ∙ o.agree k
          ∙ sym (contract.consumed-revoke c.store jti k);
      placed = λ l. Placed-append es [] l (c.stage l) tt (o.placed l);
    }

    Reach-Ordered :
        {c : System S} (r : Reach x cbor j t flow ctx s c) → Ordered (order x cbor j t flow ctx r) c
    Reach-Ordered start = record { agree = λ k. refl; placed = λ i. tt }
    Reach-Ordered (later r st) = Step-Ordered (order x cbor j t flow ctx r) st (Reach-Ordered r)

    -- On a store that keeps the trait's promises, in every state that any number of threads reach in
    -- any interleaving, with revocations between: serve the requests one after the other, in the
    -- order in which each was refused or the store answered on its code, on the store of the start.
    -- A thread that has finished has exactly one place in that order, with its request and readings,
    -- at which the request is answered as the thread was; and the codes that are consumed in the end
    -- are the same.
    pub one_order :
        (c : System S) (r : Reach x cbor j t flow ctx s c) (i : ℕ) (env : Readings)
        (req : AccessTokenRequest) (answer : Result Failure TokenResponse)
        → c.stage i ≡ finished env req answer
        → (before : List Entry) × (after : List Entry) × (order x cbor j t flow ctx r
            ≡ before ++ (i, env, req) ∷ after)
          × Absent before i
          × Absent after i
          × ((access_token_request x cbor j t flow ctx env req
                (serve_in_turn x cbor j t flow ctx before s)).1
              ≡ answer)
          × ((k : String)
              → consumed (serve_in_turn x cbor j t flow ctx (order x cbor j t flow ctx r) s) k
                ≡ consumed c.store k)
    one_order c r i env req answer e =
        let o = Reach-Ordered r in
        let p : Placed (order x cbor j t flow ctx r) i (finished env req answer) =
          rw e at (o.placed i) in
        (p.before, p.after, p.here, p.once.0, p.once.1, p.answered, o.agree)
