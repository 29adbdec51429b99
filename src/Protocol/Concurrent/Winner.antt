-- ===== src/Protocol/Concurrent/Winner.antt =====
-- A code is granted to one thread at most, however the threads are interleaved.
use openid_tls_connector.Common.{
  ℕ, String, ◌≡◌, sym, ap, ◌∙◌, ◌⊎◌, inl, inr, Bool, true, false, Result, ok, err, arith, ◌==◌,
  eq_iff, eqb, Bool-cases, if◌then◌else◌,
}
use openid_tls_connector.External.{Codec}
use openid_tls_connector.Code.AuthorizationCode.{AuthorizationCode}
use openid_tls_connector.Code.Signature.{Cbor}
use openid_tls_connector.Storage.{TokenStore}
use openid_tls_connector.Storage.Contract.{Contract}
use openid_tls_connector.Token.{JwtLib}
use openid_tls_connector.Protocol.{
  AccessTokenRequest, TokenIssueContext, OidcAuthCodePkceFlow, TokenResponse, Readings, Failure,
  code_replay_key, issue_tokens,
}
use openid_tls_connector.Protocol.Success.{issue_tokens-AreIssued}
use openid_tls_connector.Protocol.Effect.{issue_tokens-eq-err}
use openid_tls_connector.Protocol.Concurrent.{
  Stage, idle, begun, redeeming, finished, Move, begin, refuse, lose, win, issue, System, update,
  Step, turn, revoke, Reach, start, later,
}

module _ (x : Codec) (cbor : Cbor) (j : JwtLib) {S : Type 0} (t : TokenStore S)
    (consumed : S → String → Bool) (contract : Contract t consumed) (flow : OidcAuthCodePkceFlow)
    (ctx : TokenIssueContext j) where
  -- The thread has had the code of the key consumed for it, and is to be granted, or was granted,
  -- tokens for it.
  abbrev pub Won : Stage → String → Type 0
  Won idle k = ⊥
  Won (begun env req) k = ⊥
  Won (redeeming env req code) k = code_replay_key x req.code ≡ k
  Won (finished env req (ok response)) k = code_replay_key x req.code ≡ k
  Won (finished env req (err f)) k = ⊥

  pub issue_tokens-consumed :
      (env : Readings) (req : AccessTokenRequest) (code : AuthorizationCode) (s s' : S)
      (r : Result Failure TokenResponse) (k : String)
      → issue_tokens j t ctx env req code s ≡ (s', r)
      → consumed s' k ≡ consumed s k
  issue_tokens-consumed env req code s s' (ok response) k e =
      let issued = issue_tokens-AreIssued j t ctx env req code s s' response e in
      ap (λ r. consumed r k) issued.stored ∙ contract.consumed-issue _ _ _ _ _ _ _ k
  issue_tokens-consumed env req code s s' (err f) k e =
      ap (λ r. consumed r k) (issue_tokens-eq-err x cbor j t flow ctx env req s code f e).0

  pub consume_code-consumed :
      (s s' : S) (key k : String) (b : Bool)
      → t.consume_code s key ≡ (s', b)
      → consumed s' k ≡ (if key == k then true else consumed s k)
  consume_code-consumed s s' key k b e =
      sym (ap (λ (r : S × Bool). consumed r.0 k) e) ∙ contract.consumed-consume_code s key k

  Move-keeps :
      {s s' : S} {p p' : Stage} (k : String)
      → Move x cbor j t flow ctx s p s' p'
      → consumed s k ≡ true
      → consumed s' k ≡ true
  Move-keeps k (begin env req) h = h
  Move-keeps k (refuse env req e c) h = h
  Move-keeps {s} k (lose env req code s' c e) h =
      ground (arith, consume_code-consumed s s' (code_replay_key x req.code) k false e)
  Move-keeps {s} k (win env req code s' c e) h =
      ground (arith, consume_code-consumed s s' (code_replay_key x req.code) k true e)
  Move-keeps {s} k (issue env req code s' r e) h = issue_tokens-consumed env req code s s' r k e ∙ h

  -- Who wins a key finds it unconsumed, and leaves it consumed.
  Move-Won :
      {s s' : S} {p p' : Stage} (k : String)
      → Move x cbor j t flow ctx s p s' p'
      → Won p' k
      → Won p k ⊎ ((consumed s k ≡ false) × (consumed s' k ≡ true))
  Move-Won k (begin env req) w = elim w [ ]
  Move-Won k (refuse env req e c) w = elim w [ ]
  Move-Won k (lose env req code s' c e) w = elim w [ ]
  Move-Won {s} k (win env req code s' c e) w =
      let key = code_replay_key x req.code in
      inr (
        ground (arith, contract.first_use s key),
        ground (arith, consume_code-consumed s s' key k true e, eq_iff key k),
      )
  Move-Won k (issue env req code s' (ok response) e) w = inl w
  Move-Won k (issue env req code s' (err f) e) w = elim w [ ]

  record Inv (c : System S) : Type 0 where
    pub spent : (i : ℕ) (k : String) → Won (c.stage i) k → consumed c.store k ≡ true
    pub one : (i l : ℕ) (k : String) → Won (c.stage i) k → Won (c.stage l) k → i ≡ l

  -- Where the thread `l` stands after a turn of the thread `i`.
  pub moved :
      (f : ℕ → Stage) (i l : ℕ) (p : Stage) (k : String)
      → Won (update f i p l) k
      → ((i ≡ l) × Won p k) ⊎ Won (f l) k
  moved f i l p k w = elim (Bool-cases (eqb i l)) [
    | inl e ↦ inl (ground arith, rw e at w)
    | inr e ↦ inr (rw e at w)
  ]

  module _ (c : System S) (inv : Inv c) (i : ℕ) (s' : S) (p : Stage)
      (mv : Move x cbor j t flow ctx c.store (c.stage i) s' p) where
    turn_spent : (l : ℕ) (k : String) → Won (update c.stage i p l) k → consumed s' k ≡ true
    turn_spent l k w = elim (moved c.stage i l p k w) [
      | inr before ↦ Move-keeps k mv (inv.spent l k before)
      | inl (e, now) ↦ elim (Move-Won k mv now) [
        | inl before ↦ Move-keeps k mv (inv.spent i k before)
        | inr (_, after) ↦ after
      ]
    ]

    -- If the thread has won the key after its turn, any other winner is the thread itself.
    turn_one_of_now : (l : ℕ) (k : String) → Won p k → Won (c.stage l) k → i ≡ l
    turn_one_of_now l k now other = elim (Move-Won k mv now) [
      | inl before ↦ inv.one i l k before other
      | inr (free, _) ↦ cc (inv.spent l k other)
    ]

    turn-Inv : Inv (record { store = s'; stage = update c.stage i p })
    turn-Inv = record {
      spent = turn_spent;
      one = λ a b k w w'. elim (moved c.stage i a p k w) [
        | inl (e, now) ↦ elim (moved c.stage i b p k w') [
          | inl (e', now') ↦ sym e ∙ e'
          | inr before' ↦ sym e ∙ turn_one_of_now b k now before'
        ]
        | inr before ↦ elim (moved c.stage i b p k w') [
          | inl (e', now') ↦ sym (turn_one_of_now a k now' before) ∙ e'
          | inr before' ↦ inv.one a b k before before'
        ]
      ];
    }

  Step-Inv : {c c' : System S} → Step x cbor j t flow ctx c c' → Inv c → Inv c'
  Step-Inv {c} (turn i s' p mv) inv = turn-Inv c inv i s' p mv
  Step-Inv {c} (revoke jti) inv = record {
    spent = λ i k w. contract.consumed-revoke c.store jti k ∙ inv.spent i k w;
    one = inv.one;
  }

  Reach-Inv : {s : S} {c : System S} → Reach x cbor j t flow ctx s c → Inv c
  Reach-Inv start = record { spent = λ i k w. elim w [ ]; one = λ i l k w w'. elim w [ ] }
  Reach-Inv (later r st) = Step-Inv st (Reach-Inv r)

  -- On a store that keeps the trait's promises, in every state that any number of threads reach in
  -- any interleaving of their steps, with revocations between: two threads that were, or are to be,
  -- granted tokens for the codes of one key are the same thread, and the key is consumed.
  pub one_winner :
      (s : S) (c : System S)
      → Reach x cbor j t flow ctx s c
      → (i l : ℕ) (k : String) → Won (c.stage i) k
      → Won (c.stage l) k
      → (i ≡ l) × (consumed c.store k ≡ true)
  one_winner s c r i l k w w' = let inv = Reach-Inv r in (inv.one i l k w w', inv.spent i k w)
