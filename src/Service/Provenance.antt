-- ===== src/Service/Provenance.antt =====
-- Where the tokens of a store come from.
use openid_tls_connector.Common.{
  ℕ, String, ◌≡◌, refl, sym, ap, ◌∙◌, ◌⊎◌, inl, inr, Bool, List, [], ◌∷◌, Option, none, some,
  Result, ok, err, arith, ◌==◌, eq_iff, Bool-cases, Result-cases, if◌then◌else◌,
}
use openid_tls_connector.External.{Bytes, Codec}
use openid_tls_connector.Url.{UrlLib}
use openid_tls_connector.Code.AuthorizationCode.{AuthorizationCode}
use openid_tls_connector.Code.Signature.{Cbor}
use openid_tls_connector.Code.Timestamp.{SystemTime}
use openid_tls_connector.Storage.{TokenStore, TokenRecord}
use openid_tls_connector.Storage.Contract.{Contract}
use openid_tls_connector.Token.{JwtLib, AccessTokenClaims}
use openid_tls_connector.Protocol.{
  AccessTokenRequest, Readings, TokenResponse, Failure, code_replay_key, access_token_request,
}
use openid_tls_connector.Protocol.Jti.{random_jti}
use openid_tls_connector.Protocol.Checks.{IsAuthorized}
use openid_tls_connector.Protocol.Success.{access_token_request_iff}
use openid_tls_connector.Protocol.Effect.{access_token_request-Effect}
use openid_tls_connector.Protocol.Consumption.{Effect-failure}
use openid_tls_connector.Router.{AppState, TokenParams, Headers, token_context}
use openid_tls_connector.Router.Credentials.{token_request, token_handler}
use openid_tls_connector.Router.Credentials.Requests.{IsRequestOf, token_request_iff}
use openid_tls_connector.Router.Bearer.{UserInfo}
use openid_tls_connector.Router.Bearer.Lifecycle.{Bears, userinfo_handler_iff}
use openid_tls_connector.Service.{
  Request, get_discovery, get_jwks, get_authorize, post_token, get_userinfo, info, handle,
  serve_all,
}

module _ (x : Codec) (cbor : Cbor) (from_utf8 : Bytes → Option String) {j : JwtLib}
    (state : AppState j) where
  -- The token request of a header, a body and its readings put this record into the store: it was
  -- authorized for a code, and the record says what the code says, for the client of the request.
  pub record Issued (headers : Headers) (env : Readings) (params : TokenParams) (jti : String)
      (found : TokenRecord) : Type 0 where
    pub request : AccessTokenRequest
    pub code : AuthorizationCode
    pub made : IsRequestOf x from_utf8 headers params request
    pub authorized :
        IsAuthorized x cbor j state.flow (token_context state) env.at_verify request code
    pub identifier : jti ≡ random_jti env.random
    pub subject : found.subject ≡ code.subject
    pub groups : found.groups ≡ code.groups
    pub scope : found.scope ≡ code.scope
    pub client_id : found.client_id ≡ code.client_id

  -- Some request of the list issued the record.
  abbrev pub WasIssued : List Request → String → TokenRecord → Type 0
  WasIssued [] jti found = ⊥
  WasIssued (post_token headers env params ∷ qs) jti found =
      Issued headers env params jti found ⊎ WasIssued qs jti found
  WasIssued (get_discovery ∷ qs) jti found = WasIssued qs jti found
  WasIssued (get_jwks ∷ qs) jti found = WasIssued qs jti found
  WasIssued (get_authorize headers at_code at_sign params ∷ qs) jti found = WasIssued qs jti found
  WasIssued (get_userinfo headers now ∷ qs) jti found = WasIssued qs jti found

module _ (x : Codec) (cbor : Cbor) (u : UrlLib) (table : ℕ → List ℕ)
    (from_utf8 : Bytes → Option String) {j : JwtLib} {S : Type 0} (t : TokenStore S)
    (consumed : S → String → Bool) (contract : Contract t consumed) (state : AppState j) where
  module _ (headers : Headers) (env : Readings) (params : TokenParams) (s : S) (jti : String)
      (found : TokenRecord) where
    -- After a grant, a record was there before, or is the one of the grant.
    granted_record :
        (req : AccessTokenRequest) (s' : S) (response : TokenResponse)
        → token_request x from_utf8 headers params ≡ ok req
        → access_token_request x cbor j t state.flow (token_context state) env req s
          ≡ (s', ok response)
        → t.lookup s' jti ≡ some found
        → Issued x cbor from_utf8 state headers env params jti found ⊎ (t.lookup s jti ≡ some found)
    granted_record req s' response made granted h =
        let g =
          (access_token_request_iff x cbor j t state.flow (token_context state) env req s s'
              response).0
            granted in
        let new : TokenRecord = record {
          subject = g.code.subject;
          client_id = req.client_id;
          scope = g.code.scope;
          groups = g.code.groups;
          expires_at = g.issued.expires_at;
          jti = random_jti env.random;
        } in
        let now : t.lookup s' jti ≡ (
            if random_jti env.random == jti
            then some new
            else t.lookup (t.consume_code s (code_replay_key x req.code)).0 jti) =
          ap (λ r. t.lookup r jti) g.issued.stored ∙ contract.lookup-issue _ _ _ _ _ _ _ jti in
        elim (Bool-cases (random_jti env.random == jti)) [
          | inl e ↦
              let same : new ≡ found = ground arith in
              inl (record {
                request = req;
                code = g.code;
                made = (token_request_iff x from_utf8 headers params req).0 made;
                authorized = g.authorized;
                identifier = sym ((eq_iff (random_jti env.random) jti).0 e);
                subject = sym (ap (λ (r : TokenRecord). r.subject) same);
                groups = sym (ap (λ (r : TokenRecord). r.groups) same);
                scope = sym (ap (λ (r : TokenRecord). r.scope) same);
                client_id =
                    sym (ap (λ (r : TokenRecord). r.client_id) same) ∙ sym g.authorized.same_client;
              })
          | inr e ↦
              inr (
                sym (contract.lookup-consume_code s (code_replay_key x req.code) jti)
                ∙ ground arith)
        ]

    flow_record :
        (req : AccessTokenRequest) (s' : S) (r : Result Failure TokenResponse)
        → token_request x from_utf8 headers params ≡ ok req
        → access_token_request x cbor j t state.flow (token_context state) env req s ≡ (s', r)
        → t.lookup s' jti ≡ some found
        → Issued x cbor from_utf8 state headers env params jti found ⊎ (t.lookup s jti ≡ some found)
    flow_record req s' (ok response) made e h = granted_record req s' response made e h
    flow_record req s' (err f) made e h =
        let effect =
          access_token_request-Effect x cbor j t state.flow (token_context state) env req s s'
            (err f) e in
        inr (
          sym (
            Effect-failure x cbor j t consumed contract state.flow (token_context state) env req s
              jti effect)
          ∙ h)

    handler_record :
        t.lookup (token_handler x from_utf8 cbor t state headers env params s).0 jti ≡ some found
        → Issued x cbor from_utf8 state headers env params jti found ⊎ (t.lookup s jti ≡ some found)
    unfolding token_handler
    handler_record h = elim (Result-cases (token_request x from_utf8 headers params)) [
      | inr (e, p) ↦ inr (ground arith)
      | inl (req, p) ↦ flow_record req _ _ p refl (ground arith)
    ]

  -- A record of a store is one of the requests', or was there before them.
  history_record :
      (qs : List Request) (s : S) (jti : String) (found : TokenRecord)
      → t.lookup (serve_all x cbor u table from_utf8 t state qs s) jti ≡ some found
      → WasIssued x cbor from_utf8 state qs jti found ⊎ (t.lookup s jti ≡ some found)
  unfolding serve_all
  history_record [] s jti found h = inr h
  history_record (get_discovery ∷ qs) s jti found h = history_record qs s jti found h
  history_record (get_jwks ∷ qs) s jti found h = history_record qs s jti found h
  history_record (get_authorize headers at_code at_sign params ∷ qs) s jti found h =
      history_record qs s jti found h
  history_record (get_userinfo headers now ∷ qs) s jti found h = history_record qs s jti found h
  history_record (post_token headers env params ∷ qs) s jti found h =
      elim (history_record qs _ jti found h) [
        | inl issued ↦ inl (inr issued)
        | inr before ↦ elim (handler_record headers env params s jti found before) [
          | inl issued ↦ inl (inl issued)
          | inr earlier ↦ inr earlier
        ]
      ]

  -- On a store that keeps the trait's promises and has no token at first: whenever `/userinfo`
  -- answers after a history of requests, some token request of that history was authorized for a
  -- code, with the identifier that the bearer's verified token names, and the answer is the user, the
  -- groups, the scope and the client of that code.
  pub userinfo_provenance :
      (qs : List Request) (s : S)
      → ((jti : String) → t.lookup s jti ≡ none)
      → (headers : Headers) (now : SystemTime) (answer : UserInfo)
      → (handle x cbor u table from_utf8 t state
          (get_userinfo headers now)
          (serve_all x cbor u table from_utf8 t state qs s)).1
        ≡ info answer
      → (claims : AccessTokenClaims) × (found : TokenRecord) × Bears state now headers claims
        × WasIssued x cbor from_utf8 state qs claims.jti found
        × (answer ≡ record {
          sub = found.subject;
          groups = found.groups;
          scope = found.scope;
          client_id = found.client_id;
        })
  unfolding handle
  userinfo_provenance qs s empty headers now answer h =
      let after = serve_all x cbor u table from_utf8 t state qs s in
      let (claims, found, bears, known, shown) =
        (userinfo_handler_iff state now headers t after answer).0 (ground arith) in
      elim (history_record qs s claims.jti found known) [
        | inl issued ↦ (claims, found, bears, issued, shown)
        | inr before ↦ cc (empty claims.jti)
      ]
