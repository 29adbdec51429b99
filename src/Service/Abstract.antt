-- ===== src/Service/Abstract.antt =====
-- The service over any store is the service over the abstract store.
use openid_tls_connector.Common.{
  ℕ, String, ◌≡◌, refl, ap, ◌∙◌, inl, inr, Bool, List, [], ◌∷◌, Option, Result, arith, Result-cases,
}
use openid_tls_connector.External.{Bytes, Codec}
use openid_tls_connector.Url.{UrlLib}
use openid_tls_connector.Code.Signature.{Cbor}
use openid_tls_connector.Common.Assoc
use openid_tls_connector.Storage
use openid_tls_connector.Storage.{TokenStore, in_memory}
use openid_tls_connector.Storage.InMemory.{is_consumed, in_memory-Contract}
use openid_tls_connector.Storage.Contract.{Contract}
use openid_tls_connector.Storage.Abstract.{View, empty_view, abstract_store, view, seen}
use openid_tls_connector.Token.{JwtLib}
use openid_tls_connector.Protocol.{Readings, TokenResponse, Failure}
use openid_tls_connector.Protocol.Abstract.{seen-access_token_request}
use openid_tls_connector.Router.{AppState, TokenParams, Headers, token_context}
use openid_tls_connector.Router.Credentials.{token_request, token_handler}
use openid_tls_connector.Router.Bearer.{userinfo_handler}
use openid_tls_connector.Service.{
  Request, get_discovery, get_jwks, get_authorize, post_token, get_userinfo, Response, tokens,
  response_of, handle, serve_all,
}

module _ (x : Codec) (cbor : Cbor) (u : UrlLib) (table : ℕ → List ℕ)
    (from_utf8 : Bytes → Option String) {j : JwtLib} {S : Type 0} (t : TokenStore S)
    (consumed : S → String → Bool) (contract : Contract t consumed) (state : AppState j) where
  seen-token_handler :
      (headers : Headers) (env : Readings) (params : TokenParams) (s : S)
      → seen t consumed (token_handler x from_utf8 cbor t state headers env params s)
        ≡ token_handler x from_utf8 cbor abstract_store state headers env params (view t consumed s)
  unfolding token_handler
  seen-token_handler headers env params s =
      elim (Result-cases (token_request x from_utf8 headers params)) [
        | inr (e, p) ↦ ground arith
        | inl (req, p) ↦ ground (
          arith,
          seen-access_token_request x cbor j t consumed contract state.flow (token_context state)
              env req s,
        )
      ]

  seen-handle :
      (q : Request) (s : S)
      → seen t consumed (handle x cbor u table from_utf8 t state q s)
        ≡ handle x cbor u table from_utf8 abstract_store state q (view t consumed s)
  unfolding handle userinfo_handler
  seen-handle get_discovery s = refl
  seen-handle get_jwks s = refl
  seen-handle (get_authorize headers at_code at_sign params) s = refl
  seen-handle (get_userinfo headers now) s = refl
  seen-handle (post_token headers env params) s =
      ap (λ (r : View × Result Failure TokenResponse). (r.0, response_of tokens r.1))
        (seen-token_handler headers env params s)

  view-serve_all :
      (qs : List Request) (s : S)
      → view t consumed (serve_all x cbor u table from_utf8 t state qs s)
        ≡ serve_all x cbor u table from_utf8 abstract_store state qs (view t consumed s)
  unfolding serve_all
  view-serve_all [] s = refl
  view-serve_all (q ∷ qs) s =
      view-serve_all qs _
      ∙ ap (λ (r : View × Response). serve_all x cbor u table from_utf8 abstract_store state qs r.0)
          (seen-handle q s)

  handle_refines :
      (qs : List Request) (q : Request) (s : S)
      → seen t consumed (
          handle x cbor u table from_utf8 t state q
            (serve_all x cbor u table from_utf8 t state qs s))
        ≡ handle x cbor u table from_utf8 abstract_store state q
            (serve_all x cbor u table from_utf8 abstract_store state qs (view t consumed s))
  handle_refines qs q s =
      seen-handle q (serve_all x cbor u table from_utf8 t state qs s)
      ∙ ap (λ (v : View). handle x cbor u table from_utf8 abstract_store state q v)
          (view-serve_all qs s)

-- The service over the in-memory store refines the service over the abstract store, in which the
-- records and the consumed codes are functions and a change is a change of a function at one place:
-- both begin with no record and no consumed code, and after any history of requests they give the
-- same response to any request, and the records and consumed codes that can be looked up in the
-- one are the functions of the other.
pub handle-in_memory :
    (x : Codec) (cbor : Cbor) (u : UrlLib) (table : ℕ → List ℕ) (from_utf8 : Bytes → Option String)
    {j : JwtLib} (state : AppState j) (qs : List Request) (q : Request)
    → seen in_memory is_consumed (
        handle x cbor u table from_utf8 in_memory state q
          (serve_all x cbor u table from_utf8 in_memory state qs Storage.new))
      ≡ handle x cbor u table from_utf8 abstract_store state q
          (serve_all x cbor u table from_utf8 abstract_store state qs empty_view)
unfolding Storage.new Storage.lookup Assoc.lookup
handle-in_memory x cbor u table from_utf8 state qs q =
    handle_refines x cbor u table from_utf8 in_memory is_consumed in_memory-Contract state qs q
      Storage.new
