-- ===== src/Router/Authorize/Steps.antt =====
-- The single steps of `authorize_handler`, turned around.
use openid_tls_connector.Common.{
  String, ◌≡◌, refl, ◌↔◌, Bool, false, inl, inr, true, Option, none, some, Result, ok, err, ok_or,
  arith, Result-cases, Option-cases, eq_iff,
}
use openid_tls_connector.Url.{UrlLib}
use openid_tls_connector.Code.Pkce.{CodeChallengeMethod, plain, s256}
use openid_tls_connector.Users.{User, UserError}
use openid_tls_connector.Protocol.{Failure}
use openid_tls_connector.Protocol.Errors.{OidcError, ResponseType, code, response_type_from_str}
use openid_tls_connector.Router.{AuthorizeParams}
use openid_tls_connector.Router.Authorize.{parse_method, checked, resolved, redirect_location}

-- What the query's method must say for each method of PKCE.
abbrev pub NamesMethod : Option String → CodeChallengeMethod → Type 0
NamesMethod none m = m ≡ plain
NamesMethod (some s) plain = s ≡ "plain"
NamesMethod (some s) s256 = s ≡ "S256"

pub parse_method_iff :
    (o : Option String) (m : CodeChallengeMethod) → (parse_method o ≡ ok m) ↔ NamesMethod o m
unfolding parse_method
parse_method_iff none m = (λ h. ground arith, λ h. ground arith)
parse_method_iff (some s) plain =
    (λ h. ground (arith, eq_iff s "plain", eq_iff s "S256"), λ h. rw h refl)
parse_method_iff (some s) s256 = (λ h. ground (arith, eq_iff s "S256"), λ h. rw h refl)

pub response_type_iff : (s : String) → (response_type_from_str s ≡ ok code) ↔ (s ≡ "code")
unfolding response_type_from_str
response_type_iff s = (λ h. ground (arith, eq_iff s "code"), λ h. rw h refl)

-- The URI with the code, and the state where the request has one, in its query.
abbrev pub location_for : (u : UrlLib) → u.Url → String → Option String → String
location_for u uri encoded none = u.to_text (u.append_pair uri "code" encoded)
location_for u uri encoded (some state) =
    u.to_text (u.append_pair (u.append_pair uri "code" encoded) "state" state)

pub ok_or-eq-ok {ℓ κ} :
    {E : Type ℓ} {A : Type κ} (o : Option A) (e : E) {a : A} → ok_or o e ≡ ok a → o ≡ some a
ok_or-eq-ok none e h = cc
ok_or-eq-ok (some b) e h = cc

pub checked-true : (b : Bool) (f : Failure) {a : Unit {0}} → checked b f ≡ ok a → b ≡ true
checked-true true f h = refl
checked-true false f h = cc

pub unique {ℓ} : {A : Type ℓ} {o : Option A} {a b : A} → o ≡ some a → o ≡ some b → a ≡ b
unique p q = cc

pub only_code : (r : Result OidcError ResponseType) (c : ResponseType) → r ≡ ok c → r ≡ ok code
only_code r code h = h

pub resolved-eq-ok :
    (o : Option (Result UserError User)) {user : User} → resolved o ≡ ok user → o ≡ some (ok user)
unfolding resolved
resolved-eq-ok none h = cc
resolved-eq-ok (some (ok v)) h = cc
resolved-eq-ok (some (err e)) h = cc

pub redirect_location_iff :
    (u : UrlLib) (params : AuthorizeParams) (encoded location : String)
    → (redirect_location u params encoded ≡ ok location) ↔ (
        (uri : u.Url) × (u.parse params.redirect_uri ≡ ok uri)
        × (location ≡ location_for u uri encoded params.state))
unfolding redirect_location
redirect_location_iff u params encoded location = (
  λ h. elim (Result-cases (u.parse params.redirect_uri)) [
    | inr (e, p) ↦ absurd (ground arith)
    | inl (uri, p) ↦ elim (Option-cases params.state) [
      | inl q ↦ (uri, p, ground arith)
      | inr (st, q) ↦ (uri, p, ground arith)
    ]
  ],
  λ (uri, p, q). elim (Option-cases params.state) [
    | inl r ↦ ground arith
    | inr (st, r) ↦ ground arith
  ],
)
