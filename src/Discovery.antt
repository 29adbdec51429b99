-- ===== src/Discovery.antt =====
-- src/oidc/discovery.rs and src/oidc/endpoints.rs: the discovery document.
pub mod Issuer
use Prim.Native.Char.{Char, code}
use Prim.Native.String
use openid_tls_connector.Common.{
  ℕ, String, Bool, true, false, List, [], ◌∷◌, Option, none, some, Result, ok, err, eqb,
  if◌then◌else◌,
}
use openid_tls_connector.Url.{UrlLib}

-- `OIDCEndpointPaths`
pub record OidcEndpointPaths : Type 0 where
  pub authorization_endpoint : String
  pub token_endpoint : String
  pub userinfo_endpoint : String
  pub jwks_uri : String

abbrev pub default_paths : OidcEndpointPaths
default_paths = record {
  authorization_endpoint = "/authorize";
  token_endpoint = "/token";
  userinfo_endpoint = "/userinfo";
  jwks_uri = "/jwks";
}

-- `OIDCDiscovery`
pub record OidcDiscovery : Type 0 where
  pub issuer : String
  pub authorization_endpoint : String
  pub token_endpoint : String
  pub userinfo_endpoint : String
  pub jwks_uri : String
  pub scopes_supported : List String
  pub response_types_supported : List String
  pub grant_types_supported : List String
  pub subject_types_supported : List String
  pub id_token_signing_alg_values_supported : List String
  pub code_challenge_methods_supported : List String

-- `ends_with` a character, and `pop`.
unfoldable pub ends_with : ℕ → String → Bool
ends_with d String.[] = false
ends_with d (String.◌∷◌ c String.[]) = eqb (code c) d
ends_with d (String.◌∷◌ c (String.◌∷◌ e s)) = ends_with d (String.◌∷◌ e s)

unfoldable pub pop : String → String
pop String.[] = String.[]
pop (String.◌∷◌ c String.[]) = String.[]
pop (String.◌∷◌ c (String.◌∷◌ e s)) = String.◌∷◌ c (pop (String.◌∷◌ e s))

module _ (u : UrlLib) where
  open u use {Url, parse, to_text, join}

  unfoldable pub canonicalize_issuer : Url → String
  canonicalize_issuer issuer = let s = to_text issuer in if ends_with b'/' s then pop s else s

  -- `base.join(path).unwrap().to_string()`: `none` is a panic.
  unfoldable pub endpoint_url : Url → String → Option String
  endpoint_url base path = elim (join base path) [ ok j ↦ some (to_text j) | err e ↦ none ]

  abbrev base_url : Url → Url
  base_url issuer = elim (parse (canonicalize_issuer issuer)) [ ok b ↦ b | err e ↦ issuer ]

  infixl 5 ◌>>=◌
  abbrev ◌>>=◌ {ℓ κ} : {A : Type ℓ} {B : Type κ} → Option A → (A → Option B) → Option B
  none >>= f = none
  some a >>= f = f a

  unfoldable pub discovery_info : Url → OidcEndpointPaths → Option OidcDiscovery
  discovery_info issuer paths = do
    authorization_endpoint ← endpoint_url (base_url issuer) paths.authorization_endpoint
    token_endpoint ← endpoint_url (base_url issuer) paths.token_endpoint
    userinfo_endpoint ← endpoint_url (base_url issuer) paths.userinfo_endpoint
    jwks_uri ← endpoint_url (base_url issuer) paths.jwks_uri
    some (record {
      issuer = canonicalize_issuer issuer;
      authorization_endpoint = authorization_endpoint;
      token_endpoint = token_endpoint;
      userinfo_endpoint = userinfo_endpoint;
      jwks_uri = jwks_uri;
      scopes_supported = "openid" ∷ "email" ∷ "profile" ∷ [];
      response_types_supported = "code" ∷ [];
      grant_types_supported = "authorization_code" ∷ [];
      subject_types_supported = "public" ∷ [];
      id_token_signing_alg_values_supported = "RS256" ∷ [];
      code_challenge_methods_supported = "S256" ∷ "plain" ∷ [];
    })

-- `DiscoveryManager`
pub record DiscoveryManager : Type 0 where
  pub discovery : OidcDiscovery

unfoldable pub new : (u : UrlLib) → u.Url → OidcEndpointPaths → Option DiscoveryManager
new u issuer paths = elim (discovery_info u issuer paths) [
  | none ↦ none
  | some d ↦ some (record { discovery = d })
]

abbrev pub get_discovery_info : DiscoveryManager → OidcDiscovery
get_discovery_info m = m.discovery
