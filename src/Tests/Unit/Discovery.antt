-- ===== src/Tests/Unit/Discovery.antt =====
-- The tests of src/oidc/discovery.rs and endpoints.rs, for a URL library that reads and joins their
-- URLs as the `url` crate does. Those that write JSON are left out.
use openid_tls_connector.Common.{
  String, ◌≡◌, refl, Bool, true, false, ◌&&◌, List, [], ◌∷◌, some, ok, arith, ◌==◌, if◌then◌else◌,
}
use openid_tls_connector.Url.{UrlLib}
use openid_tls_connector.Discovery.{
  OidcEndpointPaths, OidcDiscovery, default_paths, discovery_info, new, get_discovery_info,
  ends_with, pop, canonicalize_issuer, endpoint_url,
}
use openid_tls_connector.Tests.Unit.{on_some, on_ok}

abbrev test_paths : OidcEndpointPaths
test_paths = default_paths

-- src/oidc/endpoints.rs
abbrev test_default_paths : Bool
test_default_paths =
    let paths = default_paths in
    paths.authorization_endpoint == "/authorize"
    && paths.token_endpoint == "/token"
    && paths.userinfo_endpoint == "/userinfo"
    && paths.jwks_uri == "/jwks"

default_paths_test_passes : test_default_paths ≡ true
default_paths_test_passes = refl

abbrev contains : List String → String → Bool
contains [] t = false
contains (s ∷ ss) t = if s == t then true else contains ss t

module _ (u : UrlLib) where
  abbrev on_info : String → (OidcDiscovery → Bool) → Bool
  on_info text p = on_ok (λ issuer. on_some p (discovery_info u issuer test_paths)) (u.parse text)

  abbrev test_discovery_info_urls_no_trailing_slash : Bool
  test_discovery_info_urls_no_trailing_slash = on_info "https://auth.example.com" λ info.
      info.issuer == "https://auth.example.com"
      && info.authorization_endpoint == "https://auth.example.com/authorize"
      && info.token_endpoint == "https://auth.example.com/token"
      && info.userinfo_endpoint == "https://auth.example.com/userinfo"
      && info.jwks_uri == "https://auth.example.com/jwks"

  abbrev test_discovery_info_urls_with_trailing_slash : Bool
  test_discovery_info_urls_with_trailing_slash = on_info "https://auth.example.com/" λ info.
      info.issuer == "https://auth.example.com"
      && info.authorization_endpoint == "https://auth.example.com/authorize"

  abbrev test_discovery_info_issuer_with_path : Bool
  test_discovery_info_issuer_with_path = on_info "https://auth.example.com/oidc" λ info.
      info.issuer == "https://auth.example.com/oidc"
      && info.authorization_endpoint == "https://auth.example.com/authorize"

  abbrev test_discovery_info_supported_values : Bool
  test_discovery_info_supported_values = on_info "https://auth.example.com" λ info.
      contains info.scopes_supported "openid"
      && contains info.response_types_supported "code"
      && contains info.grant_types_supported "authorization_code"
      && contains info.id_token_signing_alg_values_supported "RS256"
      && contains info.code_challenge_methods_supported "S256"

  abbrev test_discovery_manager : Bool
  test_discovery_manager =
      on_ok
        (λ issuer.
          on_some (λ manager. (get_discovery_info manager).issuer == "https://auth.example.com")
            (new u issuer test_paths))
        (u.parse "https://auth.example.com")

  -- What `url` makes of the tests' URLs: an origin without a path is written with one slash, and a
  -- path that begins with a slash takes the place of the base's path.
  record ReadsUrls : Type 0 where
    pub origin : u.Url
    pub with_path : u.Url
    pub authorize : u.Url
    pub token : u.Url
    pub userinfo : u.Url
    pub jwks : u.Url
    pub parses : u.parse "https://auth.example.com" ≡ ok origin
    pub parses_slash : u.parse "https://auth.example.com/" ≡ ok origin
    pub parses_path : u.parse "https://auth.example.com/oidc" ≡ ok with_path
    pub writes : u.to_text origin ≡ "https://auth.example.com/"
    pub writes_path : u.to_text with_path ≡ "https://auth.example.com/oidc"
    pub joins_authorize : u.join origin "/authorize" ≡ ok authorize
    pub joins_path : u.join with_path "/authorize" ≡ ok authorize
    pub joins_token : u.join origin "/token" ≡ ok token
    pub joins_path_token : u.join with_path "/token" ≡ ok token
    pub joins_userinfo : u.join origin "/userinfo" ≡ ok userinfo
    pub joins_path_userinfo : u.join with_path "/userinfo" ≡ ok userinfo
    pub joins_jwks : u.join origin "/jwks" ≡ ok jwks
    pub joins_path_jwks : u.join with_path "/jwks" ≡ ok jwks
    pub writes_authorize : u.to_text authorize ≡ "https://auth.example.com/authorize"
    pub writes_token : u.to_text token ≡ "https://auth.example.com/token"
    pub writes_userinfo : u.to_text userinfo ≡ "https://auth.example.com/userinfo"
    pub writes_jwks : u.to_text jwks ≡ "https://auth.example.com/jwks"

  abbrev documented : String → OidcDiscovery
  documented issuer = record {
    issuer = issuer;
    authorization_endpoint = "https://auth.example.com/authorize";
    token_endpoint = "https://auth.example.com/token";
    userinfo_endpoint = "https://auth.example.com/userinfo";
    jwks_uri = "https://auth.example.com/jwks";
    scopes_supported = "openid" ∷ "email" ∷ "profile" ∷ [];
    response_types_supported = "code" ∷ [];
    grant_types_supported = "authorization_code" ∷ [];
    subject_types_supported = "public" ∷ [];
    id_token_signing_alg_values_supported = "RS256" ∷ [];
    code_challenge_methods_supported = "S256" ∷ "plain" ∷ [];
  }

  module _ (r : ReadsUrls) where
    canonical_origin : canonicalize_issuer u r.origin ≡ "https://auth.example.com"
    unfolding canonicalize_issuer ends_with pop
    canonical_origin = rw r.writes refl

    canonical_path : canonicalize_issuer u r.with_path ≡ "https://auth.example.com/oidc"
    unfolding canonicalize_issuer ends_with pop
    canonical_path = rw r.writes_path refl

    origin_info :
        discovery_info u r.origin test_paths ≡ some (documented "https://auth.example.com")
    unfolding discovery_info endpoint_url
    origin_info = ground (arith, canonical_origin)

    path_info :
        discovery_info u r.with_path test_paths ≡ some (documented "https://auth.example.com/oidc")
    unfolding discovery_info endpoint_url
    path_info = ground (arith, canonical_path)

    info_tests_pass :
        (test_discovery_info_urls_no_trailing_slash ≡ true)
        × (test_discovery_info_urls_with_trailing_slash ≡ true)
        × (test_discovery_info_issuer_with_path ≡ true)
        × (test_discovery_info_supported_values ≡ true)
        × (test_discovery_manager ≡ true)
    unfolding new
    info_tests_pass = (
      ground (arith, origin_info),
      ground (arith, origin_info),
      ground (arith, path_info),
      ground (arith, origin_info),
      ground (arith, origin_info),
    )
