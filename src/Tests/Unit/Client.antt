-- ===== src/Tests/Unit/Client.antt =====
-- The tests of src/oidc/client.rs.
use openid_tls_connector.Common.{
  String, ◌≡◌, refl, Bool, true, false, not, ◌&&◌, List, [], ◌∷◌, Option, none, some, Result,
}
use openid_tls_connector.Common.Text.{as_bytes, utf8}
use openid_tls_connector.Client.{
  AuthResult, allow, deny, ClientConfig, ClientRegistry, ClientRegistryError, new, find_by_id,
  validate_redirect_uri, validate_client_secret, constant_time_eq,
}
use openid_tls_connector.Storage.{is_some}
use openid_tls_connector.Tests.Unit.{on_ok, on_err}

abbrev is_allow : AuthResult → Bool
is_allow allow = true
is_allow deny = false

abbrev configured : String → Option String → List String → ClientConfig
configured client_id client_secret redirect_uris = record {
  client_id = client_id;
  client_secret = client_secret;
  redirect_uris = redirect_uris;
  groups = [];
}

abbrev registry : Result ClientRegistryError ClientRegistry
registry = new (
    configured "public-client" none ("https://app.example/cb" ∷ [])
    ∷ configured "confidential" (some "secret123") ("https://app.example/cb" ∷ [])
    ∷ [])

abbrev test_find_by_id : Bool
test_find_by_id =
    on_ok
      (λ reg. is_some (find_by_id reg "public-client") && not (is_some (find_by_id reg "unknown")))
      registry

abbrev test_validate_redirect_uri : Bool
test_validate_redirect_uri =
    on_ok
      (λ reg.
        validate_redirect_uri reg "public-client" "https://app.example/cb"
        && not (validate_redirect_uri reg "public-client" "https://evil.example/cb")
        && not (validate_redirect_uri reg "unknown" "https://app.example/cb"))
      registry

abbrev test_public_client_always_allowed : Bool
test_public_client_always_allowed =
    on_ok
      (λ reg.
        is_allow (validate_client_secret reg "public-client" none)
        && is_allow (validate_client_secret reg "public-client" (some "anything")))
      registry

abbrev test_confidential_client_requires_correct_secret : Bool
test_confidential_client_requires_correct_secret =
    on_ok
      (λ reg.
        not (is_allow (validate_client_secret reg "confidential" none))
        && not (is_allow (validate_client_secret reg "confidential" (some "wrong")))
        && is_allow (validate_client_secret reg "confidential" (some "secret123")))
      registry

abbrev test_unknown_client_denied : Bool
test_unknown_client_denied =
    on_ok (λ reg. not (is_allow (validate_client_secret reg "unknown" none))) registry

abbrev test_duplicate_client_id_rejected : Bool
test_duplicate_client_id_rejected =
    on_err (λ e. true) (new (configured "dup" none [] ∷ configured "dup" none [] ∷ []))

registry_tests_pass :
    (test_find_by_id ≡ true)
    × (test_validate_redirect_uri ≡ true)
    × (test_duplicate_client_id_rejected ≡ true)
unfolding new find_by_id validate_redirect_uri
registry_tests_pass = (refl, refl, refl)

secret_tests_pass :
    (test_public_client_always_allowed ≡ true)
    × (test_confidential_client_requires_correct_secret ≡ true)
    × (test_unknown_client_denied ≡ true)
unfolding new find_by_id validate_client_secret constant_time_eq as_bytes utf8
secret_tests_pass = (refl, refl, refl)
