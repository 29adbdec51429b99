-- ===== src/Tests/Startup.antt =====
-- A start of the server, whose issuer is configured with a slash at its end.
use openid_tls_connector.Common.{
  ℕ, zero, suc, String, List, ◌≡◌, ◌≢◌, refl, [], ◌∷◌, some, none, Result, ok,
}
use openid_tls_connector.Client
use openid_tls_connector.Token.{from_pem}
use openid_tls_connector.Discovery.{
  discovery_info, canonicalize_issuer, endpoint_url, ends_with, pop,
}
use openid_tls_connector.Discovery
use openid_tls_connector.Router.{AppState}
use openid_tls_connector.Storage
use openid_tls_connector.Server.Started.{IsStarted, main_iff}
use openid_tls_connector.Server.{
  Config, ConfigFile, Serving, load, with_defaults, config_path, main, startup, hmac_key_of,
  from_secs,
}
use openid_tls_connector.Server.Hex.{hex_to_32_bytes, hex_digit}
use openid_tls_connector.Server.Hex.RoundTrip.{IsHex, hex_to_32_bytes_lem}
use openid_tls_connector.Server.Startup.{issuers_differ}
use openid_tls_connector.Tests.Samples.{
  repeated, codec, jwt_lib, url_lib, app, web, registry, jwt_issuer,
}

-- The text of a key.
abbrev pub repeated_text : ℕ → String
repeated_text zero = String.[]
repeated_text (suc n) = String.◌∷◌ "f" (String.◌∷◌ "0" (repeated_text n))

repeated-IsHex : (n : ℕ) → IsHex (repeated_text n) (repeated n)
unfolding hex_digit
repeated-IsHex zero = refl
repeated-IsHex (suc n) = (
  repeated_text n,
  record {
    first = "f";
    second = "0";
    high = 15;
    low = 0;
    shape = refl;
    first_digit = refl;
    second_digit = refl;
    value = refl;
  },
  repeated-IsHex n,
)

hex_to_32_bytes_lem_example : hex_to_32_bytes (repeated_text 32) ≡ some (some (repeated 32))
hex_to_32_bytes_lem_example =
    hex_to_32_bytes_lem (repeated 32) (repeated_text 32) (repeated-IsHex 32) refl

pub key_read : hmac_key_of (repeated_text 32) ≡ ok (repeated 32)
unfolding hmac_key_of
key_read =
    rw (hmac_key_of, hex_to_32_bytes_lem (repeated 32) (repeated_text 32) (repeated-IsHex 32) refl)

abbrev pub config : Config
config = record {
  issuer = "https://id/";
  listen_addr = "127.0.0.1:8080";
  code_max_age_seconds = 60;
  code_hmac_key = repeated_text 32;
  user_header = "X-Client-Cert-Subject";
  dn_attribute = "CN";
  id_token_ttl_seconds = 3600;
  access_token_ttl_seconds = 3600;
  signing_key_path = "key.pem";
  clients = app ∷ web ∷ [];
  default_groups = [];
}

abbrev pub read_to_string : String → Result String String
read_to_string path = ok "pem"

abbrev started : AppState jwt_lib
started = record {
  flow = record { code_max_age = from_secs 60; hmac_key = repeated 32 };
  jwt_issuer = record jwt_issuer { issuer = "https://id/" };
  clients = registry;
  user_manager = record { dn_attribute = "CN" };
  discovery_manager = record {
    discovery = record {
      issuer = "https://id";
      authorization_endpoint = "/authorize";
      token_endpoint = "/token";
      userinfo_endpoint = "/userinfo";
      jwks_uri = "/jwks";
      scopes_supported = "openid" ∷ "email" ∷ "profile" ∷ [];
      response_types_supported = "code" ∷ [];
      grant_types_supported = "authorization_code" ∷ [];
      subject_types_supported = "public" ∷ [];
      id_token_signing_alg_values_supported = "RS256" ∷ [];
      code_challenge_methods_supported = "S256" ∷ "plain" ∷ [];
    };
  };
  user_header = "X-Client-Cert-Subject";
  id_token_ttl = from_secs 3600;
  access_token_ttl = from_secs 3600;
  default_groups = [];
}

start_runs : startup codec jwt_lib url_lib read_to_string config ≡ ok started
unfolding startup from_pem Client.new Discovery.new discovery_info canonicalize_issuer endpoint_url
    ends_with pop
start_runs = rw (startup, key_read) refl

issuers_differ_example :
    (started.jwt_issuer.issuer ≡ "https://id/")
    × (started.discovery_manager.discovery.issuer ≡ "https://id")
    × (started.jwt_issuer.issuer ≢ started.discovery_manager.discovery.issuer)
issuers_differ_example =
    issuers_differ codec jwt_lib url_lib read_to_string config started "https://id/" "https://id"
      start_runs refl refl refl

-- The file, without what it has by default.
abbrev pub file : ConfigFile
file = record {
  issuer = "https://id/";
  listen_addr = "127.0.0.1:8080";
  code_max_age_seconds = 60;
  code_hmac_key = repeated_text 32;
  user_header = none;
  dn_attribute = none;
  id_token_ttl_seconds = none;
  access_token_ttl_seconds = none;
  signing_key_path = "key.pem";
  clients = some (app ∷ web ∷ []);
  default_groups = none;
}

abbrev from_str : String → Result String ConfigFile
from_str contents = ok file

abbrev pub bind : String → Result String (Unit {0})
bind address = ok tt

abbrev serving : Serving jwt_lib
serving = record { state = started; token_store = Storage.new; listen_addr = "127.0.0.1:8080" }

loaded_runs : load read_to_string from_str "test.toml" ≡ ok config
unfolding load with_defaults
loaded_runs = refl

abbrev args : List String
args = "openid_tls_connector" ∷ "test.toml" ∷ []

main_runs : main codec jwt_lib url_lib read_to_string from_str bind args ≡ ok serving
unfolding main config_path
main_runs = rw (main, loaded_runs, start_runs) refl

main_iff_example : IsStarted codec jwt_lib url_lib read_to_string from_str bind args serving
main_iff_example =
    (main_iff codec jwt_lib url_lib read_to_string from_str bind args serving).0 main_runs
