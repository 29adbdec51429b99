-- ===== src/Server.antt =====
-- src/bin/server/main.rs and src/bin/server/config.rs: the start of the server. The files that it
-- reads, TOML, the program's arguments and the network are arguments.
pub mod Hex
pub mod Startup
pub mod Main
pub mod Started
pub mod EndToEnd
use openid_tls_connector.Common.{
  ℕ, ◌*◌, String, List, [], Option, none, some, Result, ok, err, ◌>>=◌, map_err, ok_or, get_elem?,
}
use openid_tls_connector.External.{Bytes, Codec}
use openid_tls_connector.Url.{UrlLib}
use openid_tls_connector.Client.{ClientConfig, ClientRegistryError}
use openid_tls_connector.Client
use openid_tls_connector.Code.Timestamp.{Duration}
use openid_tls_connector.Token.{JwtLib, JwtIssuer, from_pem, nanos_per_sec}
use openid_tls_connector.Users.{UserManager}
use openid_tls_connector.Discovery.{DiscoveryManager, default_paths}
use openid_tls_connector.Discovery
use openid_tls_connector.Router.{AppState}
use openid_tls_connector.Storage.{InMemoryTokenStore}
use openid_tls_connector.Storage
use Hex.{hex_to_32_bytes}

pub record Config : Type 0 where
  pub issuer : String
  pub listen_addr : String
  pub code_max_age_seconds : ℕ
  pub code_hmac_key : String
  pub user_header : String
  pub dn_attribute : String
  pub id_token_ttl_seconds : ℕ
  pub access_token_ttl_seconds : ℕ
  pub signing_key_path : String
  pub clients : List ClientConfig
  pub default_groups : List String

-- A configuration as the file gives it: the fields with a `serde` default may be missing.
pub record ConfigFile : Type 0 where
  pub issuer : String
  pub listen_addr : String
  pub code_max_age_seconds : ℕ
  pub code_hmac_key : String
  pub user_header : Option String
  pub dn_attribute : Option String
  pub id_token_ttl_seconds : Option ℕ
  pub access_token_ttl_seconds : Option ℕ
  pub signing_key_path : String
  pub clients : Option (List ClientConfig)
  pub default_groups : Option (List String)

abbrev pub unwrap_or {ℓ} : {A : Type ℓ} → A → Option A → A
unwrap_or d none = d
unwrap_or d (some a) = a

unfoldable pub with_defaults : ConfigFile → Config
with_defaults f = record {
  issuer = f.issuer;
  listen_addr = f.listen_addr;
  code_max_age_seconds = f.code_max_age_seconds;
  code_hmac_key = f.code_hmac_key;
  user_header = unwrap_or "X-Client-Cert-Subject" f.user_header;
  dn_attribute = unwrap_or "CN" f.dn_attribute;
  id_token_ttl_seconds = unwrap_or 3600 f.id_token_ttl_seconds;
  access_token_ttl_seconds = unwrap_or 3600 f.access_token_ttl_seconds;
  signing_key_path = f.signing_key_path;
  clients = unwrap_or [] f.clients;
  default_groups = unwrap_or [] f.default_groups;
}

-- The start ends with an error that `main` returns, or in a panic with its message.
pub data StartError : Type 0 where
  panic : String → StartError
  load_failed : String → StartError
  registry : ClientRegistryError → StartError
  invalid_url : String → StartError
  bind_failed : String → StartError

abbrev pub from_secs : ℕ → Duration
from_secs n = n * nanos_per_sec

-- A panic inside a call is a panic of `main`; an answer without a key is one of `expect`.
unfoldable pub hmac_key_of : String → Result StartError Bytes
unfolding hex_to_32_bytes
hmac_key_of hex = elim (hex_to_32_bytes hex) [
  | none ↦ err (panic "byte index is not a char boundary")
  | some none ↦ err (panic "code_hmac_key must be 64 hex characters (32 bytes)")
  | some (some key) ↦ ok key
]

module _ (x : Codec) (j : JwtLib) (u : UrlLib)
    (read_to_string : String → Result String String) where
  -- `main` from the loaded configuration to the state that the handlers are given. The clients are
  -- copied field by field, which is the list itself.
  unfoldable pub startup : Config → Result StartError (AppState j)
  startup config = do
    hmac_key ← hmac_key_of config.code_hmac_key
    pem ←
        map_err (λ e. panic "Failed to read signing key PEM file")
          (read_to_string config.signing_key_path)
    jwt_issuer ←
        map_err (λ e. panic "Failed to initialize JWT issuer") (from_pem j x pem config.issuer)
    client_registry ← map_err registry (Client.new config.clients)
    issuer_url ← map_err invalid_url (u.parse config.issuer)
    discovery_manager ←
        ok_or (Discovery.new u issuer_url default_paths)
          (panic "called `Result::unwrap()` on an `Err` value")
    let user_manager : UserManager = record { dn_attribute = config.dn_attribute }
    ok (record {
      flow = record { code_max_age = from_secs config.code_max_age_seconds; hmac_key = hmac_key };
      jwt_issuer = jwt_issuer;
      clients = client_registry;
      user_manager = user_manager;
      discovery_manager = discovery_manager;
      user_header = config.user_header;
      id_token_ttl = from_secs config.id_token_ttl_seconds;
      access_token_ttl = from_secs config.access_token_ttl_seconds;
      default_groups = config.default_groups;
    })

-- `std::env::args().nth(1)`, the first of them being the program's name.
unfoldable pub config_path : List String → String
config_path args = unwrap_or "config.toml" (get_elem? args 1)

-- `Config::load`: `from_str` is TOML's reader of the fields.
unfoldable pub load :
    (String → Result String String)
    → (String → Result String ConfigFile)
    → String
    → Result String Config
unfolding with_defaults
load read_to_string from_str path = do
  contents ← read_to_string path
  file ← from_str contents
  ok (with_defaults file)

-- What `main` serves: the state of the handlers, the store, and the address.
pub record Serving (j : JwtLib) : Type 0 where
  pub state : AppState j
  pub token_store : InMemoryTokenStore
  pub listen_addr : String

-- `main`, up to the loop that serves requests.
unfoldable pub main :
    (x : Codec) (j : JwtLib) (u : UrlLib)
    → (String → Result String String)
    → (String → Result String ConfigFile)
    → (String → Result String (Unit {0}))
    → List String
    → Result StartError (Serving j)
main x j u read_to_string from_str bind args = do
  config ← map_err load_failed (load read_to_string from_str (config_path args))
  state ← startup x j u read_to_string config
  _ ← map_err bind_failed (bind config.listen_addr)
  ok (record { state = state; token_store = Storage.new; listen_addr = config.listen_addr })
