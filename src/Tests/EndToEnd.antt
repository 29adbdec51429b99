-- ===== src/Tests/EndToEnd.antt =====
-- A server that starts, and what it then tells of a user.
use openid_tls_connector.Common.{String, ◌≡◌, refl, [], Result, ok}
use openid_tls_connector.Client
use openid_tls_connector.Discovery.{
  discovery_info, canonicalize_issuer, endpoint_url, ends_with, pop,
}
use openid_tls_connector.Discovery
use openid_tls_connector.Storage
use openid_tls_connector.Token.{from_pem}
use openid_tls_connector.Service.Authenticity.{Login}
use openid_tls_connector.Server.{
  Config, ConfigFile, Serving, load, with_defaults, config_path, main, startup,
}
use openid_tls_connector.Server.EndToEnd.{Vouches, main-Vouches}
use openid_tls_connector.Tests.Samples.{codec, cbor, url_lib, jwt_lib, from_utf8, state, now}
use openid_tls_connector.Tests.Handlers.{identity, bearer_headers}
use openid_tls_connector.Tests.Startup.{config, file, key_read, read_to_string, bind}
use openid_tls_connector.Tests.Service.{
  cbor-ReadsContainers, visits, visits-Unforged, visits_run, told, told_runs,
}

-- The file with the issuer that the tokens of the samples name.
abbrev plain_file : ConfigFile
plain_file = record file { issuer = "https://id" }

abbrev from_str : String → Result String ConfigFile
from_str contents = ok plain_file

abbrev plain_config : Config
plain_config = record config { issuer = "https://id" }

abbrev serving : Serving jwt_lib
serving = record { state = state; token_store = Storage.new; listen_addr = "127.0.0.1:8080" }

state_starts : startup codec jwt_lib url_lib read_to_string plain_config ≡ ok state
unfolding startup from_pem Client.new Discovery.new discovery_info canonicalize_issuer endpoint_url
    ends_with pop
state_starts = rw (startup, key_read) refl

loaded_runs : load read_to_string from_str "config.toml" ≡ ok plain_config
unfolding load with_defaults
loaded_runs = refl

main_runs : main codec jwt_lib url_lib read_to_string from_str bind [] ≡ ok serving
unfolding main config_path
main_runs = rw (main, loaded_runs, state_starts) refl

main-Vouches_example :
    (contents : String) × (given : ConfigFile) × (read_to_string (config_path []) ≡ ok contents)
    × (from_str contents ≡ ok given)
    × (l : Login codec cbor url_lib identity from_utf8 state visits) × Vouches codec cbor url_lib
        identity from_utf8 jwt_lib read_to_string from_str bind
        (with_defaults given)
        l
        told
unfolding Storage.new
main-Vouches_example =
    main-Vouches codec cbor url_lib identity from_utf8 jwt_lib read_to_string from_str bind []
      serving main_runs cbor-ReadsContainers visits visits-Unforged bearer_headers now told
      (rw visits_run told_runs)
