-- ===== src/Server/Main.antt =====
-- What a server that runs serves.
use openid_tls_connector.Common.{
  String, ◌≡◌, refl, List, none, Result, ok, arith, map_err, >>=-eq-ok, map_err-eq-ok,
}
use openid_tls_connector.External.{Codec}
use openid_tls_connector.Url.{UrlLib}
use openid_tls_connector.Storage.{in_memory}
use openid_tls_connector.Storage
use openid_tls_connector.Token.{JwtLib}
use openid_tls_connector.Common.Assoc
use openid_tls_connector.Server.{
  Config, ConfigFile, with_defaults, config_path, load, startup, Serving, main, load_failed,
  bind_failed,
}
use openid_tls_connector.Router.{AppState}
use openid_tls_connector.Server.Startup.{IsConfigured, startup-IsConfigured}

module _ (x : Codec) (j : JwtLib) (u : UrlLib) (read_to_string : String → Result String String)
    (from_str : String → Result String ConfigFile) (bind : String → Result String (Unit {0})) where
  -- A server that runs: its settings are those of the file that its argument names, with the
  -- defaults, its state is what they give, and its store is empty.
  pub record Runs (args : List String) (serving : Serving j) : Type 0 where
    pub contents : String
    pub file : ConfigFile
    pub found : read_to_string (config_path args) ≡ ok contents
    pub parsed : from_str contents ≡ ok file
    pub configured : IsConfigured x j u read_to_string (with_defaults file) serving.state
    pub address : serving.listen_addr ≡ file.listen_addr
    pub bound : bind file.listen_addr ≡ ok tt
    pub empty : serving.token_store ≡ Storage.new
    pub unused : (jti : String) → in_memory.lookup serving.token_store jti ≡ none

  abbrev served : AppState j → Config → Serving j
  served state config = record {
    state = state;
    token_store = Storage.new;
    listen_addr = config.listen_addr;
  }

  -- If `main` comes to serve requests, it has read the file that its first argument names, or
  -- "config.toml", the state of the handlers is what the file's settings give, with the defaults
  -- where it has none, the address of the file is bound, and the store has no token.
  pub main-Runs :
      (args : List String) (serving : Serving j)
      → main x j u read_to_string from_str bind args ≡ ok serving
      → Runs args serving
  unfolding main load with_defaults Storage.lookup Storage.new Assoc.lookup
  main-Runs args serving h =
      let (config, loaded, h1) =
        >>=-eq-ok (map_err load_failed (load read_to_string from_str (config_path args))) _ h in
      let (contents, found, h2) =
        >>=-eq-ok (read_to_string (config_path args)) _ (map_err-eq-ok load_failed _ loaded) in
      let (file, parsed, h3) = >>=-eq-ok (from_str contents) _ h2 in
      let (state, started, h4) = >>=-eq-ok (startup x j u read_to_string config) _ h1 in
      let (_, bound, h5) = >>=-eq-ok (map_err bind_failed (bind config.listen_addr)) _ h4 in
      let same : with_defaults file ≡ config = ground arith in
      let made : served state config ≡ serving = ground arith in
      rw (← made, ← same)
        (record {
          contents = contents;
          file = file;
          found = found;
          parsed = parsed;
          configured =
              startup-IsConfigured x j u read_to_string (with_defaults file) state
                (rw same started);
          address = refl;
          bound = rw (← same) at (map_err-eq-ok bind_failed _ bound);
          empty = refl;
          unused = λ jti. refl;
        })
