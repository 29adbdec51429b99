-- ===== src/Server/Started.antt =====
-- When `main` comes to serve requests, and with what.
use openid_tls_connector.Common.{
  ℕ, String, ◌≡◌, refl, sym, ap, ◌∙◌, ◌↔◌, ◌⊎◌, inl, inr, List, [], ◌∷◌, Option, none, some, Result,
  ok, arith,
}
use openid_tls_connector.External.{Codec}
use openid_tls_connector.Url.{UrlLib}
use openid_tls_connector.Client.{ClientRegistry}
use openid_tls_connector.Client
use openid_tls_connector.Client.Registry.{new_iff}
use openid_tls_connector.Discovery
use openid_tls_connector.Discovery.{default_paths, discovery_info}
use openid_tls_connector.Storage.{InMemoryTokenStore}
use openid_tls_connector.Storage
use openid_tls_connector.Token.{JwtLib, JwtIssuer, from_private_key, from_pem, get_jwks}
use openid_tls_connector.Token.Keys.{IsIssuerOf}
use openid_tls_connector.Router.{AppState}
use openid_tls_connector.Server.{
  Config, ConfigFile, with_defaults, unwrap_or, config_path, load, startup, hmac_key_of, Serving,
  main,
}
use openid_tls_connector.Server.Hex.{hex_to_32_bytes}
use openid_tls_connector.Server.Main.{main-Runs}
use openid_tls_connector.Server.Startup.{IsConfigured}

-- The path of the configuration: the argument behind the program's name, or "config.toml".
abbrev pub NamesPath : List String → String → Type 0
NamesPath [] path = path ≡ "config.toml"
NamesPath (program ∷ []) path = path ≡ "config.toml"
NamesPath (program ∷ first ∷ args) path = path ≡ first

-- A setting of the file, or else a default.
abbrev pub IsSetting {ℓ} : {A : Type ℓ} → Option A → A → A → Type ℓ
IsSetting given default value = (given ≡ some value) ⊎ ((given ≡ none) × (value ≡ default))

pub record HasSettings (file : ConfigFile) (config : Config) : Type 0 where
  pub issuer : config.issuer ≡ file.issuer
  pub listen_addr : config.listen_addr ≡ file.listen_addr
  pub code_max_age_seconds : config.code_max_age_seconds ≡ file.code_max_age_seconds
  pub code_hmac_key : config.code_hmac_key ≡ file.code_hmac_key
  pub user_header : IsSetting file.user_header "X-Client-Cert-Subject" config.user_header
  pub dn_attribute : IsSetting file.dn_attribute "CN" config.dn_attribute
  pub id_token_ttl_seconds : IsSetting file.id_token_ttl_seconds 3600 config.id_token_ttl_seconds
  pub access_token_ttl_seconds :
      IsSetting file.access_token_ttl_seconds 3600 config.access_token_ttl_seconds
  pub signing_key_path : config.signing_key_path ≡ file.signing_key_path
  pub clients : IsSetting file.clients [] config.clients
  pub default_groups : IsSetting file.default_groups [] config.default_groups

config_path-NamesPath : (args : List String) → NamesPath args (config_path args)
unfolding config_path
config_path-NamesPath [] = refl
config_path-NamesPath (program ∷ []) = refl
config_path-NamesPath (program ∷ first ∷ args) = refl

NamesPath-config_path :
    (args : List String) (path : String) → NamesPath args path → config_path args ≡ path
unfolding config_path
NamesPath-config_path [] path h = sym h
NamesPath-config_path (program ∷ []) path h = sym h
NamesPath-config_path (program ∷ first ∷ args) path h = sym h

unwrap_or-IsSetting {ℓ} : {A : Type ℓ} (d : A) (o : Option A) → IsSetting o d (unwrap_or d o)
unwrap_or-IsSetting d none = inr (refl, refl)
unwrap_or-IsSetting d (some a) = inl refl

IsSetting-unwrap_or {ℓ} :
    {A : Type ℓ} (d v : A) (o : Option A) → IsSetting o d v → unwrap_or d o ≡ v
IsSetting-unwrap_or d v o (inl e) = rw e refl
IsSetting-unwrap_or d v o (inr (e, f)) = rw e (sym f)

with_defaults-HasSettings : (file : ConfigFile) → HasSettings file (with_defaults file)
unfolding with_defaults
with_defaults-HasSettings file = record {
  issuer = refl;
  listen_addr = refl;
  code_max_age_seconds = refl;
  code_hmac_key = refl;
  user_header = unwrap_or-IsSetting "X-Client-Cert-Subject" file.user_header;
  dn_attribute = unwrap_or-IsSetting "CN" file.dn_attribute;
  id_token_ttl_seconds = unwrap_or-IsSetting 3600 file.id_token_ttl_seconds;
  access_token_ttl_seconds = unwrap_or-IsSetting 3600 file.access_token_ttl_seconds;
  signing_key_path = refl;
  clients = unwrap_or-IsSetting [] file.clients;
  default_groups = unwrap_or-IsSetting [] file.default_groups;
}

HasSettings-with_defaults :
    (file : ConfigFile) (config : Config) → HasSettings file config → with_defaults file ≡ config
unfolding with_defaults
HasSettings-with_defaults file config h =
    let header =
      IsSetting-unwrap_or "X-Client-Cert-Subject" config.user_header file.user_header
        h.user_header in
    let attribute = IsSetting-unwrap_or "CN" config.dn_attribute file.dn_attribute h.dn_attribute in
    let id =
      IsSetting-unwrap_or 3600 config.id_token_ttl_seconds file.id_token_ttl_seconds
        h.id_token_ttl_seconds in
    let access =
      IsSetting-unwrap_or 3600 config.access_token_ttl_seconds file.access_token_ttl_seconds
        h.access_token_ttl_seconds in
    let clients = IsSetting-unwrap_or [] config.clients file.clients h.clients in
    let groups =
      IsSetting-unwrap_or [] config.default_groups file.default_groups h.default_groups in
    cc

module _ (x : Codec) (j : JwtLib) (u : UrlLib)
    (read_to_string : String → Result String String) where
  IsIssuerOf-from_private_key :
      (key : j.RsaPrivateKey) (issuer : String) (i : JwtIssuer j)
      → IsIssuerOf j x key issuer i
      → from_private_key j x key issuer ≡ ok i
  unfolding from_private_key get_jwks
  IsIssuerOf-from_private_key key issuer i o = ground arith

  key_taken :
      (hex : String) (key : List ℕ)
      → hex_to_32_bytes hex ≡ some (some key)
      → hmac_key_of hex ≡ ok key
  unfolding hmac_key_of
  key_taken hex key h = ground arith

  IsConfigured-from_pem :
      (config : Config) (state : AppState j)
      → (c : IsConfigured x j u read_to_string config state)
      → from_pem j x c.pem config.issuer ≡ ok state.jwt_issuer
  unfolding from_pem
  IsConfigured-from_pem config state c =
      ground (arith, IsIssuerOf-from_private_key c.key config.issuer state.jwt_issuer c.issuer)

  IsConfigured-discovery :
      (config : Config) (state : AppState j)
      → (c : IsConfigured x j u read_to_string config state)
      → Discovery.new u c.url default_paths ≡ some state.discovery_manager
  unfolding Discovery.new
  IsConfigured-discovery config state c = ground arith

  IsConfigured-registry :
      (config : Config) (state : AppState j)
      → (c : IsConfigured x j u read_to_string config state)
      → Client.new config.clients ≡ ok state.clients
  IsConfigured-registry config state c =
      let registry = (new_iff config.clients).1 c.distinct in
      registry ∙ ap (λ cs. ok (record { clients = cs })) (sym c.clients)

  IsConfigured-startup :
      (config : Config) (state : AppState j)
      → IsConfigured x j u read_to_string config state
      → startup x j u read_to_string config ≡ ok state
  unfolding startup
  IsConfigured-startup config state c = ground (
    arith,
    key_taken config.code_hmac_key state.flow.hmac_key c.hmac_key,
    IsConfigured-from_pem config state c,
    IsConfigured-discovery config state c,
    IsConfigured-registry config state c,
  )

  module _ (from_str : String → Result String ConfigFile) (bind : String → Result String (Unit {0}))
      (args : List String) (serving : Serving j) where
    -- A start that comes to serve.
    pub record IsStarted : Type 0 where
      pub path : String
      pub contents : String
      pub file : ConfigFile
      pub config : Config
      pub named : NamesPath args path
      pub found : read_to_string path ≡ ok contents
      pub parsed : from_str contents ≡ ok file
      pub settings : HasSettings file config
      pub configured : IsConfigured x j u read_to_string config serving.state
      pub address : serving.listen_addr ≡ file.listen_addr
      pub bound : bind file.listen_addr ≡ ok tt
      pub no_record : serving.token_store.records ≡ []
      pub no_code : serving.token_store.consumed_codes ≡ []

    main-IsStarted : main x j u read_to_string from_str bind args ≡ ok serving → IsStarted
    unfolding Storage.new
    main-IsStarted h =
        let runs = main-Runs x j u read_to_string from_str bind args serving h in
        record {
          path = config_path args;
          contents = runs.contents;
          file = runs.file;
          config = with_defaults runs.file;
          named = config_path-NamesPath args;
          found = runs.found;
          parsed = runs.parsed;
          settings = with_defaults-HasSettings runs.file;
          configured = runs.configured;
          address = runs.address;
          bound = runs.bound;
          no_record = ap InMemoryTokenStore.records runs.empty;
          no_code = ap InMemoryTokenStore.consumed_codes runs.empty;
        }

    IsStarted-main : IsStarted → main x j u read_to_string from_str bind args ≡ ok serving
    unfolding main load Storage.new
    IsStarted-main i = ground (
      arith,
      NamesPath-config_path args i.path i.named,
      HasSettings-with_defaults i.file i.config i.settings,
      IsConfigured-startup i.config serving.state i.configured,
      i.settings.listen_addr,
    )

    -- `main` comes to serve requests exactly when the file that its first argument names, the one
    -- behind the program's name, or "config.toml" without one, is read and parsed, the state of the
    -- handlers is what the file's settings give, where a missing header is "X-Client-Cert-Subject", a
    -- missing attribute "CN", a missing lifetime 3600 seconds, and missing clients or groups none, the
    -- address of the file is bound, and the store has no token and no consumed code.
    pub main_iff : (main x j u read_to_string from_str bind args ≡ ok serving) ↔ IsStarted
    main_iff = (main-IsStarted, IsStarted-main)
