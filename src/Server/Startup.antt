-- ===== src/Server/Startup.antt =====
-- What a server that started serves with.
use Prim.Native.String
use openid_tls_connector.Common.{
  ◌≡◌, ◌≢◌, refl, sym, ap, ◌∙◌, String, some, Result, ok, arith, Result-cases, Option-cases, inl,
  inr,
}
use openid_tls_connector.Common.Text.{as_bytes, utf8}
use openid_tls_connector.Common.Text.Slices.{size, size-append}
use openid_tls_connector.External.{Codec}
use openid_tls_connector.Url.{UrlLib}
use openid_tls_connector.Client.{ClientRegistry}
use openid_tls_connector.Client
use openid_tls_connector.Client.Registry.{DistinctIds, new_iff}
use openid_tls_connector.Code.Signature.{MacKey}
use openid_tls_connector.Token.{JwtLib, JwtIssuer, from_pem}
use openid_tls_connector.Token.Keys.{IsIssuerOf, from_pem-IsIssuerOf}
use openid_tls_connector.Discovery.{default_paths, canonicalize_issuer, discovery_info}
use openid_tls_connector.Discovery
use openid_tls_connector.Discovery.Issuer.{canonicalize_slash, issuer-discovery_info}
use openid_tls_connector.Router.{AppState}
use openid_tls_connector.Server.{Config, startup, hmac_key_of, from_secs}
use openid_tls_connector.Server.Hex.{hex_to_32_bytes}

hmac_key_of-eq-ok :
    (hex : String) (key : MacKey) → hmac_key_of hex ≡ ok key → hex_to_32_bytes hex ≡ some (some key)
unfolding hmac_key_of
hmac_key_of-eq-ok hex key h = elim (Option-cases (hex_to_32_bytes hex)) [
  | inl e ↦ absurd (ground arith)
  | inr (o, e) ↦ elim (Option-cases o) [ inl f ↦ absurd (ground arith) | inr (k, f) ↦ ground arith ]
]

slash_size : size "/" ≡ 1
unfolding as_bytes utf8
slash_size = refl

module _ (x : Codec) (j : JwtLib) (u : UrlLib)
    (read_to_string : String → Result String String) where
  -- The state that a configuration gives.
  pub record IsConfigured (config : Config) (state : AppState j) : Type 0 where
    pub hmac_key : hex_to_32_bytes config.code_hmac_key ≡ some (some state.flow.hmac_key)
    pub pem : String
    pub key : j.RsaPrivateKey
    pub key_file : read_to_string config.signing_key_path ≡ ok pem
    pub private_key : j.from_pkcs8_pem pem ≡ ok key
    pub issuer : IsIssuerOf j x key config.issuer state.jwt_issuer
    pub clients : state.clients.clients ≡ config.clients
    pub distinct : DistinctIds config.clients
    pub url : u.Url
    pub issuer_url : u.parse config.issuer ≡ ok url
    pub discovery : discovery_info u url default_paths ≡ some state.discovery_manager.discovery
    pub dn_attribute : state.user_manager.dn_attribute ≡ config.dn_attribute
    pub user_header : state.user_header ≡ config.user_header
    pub code_max_age : state.flow.code_max_age ≡ from_secs config.code_max_age_seconds
    pub id_token_ttl : state.id_token_ttl ≡ from_secs config.id_token_ttl_seconds
    pub access_token_ttl : state.access_token_ttl ≡ from_secs config.access_token_ttl_seconds
    pub default_groups : state.default_groups ≡ config.default_groups

  new-cases :
      (config : Config) (r : ClientRegistry)
      → Client.new config.clients ≡ ok r
      → (r.clients ≡ config.clients) × DistinctIds config.clients
  unfolding Client.new
  new-cases config r h = (ground arith, (new_iff config.clients).0 (ground arith))

  discovery-cases :
      (url : u.Url) (m : Discovery.DiscoveryManager)
      → Discovery.new u url default_paths ≡ some m
      → discovery_info u url default_paths ≡ some m.discovery
  unfolding Discovery.new
  discovery-cases url m h = elim (Option-cases (discovery_info u url default_paths)) [
    | inl e ↦ absurd (ground arith)
    | inr (d, e) ↦ ground arith
  ]

  abbrev assembled :
      Config → MacKey → JwtIssuer j → ClientRegistry → Discovery.DiscoveryManager → AppState j
  assembled config k i cs m = record {
    flow = record { code_max_age = from_secs config.code_max_age_seconds; hmac_key = k };
    jwt_issuer = i;
    clients = cs;
    user_manager = record { dn_attribute = config.dn_attribute };
    discovery_manager = m;
    user_header = config.user_header;
    id_token_ttl = from_secs config.id_token_ttl_seconds;
    access_token_ttl = from_secs config.access_token_ttl_seconds;
    default_groups = config.default_groups;
  }

  assembled-IsConfigured :
      (config : Config) (k : MacKey) (pem : String) (i : JwtIssuer j) (cs : ClientRegistry)
      (url : u.Url) (m : Discovery.DiscoveryManager)
      → hmac_key_of config.code_hmac_key ≡ ok k
      → read_to_string config.signing_key_path ≡ ok pem
      → from_pem j x pem config.issuer ≡ ok i
      → Client.new config.clients ≡ ok cs
      → u.parse config.issuer ≡ ok url
      → Discovery.new u url default_paths ≡ some m
      → IsConfigured config (assembled config k i cs m)
  assembled-IsConfigured config k pem i cs url m hk hp hi hc hu hm =
      let (key, private_key, issuer) = from_pem-IsIssuerOf j x pem config.issuer i hi in
      let (clients, distinct) = new-cases config cs hc in
      record {
        hmac_key = hmac_key_of-eq-ok config.code_hmac_key k hk;
        pem = pem;
        key = key;
        key_file = hp;
        private_key = private_key;
        issuer = issuer;
        clients = clients;
        distinct = distinct;
        url = url;
        issuer_url = hu;
        discovery = discovery-cases url m hm;
        dn_attribute = refl;
        user_header = refl;
        code_max_age = refl;
        id_token_ttl = refl;
        access_token_ttl = refl;
        default_groups = refl;
      }

  -- A server that starts has the key that the configuration writes, an issuer of tokens made of the
  -- private key in the configured file, under the configured name, the configured clients, whose
  -- identifiers are distinct, the discovery document of the issuer's URL, and the other settings as
  -- they are configured, the durations in seconds.
  pub startup-IsConfigured :
      (config : Config) (state : AppState j)
      → startup x j u read_to_string config ≡ ok state
      → IsConfigured config state
  unfolding startup
  startup-IsConfigured config state h = elim (Result-cases (hmac_key_of config.code_hmac_key)) [
    | inr (e, p) ↦ absurd (ground arith)
    | inl (k, p) ↦ elim (Result-cases (read_to_string config.signing_key_path)) [
      | inr (e, q) ↦ absurd (ground arith)
      | inl (pem, q) ↦ elim (Result-cases (from_pem j x pem config.issuer)) [
        | inr (e, r) ↦ absurd (ground arith)
        | inl (i, r) ↦ elim (Result-cases (Client.new config.clients)) [
          | inr (e, v) ↦ absurd (ground arith)
          | inl (cs, v) ↦ elim (Result-cases (u.parse config.issuer)) [
            | inr (e, w) ↦ absurd (ground arith)
            | inl (url, w) ↦ elim (Option-cases (Discovery.new u url default_paths)) [
              | inl y ↦ absurd (ground arith)
              | inr (m, y) ↦
                  let made : state ≡ assembled config k i cs m = ground arith in
                  rw made (assembled-IsConfigured config k pem i cs url m p q r v w y)
            ]
          ]
        ]
      ]
    ]
  ]

  no_fixed_slash : (t : String) → t ≢ String.◌++◌ t "/"
  no_fixed_slash t e = ground (arith, ap size e, size-append t "/", slash_size)

  -- If the issuer is configured as a URL whose text is itself and ends in a slash, then a server that
  -- starts signs tokens under that name, while its discovery document names the issuer without the
  -- slash: the two differ.
  pub issuers_differ :
      (config : Config) (state : AppState j) (url : u.Url) (t : String)
      → startup x j u read_to_string config ≡ ok state
      → u.parse config.issuer ≡ ok url
      → u.to_text url ≡ config.issuer
      → config.issuer ≡ String.◌++◌ t "/"
      → (state.jwt_issuer.issuer ≡ String.◌++◌ t "/")
        × (state.discovery_manager.discovery.issuer ≡ t)
        × (state.jwt_issuer.issuer ≢ state.discovery_manager.discovery.issuer)
  issuers_differ config state url t started parsed whole slash =
      let c = startup-IsConfigured config state started in
      let same : c.url ≡ url = ground (arith, c.issuer_url) in
      let signer : state.jwt_issuer.issuer ≡ String.◌++◌ t "/" = c.issuer.named ∙ slash in
      let named : state.discovery_manager.discovery.issuer ≡ t =
        issuer-discovery_info u c.url default_paths _ c.discovery
        ∙ canonicalize_slash u c.url t (ap u.to_text same ∙ whole ∙ slash) in
      (signer, named, λ e. no_fixed_slash t (sym named ∙ sym e ∙ signer))
