-- ===== src/Tests/Samples.antt =====
-- Simple libraries, and a client, a code and a request, for the runs.
use openid_tls_connector.Common.{
  leb, ℕ, zero, suc, ◌+◌, String, List, [], ◌∷◌, ◌++◌, Option, none, some, ok, err, Bool, true,
  false, ◌&&◌, ◌==◌, eqb, if◌then◌else◌, list_eq,
}
use openid_tls_connector.External.{Bytes, Codec}
use openid_tls_connector.Url.{UrlLib}
use openid_tls_connector.Client.{ClientConfig, ClientRegistry}
use openid_tls_connector.Code.Pkce.{CodeChallengeMethod, plain, s256}
use openid_tls_connector.Code.AuthorizationCode.{AuthorizationCode}
use openid_tls_connector.Code.Signature.{Cbor, MacKey}
use openid_tls_connector.Storage.{InMemoryTokenStore}
use openid_tls_connector.Token.{
  now_secs, JwtLib, JwtIssuer, IdTokenClaims, AccessTokenClaims, unix_epoch,
}
use openid_tls_connector.Protocol.{
  TokenIssueContext, OidcAuthCodePkceFlow, AccessTokenRequest, Readings,
}
use openid_tls_connector.Protocol.Errors.{authorization_code}
use openid_tls_connector.Router.{AppState}
use openid_tls_connector.Server.{from_secs}

-- A keyed hash that is the key before the content, and texts that are all read as one payload.
abbrev pub codec : Codec
codec = record {
  base64_url_encode = λ bs. "signed";
  base64_url_decode = λ s. if s == "signed" then ok (1 ∷ []) else err "bad";
  base64_url_no_pad_encode = λ bs. "digest";
  base64_standard_decode = λ s. if s == "YXBwOnM6MQ==" then ok (9 ∷ []) else err "bad";
  sha256 = λ bs. bs;
  blake3_hash = λ bs. bs;
  blake3_keyed_hash = λ key bs. key ++ bs;
}

abbrev pub from_utf8 : Bytes → Option String
from_utf8 bs = if list_eq bs (9 ∷ []) then some "app:s:1" else none

-- A key of equal bytes.
abbrev pub repeated : ℕ → Bytes
repeated zero = []
repeated (suc n) = 0xf0 ∷ repeated n

abbrev pub hmac_key : MacKey
hmac_key = repeated 32

abbrev pub issued_at : ℕ
issued_at = unix_epoch + from_secs 1000

abbrev pub sample_code : AuthorizationCode
sample_code = record {
  client_id = "app";
  redirect_uri = "https://app/cb";
  code_challenge = some "verifier";
  code_challenge_method = plain;
  timestamp = issued_at;
  subject = "ann";
  nonce = none;
  groups = [];
  scope = [];
}

abbrev pub is_nil : List String → Bool
is_nil [] = true
is_nil (s ∷ ss) = false

abbrev pub is_absent : Option String → Bool
is_absent none = true
is_absent (some s) = false

abbrev pub is_text : String → Option String → Bool
is_text t none = false
is_text t (some s) = s == t

abbrev pub is_plain : CodeChallengeMethod → Bool
is_plain plain = true
is_plain s256 = false

abbrev pub same_code : AuthorizationCode → Bool
same_code c =
    c.client_id == "app"
    && c.redirect_uri == "https://app/cb"
    && is_text "verifier" c.code_challenge
    && is_plain c.code_challenge_method
    && eqb c.timestamp issued_at
    && c.subject == "ann"
    && is_absent c.nonce
    && is_nil c.groups
    && is_nil c.scope

-- A writer and readers that know the one code, signed with the one key.
abbrev pub cbor : Cbor
cbor = record {
  write_container =
      λ c. if same_code c.content && eqb c.timestamp issued_at then some (2 ∷ []) else none;
  write_signed = λ s. 1 ∷ [];
  read_container = λ bs. ok (record { content = sample_code; timestamp = issued_at });
  read_signed = λ bs. ok (record { content = 2 ∷ []; signature = hmac_key ++ 2 ∷ [] });
}

-- A URL is its text.
abbrev pub url_lib : UrlLib
url_lib = record {
  Url = String;
  parse = λ s. ok s;
  to_text = λ s. s;
  join = λ s p. ok p;
  append_pair = λ s k v. s;
}

abbrev pub app : ClientConfig
app = record {
  client_id = "app";
  client_secret = some "s:1";
  redirect_uris = "https://app/cb" ∷ [];
  groups = [];
}

abbrev pub web : ClientConfig
web = record { client_id = "web"; client_secret = none; redirect_uris = []; groups = "web" ∷ [] }

abbrev pub registry : ClientRegistry
registry = record { clients = app ∷ web ∷ [] }

abbrev pub flow : OidcAuthCodePkceFlow
flow = record { code_max_age = from_secs 60; hmac_key = hmac_key }

abbrev pub empty_store : InMemoryTokenStore
empty_store = record { records = []; consumed_codes = [] }

abbrev pub request : AccessTokenRequest
request = record {
  grant_type = authorization_code;
  client_id = "app";
  client_secret = some "s:1";
  code = "signed";
  redirect_uri = "https://app/cb";
  code_verifier = some "verifier";
}

abbrev pub now : ℕ
now = issued_at + from_secs 5

abbrev pub readings : Readings
readings = record {
  at_verify = now;
  at_id_token = now;
  at_access_token = now;
  at_expiry = now;
  random = 0 ∷ 0 ∷ 0 ∷ 0 ∷ 0 ∷ 0 ∷ 0 ∷ 0 ∷ 0 ∷ 0 ∷ 0 ∷ 0 ∷ 0 ∷ 0 ∷ 0 ∷ 0 ∷ [];
}

abbrev pub jti : String
jti = "00000000-0000-4000-8000-000000000000"

-- The claims of the tokens that the request is granted.
abbrev pub id_claims : IdTokenClaims
id_claims = record {
  iss = "https://id";
  sub = "ann";
  aud = "app";
  exp = 4605;
  iat = 1005;
  nonce = none;
  groups = some [];
}

abbrev pub access_claims : AccessTokenClaims
access_claims = record {
  iss = "https://id";
  sub = "ann";
  aud = "https://id";
  exp = 4605;
  iat = 1005;
  jti = jti;
  scope = [];
  groups = [];
  client_id = "app";
}

abbrev pub same_access : AccessTokenClaims → AccessTokenClaims → Bool
same_access a b =
    a.iss == b.iss
    && a.sub == b.sub
    && a.aud == b.aud
    && eqb a.exp b.exp
    && eqb a.iat b.iat
    && a.jti == b.jti
    && a.client_id == b.client_id
    && is_nil a.scope
    && is_nil a.groups

abbrev pub has_no_groups : Option (List String) → Bool
has_no_groups none = false
has_no_groups (some gs) = is_nil gs

abbrev pub same_id : IdTokenClaims → IdTokenClaims → Bool
same_id a b =
    a.iss == b.iss
    && a.sub == b.sub
    && a.aud == b.aud
    && eqb a.exp b.exp
    && eqb a.iat b.iat
    && is_absent a.nonce
    && has_no_groups a.groups

-- A signer of these claims and no others.
abbrev pub jwt_lib : JwtLib
jwt_lib = record {
  RsaPrivateKey = Bytes;
  EncodingKey = Unit {0};
  DecodingKey = Unit {0};
  from_pkcs8_pem = λ pem. ok (3 ∷ []);
  generate_key = λ random. ok random;
  to_pkcs1_der = λ key. ok key;
  modulus_be = λ key. key;
  exponent_be = λ key. 1 ∷ [];
  to_pkcs8_pem = λ key. ok "pem";
  from_rsa_pem = λ pem. ok tt;
  from_rsa_der = λ der. tt;
  encode_id = λ h c k. if same_id c id_claims then ok "id" else err "other claims";
  encode_access = λ h c k. if same_access c access_claims then ok "access" else err "other claims";
  decode_id = λ clock token k v. ok id_claims;
  decode_access = λ clock token k v.
      if token == "access" && leb (now_secs clock) (access_claims.exp + v.leeway)
      then ok access_claims
      else err "expired";
}

abbrev pub jwt_issuer : JwtIssuer jwt_lib
jwt_issuer = record {
  issuer = "https://id";
  encoding_key = tt;
  decoding_key = tt;
  kid = "digest";
  jwk = record {
    kty = "RSA";
    use_ = "sig";
    kid = "digest";
    alg = "RS256";
    n = "digest";
    e = "digest";
  };
}

abbrev pub context : TokenIssueContext jwt_lib
context = record {
  clients = registry;
  jwt_issuer = jwt_issuer;
  id_token_ttl = from_secs 3600;
  access_token_ttl = from_secs 3600;
}

abbrev pub state : AppState jwt_lib
state = record {
  flow = flow;
  jwt_issuer = jwt_issuer;
  clients = registry;
  user_manager = record { dn_attribute = "CN" };
  discovery_manager = record {
    discovery = record {
      issuer = "https://id";
      authorization_endpoint = "/authorize";
      token_endpoint = "/token";
      userinfo_endpoint = "/userinfo";
      jwks_uri = "/jwks";
      scopes_supported = "openid" ∷ "email" ∷ "profile" ∷ [];
      response_types_supported = "code" ∷ [];
      grant_types_supported = "authorization_code" ∷ [];
      subject_types_supported = "public" ∷ [];
      id_token_signing_alg_values_supported = "RS256" ∷ [];
      code_challenge_methods_supported = "S256" ∷ "plain" ∷ [];
    };
  };
  user_header = "X-Client-Cert-Subject";
  id_token_ttl = from_secs 3600;
  access_token_ttl = from_secs 3600;
  default_groups = [];
}
