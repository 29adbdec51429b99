-- ===== src/Server/EndToEnd.antt =====
-- From the configuration file to `/userinfo`: whom a running server speaks of.
use mathlib.Core.List.{Memᴰ}
use openid_tls_connector.Common.{ℕ, String, ◌≡◌, sym, ap, ◌∙◌, List, Option, some, Result, ok}
use openid_tls_connector.External.{Bytes, Codec}
use openid_tls_connector.Url.{UrlLib}
use openid_tls_connector.Client.{ClientConfig}
use openid_tls_connector.Client.Registry.{find_by_id-eq-some}
use openid_tls_connector.Code.Signature.{Cbor}
use openid_tls_connector.Code.Timestamp.{SystemTime}
use openid_tls_connector.Storage.{in_memory}
use openid_tls_connector.Storage.InMemory.{is_consumed, in_memory-Contract}
use openid_tls_connector.Token.{JwtLib}
use openid_tls_connector.Users.{User, resolve, resolve_groups}
use openid_tls_connector.Router.{AppState, Headers}
use openid_tls_connector.Router.Authorize.{scope_list}
use openid_tls_connector.Router.Bearer.{UserInfo}
use openid_tls_connector.Service.{Request, get_userinfo, info, handle, serve_all}
use openid_tls_connector.Service.Authenticity.{Login, Unforged, ReadsContainers, userinfo_authentic}
use openid_tls_connector.Server.{Config, ConfigFile, Serving, with_defaults, config_path, main}
use openid_tls_connector.Server.Main.{main-Runs}
use openid_tls_connector.Server.Startup.{IsConfigured}

module _ (x : Codec) (cbor : Cbor) (u : UrlLib) (table : ℕ → List ℕ)
    (from_utf8 : Bytes → Option String) (j : JwtLib)
    (read_to_string : String → Result String String) (from_str : String → Result String ConfigFile)
    (bind : String → Result String (Unit {0})) where
  -- What `/userinfo` says comes from this authorization request, as the configuration reads it.
  pub record Vouches (config : Config) {state : AppState j} {history : List Request}
      (l : Login x cbor u table from_utf8 state history) (answer : UserInfo) : Type 0 where
    pub header_value : String
    pub user : User
    pub client : ClientConfig
    pub present : l.headers config.user_header ≡ some header_value
    pub identified :
        resolve table (record { dn_attribute = config.dn_attribute }) header_value ≡ some (ok user)
    pub registered : Memᴰ client config.clients
    pub listed : Memᴰ l.params.redirect_uri client.redirect_uris
    pub sub : answer.sub ≡ user.subject
    pub client_id : answer.client_id ≡ client.client_id
    pub groups : answer.groups ≡ resolve_groups client.groups config.default_groups
    pub scope : answer.scope ≡ scope_list l.params.scope

  configured-Vouches :
      (config : Config) (state : AppState j)
      → IsConfigured x j u read_to_string config state
      → {history : List Request} (l : Login x cbor u table from_utf8 state history)
        (answer : UserInfo)
      → answer.sub ≡ l.accepted.user.subject
      → answer.client_id ≡ l.params.client_id
      → answer.groups ≡ resolve_groups l.accepted.client.groups state.default_groups
      → answer.scope ≡ scope_list l.params.scope
      → Vouches config l answer
  configured-Vouches config state given l answer sub client_id groups scope =
      let (member, named) =
        find_by_id-eq-some state.clients l.params.client_id l.accepted.client
          l.accepted.registered in
      let manager : state.user_manager ≡ record { dn_attribute = config.dn_attribute } =
        ap (λ (a : String). record { dn_attribute = a }) given.dn_attribute in
      record {
        header_value = l.accepted.header_value;
        user = l.accepted.user;
        client = l.accepted.client;
        present = rw given.user_header at l.accepted.present;
        identified = rw manager at l.accepted.identified;
        registered = rw given.clients at member;
        listed = l.accepted.listed;
        sub = sub;
        client_id = client_id ∙ sym named;
        groups = rw given.default_groups at groups;
        scope = scope;
      }

  -- Of a server that `main` starts, where CBOR reads back what it wrote and no token request of the
  -- history bears a forged signature: whenever `/userinfo` answers after a history of requests, some
  -- authorization request of the history bore, in the header that the configuration file names, a
  -- certificate subject whose attribute, the one that the file names, is the subject of the answer;
  -- the answer's client is one of the file's, lists the redirect URI of that request, and the groups
  -- of the answer are the client's and the file's default groups, and its scope is the one asked for.
  pub main-Vouches :
      (args : List String) (serving : Serving j)
      → main x j u read_to_string from_str bind args ≡ ok serving
      → ReadsContainers x cbor u table from_utf8 serving.state
      → (qs : List Request) → Unforged x cbor u table from_utf8 serving.state qs qs
      → (headers : Headers) (now : SystemTime) (answer : UserInfo)
      → (handle x cbor u table from_utf8 in_memory serving.state
          (get_userinfo headers now)
          (serve_all x cbor u table from_utf8 in_memory serving.state qs serving.token_store)).1
        ≡ info answer
      → (contents : String) × (file : ConfigFile) × (read_to_string (config_path args)
          ≡ ok contents)
        × (from_str contents ≡ ok file)
        × (l : Login x cbor u table from_utf8 serving.state qs) × Vouches
            (with_defaults file)
            l
            answer
  main-Vouches args serving started reads qs unforged headers now answer h =
      let runs = main-Runs x j u read_to_string from_str bind args serving started in
      let (l, identified, sub, client_id, groups, scope) =
        userinfo_authentic x cbor u table from_utf8 serving.state in_memory is_consumed
          in_memory-Contract reads qs unforged serving.token_store runs.unused headers now answer
          h in
      (
        runs.contents,
        runs.file,
        runs.found,
        runs.parsed,
        l,
        configured-Vouches (with_defaults runs.file) serving.state runs.configured l answer sub
            client_id groups scope,
      )
