-- ===== src/Tests/Clients.antt =====
-- Runs of the client registry, of the resolution of users and groups, and of the issuer's name.
use Prim.Native.String
use openid_tls_connector.Common.{
  ltb→lt, String, ◌≡◌, ◌≢◌, refl, ◌↔◌, ◌⊎◌, inr, true, false, List, [], ◌∷◌, none, some, ok,
}
use openid_tls_connector.Common.Text.{join, as_bytes, utf8}
use openid_tls_connector.Client.{allow, new, find_by_id, validate_client_secret, constant_time_eq}
use openid_tls_connector.Client.Registry.{validate_client_secret_iff}
use openid_tls_connector.Client.Secret.{constant_time_eq_iff}
use openid_tls_connector.Discovery.{ends_with, canonicalize_issuer}
use openid_tls_connector.Discovery.Issuer.{canonicalize_issuer_cases}
use openid_tls_connector.Users.{User, split_loop, resolve, resolve_groups, split_rdns}
use openid_tls_connector.Users.Groups.{IsUnion, resolve_groups-IsUnion}
use openid_tls_connector.Users.Split.{parts}
use openid_tls_connector.Users.Refine.{split_loop_ends, split_rdns_lem}
use openid_tls_connector.Users.Attribute.{Gives, join-split_rdns, resolve_iff}
use openid_tls_connector.Tests.Samples.{app, web, registry, url_lib}

registry_made : new (app ∷ web ∷ []) ≡ ok registry
unfolding new
registry_made = refl

validate_client_secret_iff_example : validate_client_secret registry "app" (some "s:1") ≡ allow
unfolding find_by_id
validate_client_secret_iff_example =
    (validate_client_secret_iff registry "app" (some "s:1")).1 (app, refl, inr ("s:1", refl, refl))

constant_time_eq_iff_example : constant_time_eq (1 ∷ 2 ∷ []) (1 ∷ 2 ∷ []) ≡ true
constant_time_eq_iff_example = (constant_time_eq_iff (1 ∷ 2 ∷ []) (1 ∷ 2 ∷ [])).1 refl

abbrev dn : String
dn = "O=A\\,B, CN = Ann"

split_rdns_lem_example : split_rdns dn ≡ some (parts false "" dn)
split_rdns_lem_example = split_rdns_lem dn

split_loop_ends_example :
    (split_loop dn (as_bytes dn) 100 0 0 ≡ split_rdns dn) × (split_rdns dn ≢ none)
unfolding as_bytes utf8
split_loop_ends_example = split_loop_ends dn 100 ((ltb→lt _ 100 refl))

join-split_rdns_example : (ps : List String) × (split_rdns dn ≡ some ps) × (join "," ps ≡ dn)
join-split_rdns_example = join-split_rdns dn

split_runs : split_rdns dn ≡ some ("O=A\\,B" ∷ " CN = Ann" ∷ [])
unfolding parts
split_runs = split_rdns_lem dn

abbrev ann : User
ann = record { subject = "Ann"; raw_dn = dn }

resolve_iff_example :
    (resolve (λ n. n ∷ []) (record { dn_attribute = "cn" }) dn ≢ none)
    × ((resolve (λ n. n ∷ []) (record { dn_attribute = "cn" }) dn ≡ some (ok ann))
        ↔ (Gives (λ n. n ∷ []) "cn" (parts false "" dn) "Ann" × (dn ≡ dn)))
resolve_iff_example = resolve_iff (λ n. n ∷ []) (record { dn_attribute = "cn" }) dn ann

resolve_groups-IsUnion_example :
    IsUnion
      ("all" ∷ [])
      ("web" ∷ "all" ∷ "web" ∷ [])
      (resolve_groups ("web" ∷ "all" ∷ "web" ∷ []) ("all" ∷ []))
resolve_groups-IsUnion_example = resolve_groups-IsUnion ("web" ∷ "all" ∷ "web" ∷ []) ("all" ∷ [])

canonicalize_issuer_cases_example :
    ((t : String) × ("https://id/" ≡ String.◌++◌ t "/")
      × (canonicalize_issuer url_lib "https://id/" ≡ t))
    ⊎ ((ends_with b'/' "https://id/" ≡ false)
        × (canonicalize_issuer url_lib "https://id/" ≡ "https://id/"))
canonicalize_issuer_cases_example = canonicalize_issuer_cases url_lib "https://id/"
