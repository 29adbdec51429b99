-- ===== src/Tests/Unit/Users.antt =====
-- The tests of src/users/mod.rs, with any table of cases beyond ASCII.
use openid_tls_connector.Common.{
  ok, err, arith, ◌∙◌, ℕ, String, ◌≡◌, refl, Bool, true, false, ◌&&◌, List, [], ◌∷◌, some, ap,
  Result, ◌==◌,
}
use openid_tls_connector.Common.Text.{split_once, trim}
use openid_tls_connector.Users.{
  UserError, invalid_dn, attribute_not_found, User, extract_dn_attribute, find_attribute, resolve,
  resolve_groups, split_rdns, to_uppercase,
}
use openid_tls_connector.Users.Split.{parts}
use openid_tls_connector.Users.Refine.{split_rdns_lem}
use openid_tls_connector.Tests.Unit.{texts_eq, on_some, on_ok, on_err}

abbrev is_attribute_not_found : UserError → Bool
is_attribute_not_found (attribute_not_found a) = true
is_attribute_not_found (invalid_dn rdn) = false

abbrev is_invalid_dn : UserError → Bool
is_invalid_dn (attribute_not_found a) = false
is_invalid_dn (invalid_dn rdn) = true

module _ (table : ℕ → List ℕ) where
  abbrev extracts : String → String → String → Bool
  extracts dn attribute value =
      on_some (on_ok (λ v. v == value)) (extract_dn_attribute table dn attribute)

  abbrev extract_fails : (UserError → Bool) → String → String → Bool
  extract_fails p dn attribute = on_some (on_err p) (extract_dn_attribute table dn attribute)

  abbrev resolves : String → String → (Result UserError User → Bool) → Bool
  resolves attribute header p =
      on_some p (resolve table (record { dn_attribute = attribute }) header)

  abbrev test_extract_cn_simple : Bool
  test_extract_cn_simple = extracts "CN=alice,OU=eng,O=acme" "CN" "alice"

  abbrev test_extract_cn_case_insensitive : Bool
  test_extract_cn_case_insensitive = extracts "cn=alice,OU=eng,O=acme" "CN" "alice"

  abbrev test_extract_ou : Bool
  test_extract_ou = extracts "CN=alice,OU=eng,O=acme" "OU" "eng"

  abbrev test_extract_o : Bool
  test_extract_o = extracts "CN=alice,OU=eng,O=acme" "O" "acme"

  abbrev test_extract_missing_attribute : Bool
  test_extract_missing_attribute = extract_fails is_attribute_not_found "CN=alice,OU=eng" "EMAIL"

  abbrev test_escaped_comma : Bool
  test_escaped_comma = extracts "CN=alice\\, bob,OU=eng,O=acme" "CN" "alice\\, bob"

  abbrev test_malformed_rdn_returns_invalid_dn : Bool
  test_malformed_rdn_returns_invalid_dn = extract_fails is_invalid_dn "not-a-rdn,CN=alice" "CN"

  abbrev test_user_manager_resolve : Bool
  test_user_manager_resolve =
      resolves "CN" "CN=alice,OU=eng,O=acme"
        (on_ok (λ u. u.subject == "alice" && u.raw_dn == "CN=alice,OU=eng,O=acme"))

  abbrev test_user_manager_missing_attr : Bool
  test_user_manager_missing_attr =
      resolves "EMAIL" "CN=alice,OU=eng" (on_err is_attribute_not_found)

  -- The names are split as `parts` splits them.
  extract_lem :
      (dn attribute : String)
      → extract_dn_attribute table dn attribute
        ≡ some (find_attribute table attribute (parts false String.[] dn))
  unfolding extract_dn_attribute
  extract_lem dn attribute = rw (extract_dn_attribute, split_rdns_lem dn) refl

  extract_passes :
      (p : Result UserError String → Bool) (dn attribute : String)
      → p (find_attribute table attribute (parts false String.[] dn)) ≡ true
      → on_some p (extract_dn_attribute table dn attribute) ≡ true
  extract_passes p dn attribute h = ap (on_some p) (extract_lem dn attribute) ∙ h

  named : String → Result UserError String → Result UserError User
  named header (err e) = err e
  named header (ok subject) = ok (record { subject = subject; raw_dn = header })

  resolve_passes :
      (p : Result UserError User → Bool) (attribute header : String)
      → p (named header (find_attribute table attribute (parts false String.[] header))) ≡ true
      → resolves attribute header p ≡ true
  unfolding resolve named
  resolve_passes p attribute header h = ground (arith, extract_lem header attribute)

  extract_tests_pass :
      (test_extract_cn_simple ≡ true)
      × (test_extract_cn_case_insensitive ≡ true)
      × (test_extract_ou ≡ true)
      × (test_extract_o ≡ true)
      × (test_extract_missing_attribute ≡ true)
      × (test_escaped_comma ≡ true)
      × (test_malformed_rdn_returns_invalid_dn ≡ true)
  unfolding find_attribute trim split_once to_uppercase parts
  extract_tests_pass = (
    extract_passes _ "CN=alice,OU=eng,O=acme" "CN" refl,
    extract_passes _ "cn=alice,OU=eng,O=acme" "CN" refl,
    extract_passes _ "CN=alice,OU=eng,O=acme" "OU" refl,
    extract_passes _ "CN=alice,OU=eng,O=acme" "O" refl,
    extract_passes _ "CN=alice,OU=eng" "EMAIL" refl,
    extract_passes _ "CN=alice\\, bob,OU=eng,O=acme" "CN" refl,
    extract_passes _ "not-a-rdn,CN=alice" "CN" refl,
  )

  resolve_tests_pass : (test_user_manager_resolve ≡ true) × (test_user_manager_missing_attr ≡ true)
  unfolding find_attribute trim split_once to_uppercase parts named
  resolve_tests_pass = (
    resolve_passes _ "CN" "CN=alice,OU=eng,O=acme" refl,
    resolve_passes _ "EMAIL" "CN=alice,OU=eng" refl,
  )

abbrev test_group_resolution_default_only : Bool
test_group_resolution_default_only =
    texts_eq (resolve_groups [] ("everyone" ∷ "authenticated" ∷ []))
      ("everyone" ∷ "authenticated" ∷ [])

abbrev test_group_resolution_client_only : Bool
test_group_resolution_client_only =
    texts_eq (resolve_groups ("spa-users" ∷ []) []) ("spa-users" ∷ [])

abbrev test_group_resolution_union_dedup : Bool
test_group_resolution_union_dedup =
    texts_eq
      (resolve_groups ("authenticated" ∷ "spa-users" ∷ []) ("everyone" ∷ "authenticated" ∷ []))
      ("everyone" ∷ "authenticated" ∷ "spa-users" ∷ [])

abbrev test_split_rdns_respects_escaped_comma : Bool
test_split_rdns_respects_escaped_comma =
    on_some (λ rdns. texts_eq rdns ("a=1" ∷ "b=2\\,3" ∷ "c=4" ∷ [])) (split_rdns "a=1,b=2\\,3,c=4")

group_tests_pass :
    (test_group_resolution_default_only ≡ true)
    × (test_group_resolution_client_only ≡ true)
    × (test_group_resolution_union_dedup ≡ true)
    × (test_split_rdns_respects_escaped_comma ≡ true)
unfolding resolve_groups parts
group_tests_pass = (
  refl,
  refl,
  refl,
  ap (on_some (λ rdns. texts_eq rdns ("a=1" ∷ "b=2\\,3" ∷ "c=4" ∷ [])))
      (split_rdns_lem "a=1,b=2\\,3,c=4"),
)
