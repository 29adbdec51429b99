-- ===== src/Client.antt =====
-- src/oidc/client.rs: the registry of configured clients.
pub mod Bits
pub mod Secret
pub mod Registry
use Prim.Native.Nat.{bit_or, bit_xor}
use openid_tls_connector.Common.{
  ℕ, String, Bool, true, false, not, List, [], ◌∷◌, ◌++◌, Option, none, some, Result, ok, err, ◌==◌,
  eqb, if◌then◌else◌, length, find, any,
}
use openid_tls_connector.Common.Text.{as_bytes}

pub data AuthResult : Type 0 where
  allow deny : AuthResult

pub record ClientConfig : Type 0 where
  pub client_id : String
  pub client_secret : Option String
  pub redirect_uris : List String
  pub groups : List String

pub record ClientRegistry : Type 0 where
  pub clients : List ClientConfig

pub data ClientRegistryError : Type 0 where
  duplicate_client_id : String → ClientRegistryError

-- The loop of `ClientRegistry::new`: `seen` is the hash set, whose `insert` answers whether the
-- identifier is new.
check_ids : List String → List ClientConfig → Option String
check_ids seen [] = none
check_ids seen (c ∷ cs) =
    let rest = check_ids (c.client_id ∷ seen) cs in
    if any (λ i. i == c.client_id) seen then some c.client_id else rest

unfoldable pub new : List ClientConfig → Result ClientRegistryError ClientRegistry
unfolding check_ids
new clients = elim (check_ids [] clients) [
  | some i ↦ err (duplicate_client_id i)
  | none ↦ ok (record { clients = clients })
]

unfoldable pub find_by_id : ClientRegistry → String → Option ClientConfig
find_by_id r client_id = find (λ c. c.client_id == client_id) r.clients

unfoldable pub validate_redirect_uri : ClientRegistry → String → String → Bool
validate_redirect_uri r client_id redirect_uri = elim (find_by_id r client_id) [
  | none ↦ false
  | some c ↦ any (λ u. u == redirect_uri) c.redirect_uris
]

-- `diff |= x ^ y` over the zipped bytes.
fold_diff : ℕ → List ℕ → List ℕ → ℕ
fold_diff diff [] ys = diff
fold_diff diff (x ∷ xs) [] = diff
fold_diff diff (x ∷ xs) (y ∷ ys) = fold_diff (bit_or diff (bit_xor x y)) xs ys

unfoldable pub constant_time_eq : List ℕ → List ℕ → Bool
unfolding fold_diff
constant_time_eq a b = if not (eqb (length a) (length b)) then false else eqb (fold_diff 0 a b) 0

-- The two inner matches of `validate_client_secret`.
check_secret : Option String → Option String → AuthResult
check_secret none presented = allow
check_secret (some expected) none = deny
check_secret (some expected) (some given) =
    if constant_time_eq (as_bytes expected) (as_bytes given) then allow else deny

unfoldable pub validate_client_secret : ClientRegistry → String → Option String → AuthResult
unfolding check_secret
validate_client_secret r client_id presented = elim (find_by_id r client_id) [
  | none ↦ deny
  | some client ↦ check_secret client.client_secret presented
]
