-- ===== src/Users.antt =====
-- src/users/mod.rs: the user named by the client certificate's distinguished name, and groups.
pub mod Groups
pub mod Rounds
pub mod Split
pub mod Refine
pub mod Attribute
use Prim.Native.String
use openid_tls_connector.Common.{
  ℕ, zero, suc, ◌+◌, ◌-◌, String, Bool, List, [], ◌∷◌, ◌++◌, Option, none, some, Result, ok, err,
  ◌&&◌, not, ◌==◌, eqb, ltb, leb, if◌then◌else◌, length, get_or, any, list_eq,
}
use openid_tls_connector.Common.Text.{
  as_bytes, byte_slice, byte_slice_from, trim, split_once, codes,
}

pub data UserError : Type 0 where
  invalid_dn attribute_not_found : String → UserError

-- The `#[error]` texts.
unfoldable pub error_text : UserError → String
error_text (invalid_dn rdn) =
    String.◌++◌ "Could not parse DN: malformed RDN '" (String.◌++◌ rdn "' (expected key=value)")
error_text (attribute_not_found a) = String.◌++◌ "Attribute '" (String.◌++◌ a "' not found in DN")

pub record User : Type 0 where
  pub subject : String
  pub raw_dn : String

pub record UserManager : Type 0 where
  pub dn_attribute : String

-- The loop of `split_rdns` from byte `i`, the current part beginning at byte `start`. `none` is a
-- slice that panics, or no fuel.
pub split_loop : String → List ℕ → ℕ → ℕ → ℕ → Option (List String)
split_loop dn bytes zero start i = none
split_loop dn bytes (suc fuel) start i =
    let skip = split_loop dn bytes fuel start (i + 2) in
    let cut : Option (List String) = elim (byte_slice dn start i) [
      | none ↦ none
      | some part ↦ elim (split_loop dn bytes fuel (i + 1) (i + 1)) [
        | none ↦ none
        | some parts ↦ some (part ∷ parts)
      ]
    ] in
    let next = split_loop dn bytes fuel start (i + 1) in
    let last : Option (List String) = elim (byte_slice_from dn start) [
      | none ↦ none
      | some part ↦ some (part ∷ [])
    ] in
    if ltb i (length bytes)
    then if eqb (get_or bytes i 0) b'\\' && ltb (i + 1) (length bytes)
      then skip
      else if eqb (get_or bytes i 0) b','
      then cut
      else next
    else last

-- Each round passes a byte, so one more than the bytes is fuel enough.
unfoldable pub split_rdns : String → Option (List String)
unfolding split_loop
split_rdns dn = let bytes = as_bytes dn in split_loop dn bytes (suc (length bytes)) 0 0

-- `to_uppercase`, as code points; Unicode's table beyond ASCII is a parameter.
pub upper_char : (ℕ → List ℕ) → ℕ → List ℕ
upper_char table n =
    if ltb n 128 then (if leb b'a' n && leb n b'z' then n - 32 else n) ∷ [] else table n

unfoldable pub to_uppercase : (ℕ → List ℕ) → List ℕ → List ℕ
unfolding upper_char
to_uppercase table [] = []
to_uppercase table (n ∷ s) = upper_char table n ++ to_uppercase table s

module _ (table : ℕ → List ℕ) where
  abbrev pub upper : String → List ℕ
  upper s = to_uppercase table (codes s)

  -- The loop of `extract_dn_attribute`.
  unfoldable pub find_attribute : String → List String → Result UserError String
  find_attribute attribute [] = err (attribute_not_found attribute)
  find_attribute attribute (rdn ∷ rdns) =
      let rest = find_attribute attribute rdns in
      elim (split_once b'=' (trim rdn)) [
        | none ↦ err (invalid_dn (trim rdn))
        | some (key, value) ↦
            if list_eq (upper (trim key)) (upper attribute) then ok (trim value) else rest
      ]

  unfoldable pub extract_dn_attribute : String → String → Option (Result UserError String)
  extract_dn_attribute dn attribute = elim (split_rdns dn) [
    | none ↦ none
    | some rdns ↦ some (find_attribute attribute rdns)
  ]

  unfoldable pub resolve : UserManager → String → Option (Result UserError User)
  resolve m header_value = elim (extract_dn_attribute header_value m.dn_attribute) [
    | none ↦ none
    | some (err e) ↦ some (err e)
    | some (ok subject) ↦ some (ok (record { subject = subject; raw_dn = header_value }))
  ]

unfoldable pub resolve_groups : List String → List String → List String
resolve_groups [] result = result
resolve_groups (g ∷ client_groups) result =
    resolve_groups client_groups
      (if not (any (λ r. r == g) result) then result ++ g ∷ [] else result)
