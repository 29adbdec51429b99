-- ===== src/Server/Hex.antt =====
-- src/bin/server/main.rs: `hex_to_32_bytes`, the reading of the code's key.
pub mod RoundTrip
use Prim.Native.Char.{Char, code}
use Prim.Native.String
use openid_tls_connector.Common.{
  ℕ, zero, suc, ◌+◌, ◌-◌, ◌*◌, ◌<◌, String, ◌≡◌, refl, sym, ap, ◌∙◌, Bool, true, false, not, ◌&&◌,
  List, [], ◌∷◌, Option, none, some, arith, eqb, leb, ltb, if◌then◌else◌, length,
}
use openid_tls_connector.Common.Text.{as_bytes, byte_slice}
use openid_tls_connector.External.{Bytes}

-- `char::to_digit(16)` of a byte.
unfoldable pub hex_digit : ℕ → Option ℕ
hex_digit n =
    if leb b'0' n && leb n b'9'
    then some (n - b'0')
    else if leb b'a' n && leb n b'f'
    then some (n - b'a' + 10)
    else if leb b'A' n && leb n b'F'
    then some (n - b'A' + 10)
    else none

-- The digits of a `u8`, the value so far in hand: none on a byte that is no digit, or past 255.
unfoldable pub digits_u8 : ℕ → List ℕ → Option ℕ
unfolding hex_digit
digits_u8 acc [] = some acc
digits_u8 acc (b ∷ bs) = elim (hex_digit b) [
  | none ↦ none
  | some d ↦ let rest = digits_u8 (acc * 16 + d) bs in if ltb (acc * 16 + d) 256 then rest else none
]

-- `u8::from_str_radix(s, 16)`: a sign `+` before the digits is allowed, and no digits are not.
unfoldable pub from_str_radix_16 : List ℕ → Option ℕ
unfolding digits_u8
from_str_radix_16 [] = none
from_str_radix_16 (b ∷ []) = digits_u8 0 (b ∷ [])
from_str_radix_16 (b ∷ c ∷ bs) =
    if eqb b b'+' then digits_u8 0 (c ∷ bs) else digits_u8 0 (b ∷ c ∷ bs)

-- `n` rounds of the loop from `i`. The outer `none` is the panic of a slice inside a character.
unfoldable pub hex_loop : String → ℕ → ℕ → Option (Option Bytes)
unfolding from_str_radix_16
hex_loop hex i zero = some (some [])
hex_loop hex i (suc n) =
    let rest = hex_loop hex (i + 1) n in
    elim (byte_slice hex (i * 2) (i * 2 + 2)) [
      | none ↦ none
      | some pair ↦ elim (from_str_radix_16 (as_bytes pair)) [
        | none ↦ some none
        | some b ↦ elim rest [
          | none ↦ none
          | some none ↦ some none
          | some (some bs) ↦ some (some (b ∷ bs))
        ]
      ]
    ]

unfoldable pub hex_to_32_bytes : String → Option (Option Bytes)
unfolding hex_loop
hex_to_32_bytes hex = if not (eqb (length (as_bytes hex)) 64) then some none else hex_loop hex 0 32
